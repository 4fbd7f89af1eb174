-- ===== src/Outcome.antt =====
-- The results of Go calls: a value, an error value, or the end of the process.
use secure_messager_erlang.Prelude.{
  ◌≡◌, ◌≢◌, refl, ap, ℕ, ◌-◌, List, ◌&&◌, ◌⊎◌, inl, inr, Bytes, length, take, drop, leb,
  if◌then◌else◌,
}

-- The error values that the program makes (client/internal). `library` is an error of a package
-- that the program calls, with a number that stands for which.
pub data Error : Type 0 where
  invalid_hash_length : ℕ → Error
  insufficient_message_length : Error
  insufficient_message : Error
  failed_to_parse : List ℕ → Error
  invalid_message_key_index : Error
  too_many_skipped : Error
  already_processed : Error
  invalid_mac : Error
  key_must_be_32_bytes : Error
  short_buffer : Error
  no_matching_ratchet : Error
  packet_too_long : ℕ → Error
  auth_not_set : Error
  invalid_packet_length : Error
  invalid_auth_token_length : Error
  user_id_empty : Error
  password_empty : Error
  contact_id_empty : Error
  plain_message_empty : Error
  contact_not_found : Error
  invalid_message_format : Error
  failed_to_parse_data : Error → Error
  failed_to_decrypt : List ℕ → Error
  server_error : List ℕ → Error
  timeout : Error
  library : ℕ → Error

-- `crash` is a panic (a slice out of range) or `log.Fatalf`: the process ends.
pub data Outcome {ℓ} (A : Type ℓ) : Type ℓ where
  ok : A → Outcome A
  err : Error → Outcome A
  crash : Outcome A

-- The next call is made only after a value.
infixl 5 ◌>>◌ ◌>>=◌
abbrev pub ◌>>=◌ {α β} : {X : Type α} {Y : Type β} → Outcome X → (X → Outcome Y) → Outcome Y
crash >>= next = crash
ok x >>= next = next x
err e >>= next = err e

abbrev pub ◌>>◌ {β} : {Y : Type β} → Outcome (Unit {0}) → Outcome Y → Outcome Y
first >> second = first >>= λ _. second

-- b[lo:hi]. A bound out of range, or in the wrong order, is a panic. (Go compares `hi` with the
-- capacity. Where the program slices with a `hi` that it has not compared with the length, a later
-- slice of the same function panics whenever `hi` passes the length.)
unfoldable pub slice : Bytes → ℕ → ℕ → Outcome Bytes
slice b lo hi = if leb lo hi && leb hi (length b) then ok (take (hi - lo) (drop lo b)) else crash

-- A bind with a value made it from a value, and one with an error, whose second part makes none, got
-- the error from its first part.
pub >>=-eq-ok {α β} :
    {X : Type α} {Y : Type β} (r : Outcome X) (next : X → Outcome Y) {y : Y}
    → (r >>= next) ≡ ok y
    → (x : X) × (r ≡ ok x) × (next x ≡ ok y)
>>=-eq-ok crash next e = cc
>>=-eq-ok (err x) next e = cc
>>=-eq-ok (ok x) next e = (x, refl, e)

pub >>=-eq-err {α β} :
    {X : Type α} {Y : Type β} (r : Outcome X) (next : X → Outcome Y) {e : Error}
    → (r >>= next) ≡ err e
    → ((x : X) → next x ≢ err e)
    → r ≡ err e
>>=-eq-err crash next h total = cc
>>=-eq-err (err x) next h total = ap err (cc h)
>>=-eq-err (ok x) next h total = absurd (total x h)

pub Outcome-cases {ℓ} :
    {A : Type ℓ} (r : Outcome A)
    → ((a : A) × (r ≡ ok a)) ⊎ ((e : Error) × (r ≡ err e)) ⊎ (r ≡ crash)
Outcome-cases (ok a) = inl (a, refl)
Outcome-cases (err e) = inr (inl (e, refl))
Outcome-cases crash = inr (inr refl)
