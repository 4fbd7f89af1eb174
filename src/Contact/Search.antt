-- ===== src/Contact/Search.antt =====
-- client/internal/contact/contact.go: what a search finds after a write, and that no two contacts
-- get the same hash.
use secure_messager_erlang.Prelude.{
  ◌≡◌, refl, inl, inr, List, [], ◌∷◌, ◌++◌, arith, none, some, Bytes, if◌then◌else◌, Bool-cases,
  bytes_equal, bytes_equal_iff, ℤ_eq, ℕ_eq, Bytes_eq,
}
use secure_messager_erlang.Ratchet.DhRatchet.{DhRatchet}
use secure_messager_erlang.Contact.{Contact, get_contact_by_id_hash, put_ratchet}
use secure_messager_erlang.Prelude.{map}

-- What a search finds has the hash that it looked for.
pub get_contact_id :
    (xs : List Contact) (k : Bytes) {x : Contact}
    → get_contact_by_id_hash xs k ≡ some x
    → x.id_hash ≡ k
unfolding get_contact_by_id_hash
get_contact_id [] k e = cc
get_contact_id (y ∷ ys) k {x} e = elim (Bool-cases (bytes_equal y.id_hash k)) [
  | inl t ↦ ground (arith, t, e, bytes_equal_iff y.id_hash k)
  | inr f ↦ get_contact_id ys k {x = x} (ground (arith, f, e))
]

-- Reading after a write through the pointer of `k`: at `k` the new ratchet if there is such a
-- contact, elsewhere what was there.
pub get_contact-put_ratchet :
    (xs : List Contact) (k j : Bytes) (r : DhRatchet)
    → get_contact_by_id_hash (put_ratchet xs k r) j ≡ (
        if bytes_equal k j
        then elim (get_contact_by_id_hash xs k) [
          | none ↦ none
          | some x ↦ some (record x { dh_ratchet = r })
        ]
        else get_contact_by_id_hash xs j)
unfolding get_contact_by_id_hash put_ratchet
get_contact-put_ratchet [] k j r = ground arith
get_contact-put_ratchet (x ∷ xs) k j r = ground (
  arith,
  bytes_equal_iff x.id_hash k,
  bytes_equal_iff x.id_hash j,
  bytes_equal_iff k j,
  get_contact-put_ratchet xs k j r,
)

abbrev pub id_hashes : List Contact → List Bytes
id_hashes xs = map (λ (x : Contact). x.id_hash) xs

pub id_hashes-put_ratchet :
    (xs : List Contact) (k : Bytes) (r : DhRatchet) → id_hashes (put_ratchet xs k r) ≡ id_hashes xs
unfolding put_ratchet
id_hashes-put_ratchet [] k r = refl
id_hashes-put_ratchet (x ∷ xs) k r = ground (arith, id_hashes-put_ratchet xs k r)

-- No two contacts have the same hash: the search misses each contact's hash in those behind it.
abbrev pub IsDistinct : List Contact → Type 0
IsDistinct [] = Unit {0}
IsDistinct (x ∷ xs) = (get_contact_by_id_hash xs x.id_hash ≡ none) × IsDistinct xs

get_contact-same_hashes :
    (xs : List Contact) (k j : Bytes) (r : DhRatchet)
    → get_contact_by_id_hash xs j ≡ none
    → get_contact_by_id_hash (put_ratchet xs k r) j ≡ none
get_contact-same_hashes xs k j r h =
    rw (get_contact-put_ratchet xs k j r) (ground (arith, h, bytes_equal_iff k j))

pub put_ratchet-IsDistinct :
    (xs : List Contact) (k : Bytes) (r : DhRatchet)
    → IsDistinct xs
    → IsDistinct (put_ratchet xs k r)
unfolding put_ratchet
put_ratchet-IsDistinct [] k r h = tt
put_ratchet-IsDistinct (x ∷ xs) k r (free, rest) = ground (
  arith,
  free,
  rest,
  get_contact-same_hashes xs k x.id_hash r free,
  put_ratchet-IsDistinct xs k r rest,
)

get_contact-append :
    (xs : List Contact) (y : Contact) (j : Bytes)
    → get_contact_by_id_hash (xs ++ (y ∷ [])) j ≡ (elim (get_contact_by_id_hash xs j) [
      | some x ↦ some x
      | none ↦ if bytes_equal y.id_hash j then some y else none
    ])
unfolding get_contact_by_id_hash
get_contact-append [] y j = refl
get_contact-append (x ∷ xs) y j = ground (arith, get_contact-append xs y j)

-- A contact with a new hash may be added.
pub append-IsDistinct :
    (xs : List Contact) (y : Contact)
    → IsDistinct xs
    → get_contact_by_id_hash xs y.id_hash ≡ none
    → IsDistinct (xs ++ (y ∷ []))
unfolding get_contact_by_id_hash
append-IsDistinct [] y h free = (refl, tt)
append-IsDistinct (x ∷ xs) y (own, rest) free = ground (
  arith,
  own,
  free,
  get_contact-append xs y x.id_hash,
  bytes_equal_iff y.id_hash x.id_hash,
  bytes_equal_iff x.id_hash y.id_hash,
  append-IsDistinct xs y rest,
)
