-- ===== src/Commands/Trials.antt =====
-- client/cmd/sending/sending.go: the loop of messages. `SendMessage` takes the hash of a contact, and
-- gets the contact's name.
use secure_messager_erlang.Prelude.{
  ℕ, zero, suc, ◌≡◌, refl, ap, none, All, List, [], ◌∷◌, Bytes, length, arith, bytes_equal,
  bytes_equal_iff, Bool-cases, inl, inr,
}
use secure_messager_erlang.Outcome.{ok, err, contact_not_found}
use secure_messager_erlang.Contact.{Contact, get_contact_by_id_hash}
use secure_messager_erlang.Client.{Client, Environment}
use secure_messager_erlang.Client.Messages.{send_plain_message}
use secure_messager_erlang.Commands.{send_trials, test7, hello_text}

-- Every contact is kept under a hash of 16 bytes.
abbrev pub IsHashed : List Contact → Type 0
IsHashed xs = All (λ x. length x.id_hash ≡ 16) xs

get_contact_by_id_hash-none :
    (xs : List Contact) (name : Bytes)
    → IsHashed xs
    → length name ≡ 5
    → get_contact_by_id_hash xs name ≡ none
unfolding get_contact_by_id_hash
get_contact_by_id_hash-none [] name h short = refl
get_contact_by_id_hash-none (x ∷ xs) name (long, h) short =
    elim (Bool-cases (bytes_equal x.id_hash name)) [
      | inl same ↦
          let e = ap length ((bytes_equal_iff x.id_hash name).0 same) in
          absurd (omega (arith, e, long, short))
      | inr other ↦ ground (arith, other, get_contact_by_id_hash-none xs name h short)
    ]

-- So many seconds, one after the other.
abbrev pub asleep {ℓ} : {W : Type ℓ} → (W → ℕ → W) → ℕ → W → W
asleep sleep zero w = w
asleep sleep (suc n) w = asleep sleep n (sleep w 1)

module _ {D W : Type 0} (env : Environment D W) where
  -- `SendMessage` by a name of five bytes finds nobody.
  send_plain_message-unhashed :
      (c : Client D W)
      → IsHashed c.contacts
      → send_plain_message env test7 hello_text c ≡ (c, err contact_not_found)
  unfolding send_plain_message
  send_plain_message-unhashed c h =
      ground (arith, get_contact_by_id_hash-none c.contacts test7 h refl)

  -- When every contact is kept under a hash of 16 bytes, the loop of the sending trial changes nothing
  -- of the client: it sends nothing, stores nothing, and sleeps a second in each round.
  pub send_trials-unsent :
      (sleep : W → ℕ → W) (n : ℕ) (c : Client D W)
      → IsHashed c.contacts
      → send_trials env sleep n c ≡ (record c { world = asleep sleep n c.world }, ok tt)
  unfolding send_trials
  send_trials-unsent sleep zero c h = refl
  send_trials-unsent sleep (suc n) c h =
      let slept = record c { world = sleep c.world 1 } in
      ground (arith, send_plain_message-unhashed c h, send_trials-unsent sleep n slept h)
