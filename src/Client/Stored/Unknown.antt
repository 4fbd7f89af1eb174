-- ===== src/Client/Stored/Unknown.antt =====
-- client/internal/client/client.go: what `handleIncomingMessage` leaves in the database when the
-- contact is not known yet.
use secure_messager_erlang.Prelude.{◌≡◌, sym, ap, ◌∙◌, arith, none, some, inl, inr}
use secure_messager_erlang.Outcome.{Outcome, Outcome-cases, ok}
use secure_messager_erlang.Crypt.Library.{Crypto}
use secure_messager_erlang.Contact.{Contact, get_contact_by_id_hash}
use secure_messager_erlang.Contact.Search.{IsDistinct}
use secure_messager_erlang.Contact.Evolution.{Evolves-IsDistinct}
use secure_messager_erlang.Ratchet.DhRatchet.{receiving}
use secure_messager_erlang.Ratchet.DhRatchet.Stored.{Gob, GobLaws, IsEncodable, flatten}
use secure_messager_erlang.Sqlite.Schema.{Tables}
use secure_messager_erlang.Tcp.Server.{Network}
use secure_messager_erlang.Client.{Client}
use secure_messager_erlang.Client.Contacts.{add_contact_by_hash}
use secure_messager_erlang.Client.Invariant.{add_contact_by_hash-Continues}
use secure_messager_erlang.Client.Messages.{other_side, decrypt_for, handle_incoming_message}
use secure_messager_erlang.Message.{Message}
use secure_messager_erlang.Client.Stored.{over_gob, IsStored}
use secure_messager_erlang.Client.Stored.Adding.{add_contact_by_hash-IsStored}
use secure_messager_erlang.Client.Stored.Receiving.{opened_by, decrypt_for-IsStored}

module _ {W : Type 0} (crypto : Crypto) (network : Network W) (g : Gob) where
  -- The client once the contact of the message was added.
  abbrev introduced : Message → Client Tables W → Client Tables W × Outcome (Unit {0})
  introduced m c =
      let env = over_gob crypto network g in
      add_contact_by_hash env (other_side env m c.id_hash) receiving c

  unknown-decrypt_for :
      (m : Message) (c : Client Tables W) {x : Contact}
      → get_contact_by_id_hash c.contacts (other_side (over_gob crypto network g) m c.id_hash)
        ≡ none
      → get_contact_by_id_hash
          (introduced m c).0.contacts
          (other_side (over_gob crypto network g) m c.id_hash)
        ≡ some x
      → (handle_incoming_message (over_gob crypto network g) m c).2 ≡ ok tt
      → ((introduced m c).1 ≡ ok tt)
        × (handle_incoming_message (over_gob crypto network g) m c
            ≡ decrypt_for (over_gob crypto network g) m x (introduced m c).0)
  unfolding handle_incoming_message
  unknown-decrypt_for m c free found done = elim (Outcome-cases (introduced m c).1) [
    | inl (y, e) ↦ (e, ground (arith, free, found, e))
    | inr (inl (y, e)) ↦ ground (arith, free, e, done)
    | inr (inr e) ↦ ground (arith, free, e, done)
  ]

  -- A message of somebody who is not among the contacts, which have different hashes, that is handled
  -- without an error and decrypted with the ratchet made for it leaves the database holding what the
  -- contacts in memory hold, if it did before, the ratchet afterwards can be encoded, and gob keeps what
  -- it encodes.
  pub handle_incoming_message_unknown-IsStored :
      (laws : GobLaws g) (m : Message) (c : Client Tables W) {x : Contact}
      → get_contact_by_id_hash c.contacts (other_side (over_gob crypto network g) m c.id_hash)
        ≡ none
      → get_contact_by_id_hash
          (introduced m c).0.contacts
          (other_side (over_gob crypto network g) m c.id_hash)
        ≡ some x
      → IsStored crypto network g c
      → IsDistinct c.contacts
      → (opened_by crypto network g m x).2 ≡ ok tt
      → IsEncodable (flatten (opened_by crypto network g m x).1)
      → (handle_incoming_message (over_gob crypto network g) m c).2 ≡ ok tt
      → IsStored crypto network g (handle_incoming_message (over_gob crypto network g) m c).0
  handle_incoming_message_unknown-IsStored laws m c {x} free found stored distinct opened encodable
        done =
      let env = over_gob crypto network g in
      let who = other_side env m c.id_hash in
      let (added, same) = unknown-decrypt_for m c free found done in
      rw same (
        decrypt_for-IsStored crypto network g laws m x (introduced m c).0
          (add_contact_by_hash-IsStored crypto network g laws who receiving c stored added)
          (Evolves-IsDistinct (add_contact_by_hash-Continues env who receiving c).contacts distinct)
          opened encodable
          (ap (λ (p : Client Tables W × Message × Outcome (Unit {0})). p.2) (sym same) ∙ done))
