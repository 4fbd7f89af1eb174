-- ===== src/Client/Stored/Receiving.antt =====
-- client/internal/client/client.go: what `handleIncomingMessage` leaves in the database.
use secure_messager_erlang.Prelude.{◌≡◌, sym, ap, ◌∙◌, arith, some, Bytes, inl, inr}
use secure_messager_erlang.Outcome.{Outcome-cases, Outcome, ok}
use secure_messager_erlang.Crypt.Library.{Crypto}
use secure_messager_erlang.Contact.{Contact, get_contact_by_id_hash, put_ratchet}
use secure_messager_erlang.Contact.Search.{IsDistinct}
use secure_messager_erlang.Ratchet.DhRatchet.Stored.{
  Gob, GobLaws, IsEncodable, flatten, marshal, unmarshal,
}
use secure_messager_erlang.Sqlite
use secure_messager_erlang.Sqlite.Schema.{Tables}
use secure_messager_erlang.Tcp.Server.{Network}
use secure_messager_erlang.Client.{Client}
use secure_messager_erlang.Client.Messages.{decrypt_for, save, other_side, handle_incoming_message}
use secure_messager_erlang.Message.{Message}
use secure_messager_erlang.Message.Cipher
use secure_messager_erlang.Message.Cipher.{Result}
use secure_messager_erlang.Client.Persistence.{save_message_contacts}
use secure_messager_erlang.Client.Stored.{values, over_gob, IsStored, update_stored}

module _ {W : Type 0} (crypto : Crypto) (network : Network W) (g : Gob) where
  -- What `Decrypt` leaves of the message and of the contact's ratchet.
  abbrev pub opened_by : Message → Contact → Result
  opened_by m x = Cipher.decrypt crypto m x.dh_ratchet

  decrypt_for_done :
      (m : Message) (x : Contact) (c : Client Tables W)
      → (opened_by m x).2 ≡ ok tt
      → (decrypt_for (over_gob crypto network g) m x c).2 ≡ ok tt
      → ((decrypt_for (over_gob crypto network g) m x c).0.contacts
          ≡ put_ratchet c.contacts x.id_hash (opened_by m x).1)
        × ((decrypt_for (over_gob crypto network g) m x c).0.db
            ≡ (Sqlite.update_contact_row
                (over_gob crypto network g).storage
                (Sqlite.save_message
                  (over_gob crypto network g).storage
                  c.db
                  (opened_by m x).1.ratchet_index
                  (opened_by m x).0).0
                (record x { dh_ratchet = (opened_by m x).1 })).0)
        × ((Sqlite.update_contact_row
              (over_gob crypto network g).storage
              (Sqlite.save_message
                (over_gob crypto network g).storage
                c.db
                (opened_by m x).1.ratchet_index
                (opened_by m x).0).0
              (record x { dh_ratchet = (opened_by m x).1 })).1
            ≡ ok tt)
  unfolding decrypt_for save
  decrypt_for_done m x c opened done = ground (arith, opened, done)

  marshal_done :
      (t : Tables) (x : Contact)
      → (Sqlite.update_contact_row (over_gob crypto network g).storage t x).1 ≡ ok tt
      → (b : Bytes) × (marshal g x.dh_ratchet ≡ ok b)
  unfolding Sqlite.update_contact_row
  marshal_done t x done = elim (Outcome-cases (marshal g x.dh_ratchet)) [
    | inl (b, e) ↦ (b, e)
    | inr (inl (y, e)) ↦ ground (arith, e, done)
    | inr (inr e) ↦ ground (arith, e, done)
  ]

  pub decrypt_for-IsStored :
      (laws : GobLaws g) (m : Message) (x : Contact) (c : Client Tables W)
      → (IsStored crypto network g) c
      → IsDistinct c.contacts
      → (opened_by m x).2 ≡ ok tt
      → IsEncodable (flatten (opened_by m x).1)
      → (decrypt_for (over_gob crypto network g) m x c).2 ≡ ok tt
      → (IsStored crypto network g) (decrypt_for (over_gob crypto network g) m x c).0
  decrypt_for-IsStored laws m x c (ys, loaded, kept) distinct opened encodable done =
      let (left, db, updated) = decrypt_for_done m x c opened done in
      let (m1, r1, _) = opened_by m x in
      let saved =
        (Sqlite.save_message (over_gob crypto network g).storage c.db r1.ratchet_index m1).0 in
      let (b, encoded) = marshal_done saved (record x { dh_ratchet = r1 }) updated in
      let (zs, written, held) =
        update_stored crypto network g laws saved c.contacts ys x.id_hash r1
          (save_message_contacts crypto network (marshal g) (unmarshal g) c.db r1.ratchet_index m1
            ∙ loaded)
          kept distinct encodable encoded in
      (
        zs,
        ap (Sqlite.get_contacts (over_gob crypto network g).storage) db ∙ written,
        held ∙ ap values (sym left),
      )

  -- A message of one of several contacts with different hashes that is decrypted and handled without an
  -- error leaves the database holding what the contacts in memory hold, if it did before, the contact's
  -- new ratchet can be encoded, and gob keeps what it encodes.
  pub handle_incoming_message-IsStored :
      (laws : GobLaws g) (m : Message) (c : Client Tables W) {x : Contact}
      → get_contact_by_id_hash c.contacts (other_side (over_gob crypto network g) m c.id_hash)
        ≡ some x
      → (IsStored crypto network g) c
      → IsDistinct c.contacts
      → (opened_by m x).2 ≡ ok tt
      → IsEncodable (flatten (opened_by m x).1)
      → (handle_incoming_message (over_gob crypto network g) m c).2 ≡ ok tt
      → (IsStored crypto network g) (handle_incoming_message (over_gob crypto network g) m c).0
  unfolding handle_incoming_message
  handle_incoming_message-IsStored laws m c {x} found stored distinct opened encodable done =
      let same : handle_incoming_message (over_gob crypto network g) m c
          ≡ decrypt_for (over_gob crypto network g) m x c =
        ground (arith, found) in
      rw same (
        decrypt_for-IsStored laws m x c stored distinct opened encodable
          (ap (λ (p : Client Tables W × Message × Outcome (Unit {0})). p.2) (sym same) ∙ done))
