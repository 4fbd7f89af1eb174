-- ===== src/Client/Stored/Sending.antt =====
-- client/internal/client/client.go: what `SendMessage` leaves in the database.
use secure_messager_erlang.Prelude.{◌≡◌, sym, ap, ◌∙◌, false, some, Bytes, length, ◌==◌}
use secure_messager_erlang.Outcome.{Outcome, ok}
use secure_messager_erlang.Crypt.Library.{Crypto}
use secure_messager_erlang.Contact.{Contact, get_contact_by_id_hash}
use secure_messager_erlang.Contact.Search.{IsDistinct}
use secure_messager_erlang.Ratchet.DhRatchet.Stored.{
  Gob, GobLaws, IsEncodable, flatten, marshal, unmarshal,
}
use secure_messager_erlang.Sqlite
use secure_messager_erlang.Sqlite.Schema.{Tables}
use secure_messager_erlang.Tcp.Server.{Network}
use secure_messager_erlang.Client.{Client}
use secure_messager_erlang.Client.Messages.{send_to, send_plain_message}
use secure_messager_erlang.Client.Sharing.{
  Memory, HasNoRoom, send_message_in_memory, send_message_in_memory-copies,
}
use secure_messager_erlang.Client.History.{send_to_contacts}
use secure_messager_erlang.Client.Persistence.{
  sealed, send_to_db, save_message_contacts, send_plain_message_known,
}
use secure_messager_erlang.Client.Stored.{values, over_gob, IsStored, ratchet_after, update_stored}

module _ {W : Type 0} (crypto : Crypto) (network : Network W) (g : Gob) where
  send_plain_message-IsStored :
      (laws : GobLaws g) (h text : Bytes) (c : Client Tables W) {x : Contact} {b : Bytes}
      → get_contact_by_id_hash c.contacts h ≡ some x
      → (length h == 0) ≡ false
      → (length text == 0) ≡ false
      → (IsStored crypto network g) c
      → IsDistinct c.contacts
      → IsEncodable (flatten ((ratchet_after crypto network g) x text c))
      → marshal g ((ratchet_after crypto network g) x text c) ≡ ok b
      → (send_plain_message (over_gob crypto network g) h text c).1 ≡ ok tt
      → (IsStored crypto network g) (send_plain_message (over_gob crypto network g) h text c).0
  send_plain_message-IsStored laws h text c {x} {b} found hh ht (ys, loaded, kept) distinct
        encodable m done =
      let same =
        send_plain_message_known crypto network (marshal g) (unmarshal g) h text c found hh ht in
      let r1 = (ratchet_after crypto network g) x text c in
      let done' : (send_to (over_gob crypto network g) x h text c).1 ≡ ok tt =
        ap (λ (p : Client Tables W × Outcome (Unit {0})). p.1) (sym same) ∙ done in
      let message = (sealed crypto network (marshal g) (unmarshal g) x text c).0 in
      let saved =
        (Sqlite.save_message (over_gob crypto network g).storage c.db r1.ratchet_index message).0 in
      let (zs, written, held) =
        update_stored crypto network g laws saved c.contacts ys x.id_hash r1
          (save_message_contacts crypto network (marshal g) (unmarshal g) c.db r1.ratchet_index
              message
            ∙ loaded)
          kept distinct encodable m in
      rw same (
        zs,
        ap (Sqlite.get_contacts (over_gob crypto network g).storage)
              (send_to_db crypto network (marshal g) (unmarshal g) x h text c done')
            ∙ written,
        held ∙ ap values (sym (send_to_contacts (over_gob crypto network g) x h text c)),
      )

  -- A message, not empty, that is sent without an error to one of several contacts with different
  -- hashes leaves the database holding what the contacts in memory hold, if it did before, the contact's
  -- new ratchet can be encoded, gob keeps what it encodes, and the slice of the hash that is given has
  -- no room behind it.
  pub send_message_in_memory-IsStored :
      (laws : GobLaws g) (memory : Memory W) (h text : Bytes) (c : Client Tables W) {x : Contact}
      {b : Bytes}
      → HasNoRoom memory h
      → get_contact_by_id_hash c.contacts h ≡ some x
      → (length h == 0) ≡ false
      → (length text == 0) ≡ false
      → (IsStored crypto network g) c
      → IsDistinct c.contacts
      → IsEncodable (flatten ((ratchet_after crypto network g) x text c))
      → marshal g ((ratchet_after crypto network g) x text c) ≡ ok b
      → (send_message_in_memory (over_gob crypto network g) memory h text c).1 ≡ ok tt
      → (IsStored crypto network g)
          (send_message_in_memory (over_gob crypto network g) memory h text c).0
  send_message_in_memory-IsStored laws memory h text c no_room found hh ht stored distinct encodable
        m done =
      let same =
        send_message_in_memory-copies (over_gob crypto network g) memory h text c no_room in
      rw same (
        send_plain_message-IsStored laws h text c found hh ht stored distinct encodable m
          (ap (λ (p : Client Tables W × Outcome (Unit {0})). p.1) (sym same) ∙ done))
