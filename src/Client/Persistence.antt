-- ===== src/Client/Persistence.antt =====
-- client/internal/client/client.go over the tables of the schema: what a client that is started again
-- finds.
use secure_messager_erlang.Prelude.{
  ◌≡◌, refl, sym, ap, ◌∙◌, arith, false, List, some, Bytes, length, ℕ, ◌==◌,
}
use secure_messager_erlang.Outcome.{Error, Outcome, ok, err}
use secure_messager_erlang.Crypt.Library.{Crypto}
use secure_messager_erlang.Contact.{Contact, get_contact_by_id_hash, put_ratchet}
use secure_messager_erlang.Contact.Search.{IsDistinct}
use secure_messager_erlang.Ratchet.DhRatchet.{DhRatchet}
use secure_messager_erlang.Message.{Message, new_plain_message}
use secure_messager_erlang.Message.Cipher
use secure_messager_erlang.Message.Cipher.{Result}
use secure_messager_erlang.Sqlite
use secure_messager_erlang.Sqlite.Schema.{Tables, schema, execute, select}
use secure_messager_erlang.Sqlite.Schema.Contacts.{get_contacts-update_contact_row}
use secure_messager_erlang.Tcp.Server.{Network, TcpServer}
use secure_messager_erlang.Client.{Client, Environment, Handler, request, draw}
use secure_messager_erlang.Client.Contacts.{load_contacts}
use secure_messager_erlang.Client.Messages.{send_to, send_plain_message}
use secure_messager_erlang.Client.Sharing.{
  Memory, HasNoRoom, send_message_in_memory, send_message_in_memory-copies,
}
use secure_messager_erlang.Client.Account.{new_client}
use secure_messager_erlang.Client.History.{send_to_contacts}

module _ {W : Type 0} (crypto : Crypto) (network : Network W) (marshal : DhRatchet → Outcome Bytes)
    (unmarshal : Bytes → Outcome DhRatchet) where
  abbrev pub over_schema : Environment Tables W
  over_schema = record { crypto = crypto; storage = schema marshal unmarshal; network = network }

  -- The contacts in the database are those of the client.
  abbrev pub IsPersisted : Client Tables W → Type 0
  IsPersisted c = Sqlite.get_contacts (schema marshal unmarshal) c.db ≡ ok c.contacts

  -- The contacts of a client that is started on the database of `c`.
  abbrev pub restarted : TcpServer Handler → W → Client Tables W → List Contact
  restarted server world c = (load_contacts over_schema (new_client server c.db world)).0.contacts

  restarted_persisted :
      (server : TcpServer Handler) (world : W) (c : Client Tables W)
      → IsPersisted c
      → restarted server world c ≡ c.contacts
  unfolding load_contacts new_client
  restarted_persisted server world c h = ground (arith, h)

  -- What `Encrypt` leaves of the message and of the contact's ratchet in `SendMessage`.
  abbrev pub sealed : Contact → Bytes → Client Tables W → Result
  sealed x text c =
      Cipher.encrypt crypto (new_plain_message c.id_hash x.id_hash text) x.dh_ratchet
        (draw over_schema x.dh_ratchet.state c.world).1

  pub save_message_contacts :
      (t : Tables) (i : ℕ) (m : Message)
      → Sqlite.get_contacts
          (schema marshal unmarshal)
          (Sqlite.save_message (schema marshal unmarshal) t i m).0
        ≡ Sqlite.get_contacts (schema marshal unmarshal) t
  unfolding Sqlite.save_message execute Sqlite.get_contacts select
  save_message_contacts t i m = refl

  pub send_to_db :
      (x : Contact) (h text : Bytes) (c : Client Tables W)
      → (send_to over_schema x h text c).1 ≡ ok tt
      → (send_to over_schema x h text c).0.db
        ≡ (Sqlite.update_contact_row
            (schema marshal unmarshal)
            (Sqlite.save_message
              (schema marshal unmarshal)
              c.db
              (sealed x text c).1.ratchet_index
              (sealed x text c).0).0
            (record x { dh_ratchet = (sealed x text c).1 })).0
  unfolding send_to request
  send_to_db x h text c done = ground (arith, done)

  -- A request that fails ends `SendMessage` before the database is written.
  send_to_failed :
      (x : Contact) (h text : Bytes) (c : Client Tables W) {e : Error}
      → (send_to over_schema x h text c).1 ≡ err e
      → (send_to over_schema x h text c).0.db ≡ c.db
  unfolding send_to request
  send_to_failed x h text c failed = ground (arith, failed)

  -- A non-empty message to a known contact is sent with the contact's ratchet.
  pub send_plain_message_known :
      (h text : Bytes) (c : Client Tables W) {x : Contact}
      → get_contact_by_id_hash c.contacts h ≡ some x
      → (length h == 0) ≡ false
      → (length text == 0) ≡ false
      → send_plain_message over_schema h text c ≡ send_to over_schema x h text c
  unfolding send_plain_message
  send_plain_message_known h text c found hh ht = ground (arith, found, hh, ht)

  -- If the contacts in memory are those in the database and have different hashes, then after a
  -- message was sent to one of them without an error, a client that is started on the database has
  -- the contacts as they are in memory, provided that the new ratchet can be read from its bytes.
  pub send_plain_message-restarted :
      (server : TcpServer Handler) (world : W) (h text : Bytes) (c : Client Tables W) {x : Contact}
      {b : Bytes}
      → get_contact_by_id_hash c.contacts h ≡ some x
      → (length h == 0) ≡ false
      → (length text == 0) ≡ false
      → IsPersisted c
      → IsDistinct c.contacts
      → marshal (sealed x text c).1 ≡ ok b
      → unmarshal b ≡ ok (sealed x text c).1
      → (send_plain_message over_schema h text c).1 ≡ ok tt
      → restarted server world (send_plain_message over_schema h text c).0
        ≡ (send_plain_message over_schema h text c).0.contacts
  send_plain_message-restarted server world h text c {x} {b} found hh ht kept distinct m u done =
      let same = send_plain_message_known h text c found hh ht in
      let r1 = (sealed x text c).1 in
      let done' : (send_to over_schema x h text c).1 ≡ ok tt =
        ap (λ (p : Client Tables W × Outcome (Unit {0})). p.1) (sym same) ∙ done in
      let saved =
        (Sqlite.save_message (schema marshal unmarshal) c.db r1.ratchet_index
          (sealed x text c).0).0 in
      let (_, written) =
        get_contacts-update_contact_row marshal unmarshal saved x.id_hash r1 r1
          (save_message_contacts c.db r1.ratchet_index (sealed x text c).0 ∙ kept) distinct m u in
      rw same (
        restarted_persisted server world (send_to over_schema x h text c).0 (
          ap (Sqlite.get_contacts (schema marshal unmarshal)) (send_to_db x h text c done')
          ∙ written
          ∙ ap ok (sym (send_to_contacts over_schema x h text c))))

  send_plain_message-failed :
      (server : TcpServer Handler) (world : W) (h text : Bytes) (c : Client Tables W) {x : Contact}
      {e : Error}
      → get_contact_by_id_hash c.contacts h ≡ some x
      → (length h == 0) ≡ false
      → (length text == 0) ≡ false
      → IsPersisted c
      → (send_plain_message over_schema h text c).1 ≡ err e
      → (restarted server world (send_plain_message over_schema h text c).0 ≡ c.contacts)
        × ((send_plain_message over_schema h text c).0.contacts
            ≡ put_ratchet c.contacts x.id_hash (sealed x text c).1)
  send_plain_message-failed server world h text c {x} {e} found hh ht kept failed =
      let same = send_plain_message_known h text c found hh ht in
      let failed' : (send_to over_schema x h text c).1 ≡ err e =
        ap (λ (p : Client Tables W × Outcome (Unit {0})). p.1) (sym same) ∙ failed in
      let old = send_to_failed x h text c failed' in
      rw same (
        ap (λ (d : Tables). (load_contacts over_schema (new_client server d world)).0.contacts) old
            ∙ restarted_persisted server world c kept,
        send_to_contacts over_schema x h text c,
      )

  -- If the request for a message to a known contact fails, where the contact's hash has no room behind
  -- it and the contacts in memory were those of the database, then the contact's ratchet in memory is
  -- the one that `Encrypt` left, but a client that is started on the database has the contacts, and so
  -- the ratchet, of before the call.
  pub send_message_in_memory-failed :
      (memory : Memory W) (server : TcpServer Handler) (world : W) (h text : Bytes)
      (c : Client Tables W) {x : Contact} {e : Error}
      → HasNoRoom memory h
      → get_contact_by_id_hash c.contacts h ≡ some x
      → (length h == 0) ≡ false
      → (length text == 0) ≡ false
      → IsPersisted c
      → (send_message_in_memory over_schema memory h text c).1 ≡ err e
      → (restarted server world (send_message_in_memory over_schema memory h text c).0 ≡ c.contacts)
        × ((send_message_in_memory over_schema memory h text c).0.contacts
            ≡ put_ratchet c.contacts x.id_hash (sealed x text c).1)
  send_message_in_memory-failed memory server world h text c no_room found hh ht kept failed =
      let same = send_message_in_memory-copies over_schema memory h text c no_room in
      rw same (
        send_plain_message-failed server world h text c found hh ht kept
          (ap (λ (p : Client Tables W × Outcome (Unit {0})). p.1) (sym same) ∙ failed))
