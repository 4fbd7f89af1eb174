-- ===== src/Client/Reading.antt =====
-- client/internal/client/client.go over the tables of the schema: what the handler of incoming
-- messages leaves in the chat history.
use secure_messager_erlang.Prelude.{
  ◌≡◌, refl, ap, ◌∙◌, arith, false, List, [], ◌∷◌, ◌++◌, some, Bytes, length, bytes_equal,
  bytes_equal_refl,
}
use secure_messager_erlang.Outcome.{Outcome, ok}
use secure_messager_erlang.Crypt.Library.{Crypto}
use secure_messager_erlang.Contact.{Contact, get_contact_by_id_hash, put_ratchet}
use secure_messager_erlang.Contact.Search.{get_contact_id}
use secure_messager_erlang.Ratchet.DhRatchet.{DhRatchet}
use secure_messager_erlang.Message.{Message}
use secure_messager_erlang.Message.Cipher
use secure_messager_erlang.Message.Cipher.{Draws}
use secure_messager_erlang.Message.Wire
use secure_messager_erlang.Message.Wire.Format.{delivered}
use secure_messager_erlang.Sqlite
use secure_messager_erlang.Sqlite.{Value, blob, scan_rows, get_messages}
use secure_messager_erlang.Sqlite.Schema.{Tables, schema, execute}
use secure_messager_erlang.Tcp.Packet.{Packet}
use secure_messager_erlang.Tcp.Server.{Network}
use secure_messager_erlang.Client.{Client, Environment}
use secure_messager_erlang.Client.Contacts.{get_contact_chat_history}
use secure_messager_erlang.Client.Messages.{
  incoming, handle_incoming_message, decrypt_for, other_side, save,
}
use secure_messager_erlang.Client.History.{handle_incoming_message_known}
use secure_messager_erlang.Client.Persistence.{over_schema}
use secure_messager_erlang.Sqlite.Schema.Messages.{
  stored_message, get_messages-save_message, update_contact_row_messages,
}

module _ {W : Type 0} (crypto : Crypto) (network : Network W) (marshal : DhRatchet → Outcome Bytes)
    (unmarshal : Bytes → Outcome DhRatchet) where
  -- The engine over the tables.
  abbrev pub env : Environment Tables W
  env = over_schema crypto network marshal unmarshal

  abbrev db_with : Tables → Message → Contact → Tables
  db_with t m x =
      (Sqlite.update_contact_row (schema marshal unmarshal)
        (Sqlite.save_message (schema marshal unmarshal) t x.dh_ratchet.ratchet_index m).0 x).0

  save_stored :
      (m : Message) (x : Contact) (c : Client Tables W) {bytes : Bytes}
      → marshal x.dh_ratchet ≡ ok bytes
      → save env m x c ≡ (record c { db = db_with c.db m x }, ok tt)
  unfolding save Sqlite.save_message Sqlite.update_contact_row execute
  save_stored m x c written = ground (arith, written)

  decrypt_for_opened :
      (m : Message) (y : Contact) (b : Client Tables W) {bytes : Bytes}
      → (Cipher.decrypt crypto m y.dh_ratchet).2 ≡ ok tt
      → marshal (Cipher.decrypt crypto m y.dh_ratchet).1 ≡ ok bytes
      → ((decrypt_for env m y b).2 ≡ ok tt)
        × ((decrypt_for env m y b).0.db
            ≡ db_with b.db
                (Cipher.decrypt crypto m y.dh_ratchet).0
                (record y { dh_ratchet = (Cipher.decrypt crypto m y.dh_ratchet).1 }))
  unfolding decrypt_for
  decrypt_for_opened m y b {bytes} opened written =
      let (m1, r1, _) = Cipher.decrypt crypto m y.dh_ratchet in
      let c1 = record b { contacts = put_ratchet b.contacts y.id_hash r1 } in
      ground
        (arith, opened, save_stored m1 (record y { dh_ratchet = r1 }) c1 {bytes = bytes} written)

  handle_known :
      (m : Message) (b : Client Tables W) {y : Contact}
      → get_contact_by_id_hash b.contacts (other_side env m b.id_hash) ≡ some y
      → handle_incoming_message env m b ≡ decrypt_for env m y b
  unfolding handle_incoming_message
  handle_known m b found = ground (arith, found)

  -- What the handler leaves when the message can be opened.
  incoming_opened :
      (packet : Packet) (b : Client Tables W) {m : Message} {y : Contact} {bytes : Bytes}
      → Wire.parse_message_data b.id_hash packet.bytes ≡ ok m
      → get_contact_by_id_hash b.contacts (other_side env m b.id_hash) ≡ some y
      → (Cipher.decrypt crypto m y.dh_ratchet).2 ≡ ok tt
      → marshal (Cipher.decrypt crypto m y.dh_ratchet).1 ≡ ok bytes
      → incoming env packet b ≡ ((handle_incoming_message env m b).0, ok tt)
  unfolding incoming
  incoming_opened packet b {m} {y} {bytes} parsed found opened written =
      let (done, _) = decrypt_for_opened m y b {bytes = bytes} opened written in
      ground (arith, parsed, handle_known m b {y = y} found, done)

  decrypt_sender :
      (m : Message) (r : DhRatchet)
      → (Cipher.decrypt crypto m r).0.sender_id_hash ≡ m.sender_id_hash
  unfolding Cipher.decrypt Cipher.decrypt_current Cipher.decrypt_previous
  decrypt_sender m r = ground arith

  other_side_sender :
      (sender : Bytes) (m : Message) (b : Client Tables W)
      → bytes_equal sender b.id_hash ≡ false
      → other_side env (delivered b.id_hash sender m) b.id_hash ≡ sender
  other_side_sender sender m b apart = ground (arith, apart)

  history_of_known :
      (h : Bytes) (b : Client Tables W) {x : Contact}
      → length h ≡ 16
      → get_contact_by_id_hash b.contacts h ≡ some x
      → (get_contact_chat_history env h b).1 ≡ get_messages (schema marshal unmarshal) b.db h
  unfolding get_contact_chat_history
  history_of_known h b len found = ground (arith, len, found)

  -- The history with a sender, after a message of the sender that can be opened.
  pub incoming-history :
      (packet : Packet) (b : Client Tables W) (m : Message) (y : Contact) (sender : Bytes)
      {bytes : Bytes}
      → length sender ≡ 16
      → bytes_equal sender b.id_hash ≡ false
      → Wire.parse_message_data b.id_hash packet.bytes ≡ ok (delivered b.id_hash sender m)
      → get_contact_by_id_hash b.contacts sender ≡ some y
      → (Cipher.decrypt crypto (delivered b.id_hash sender m) y.dh_ratchet).2 ≡ ok tt
      → marshal (Cipher.decrypt crypto (delivered b.id_hash sender m) y.dh_ratchet).1 ≡ ok bytes
      → ((incoming env packet b).1 ≡ ok tt)
        × ((old : List Message) × ((get_contact_chat_history env sender (incoming env packet b).0).1
              ≡ ok (
                  old
                  ++ (stored_message sender
                        (Cipher.decrypt crypto
                          (delivered b.id_hash sender m)
                          y.dh_ratchet).0.plain_message
                      ∷ []))))
  incoming-history packet b m y sender {bytes} len apart parsed found opened written =
      let w = delivered b.id_hash sender m in
      let (m1, r1, _) = Cipher.decrypt crypto w y.dh_ratchet in
      let found' : get_contact_by_id_hash b.contacts (other_side env w b.id_hash) ≡ some y =
        rw (other_side_sender sender m b apart) found in
      let done =
        incoming_opened packet b {m = w} {y = y} {bytes = bytes} parsed found' opened written in
      let b' = (handle_incoming_message env w b).0 in
      let stored : b'.db ≡ db_with b.db m1 (record y { dh_ratchet = r1 }) =
        ap (λ (p : Client Tables W × Message × Outcome (Unit {0})). p.0.db)
          (handle_known w b {y = y} found')
        ∙ (decrypt_for_opened w y b {bytes = bytes} opened written).1 in
      let saved = Sqlite.save_message (schema marshal unmarshal) b.db r1.ratchet_index m1 in
      let (old, read) =
        get_messages-save_message marshal unmarshal b.db r1.ratchet_index m1 sender
          (decrypt_sender w y.dh_ratchet) in
      let known : get_contact_by_id_hash b'.contacts sender ≡ some (record y { dh_ratchet = r1 }) =
        ground (
          arith,
          handle_incoming_message_known env w b sender {x = y} found',
          get_contact_id b.contacts sender {x = y} found,
          bytes_equal_refl sender,
        ) in
      rw done (
        refl,
        (
          old,
          history_of_known sender b' len known
              ∙ ap (λ (t : Tables). get_messages (schema marshal unmarshal) t sender) stored
              ∙ update_contact_row_messages marshal unmarshal saved.0 (record y { dh_ratchet = r1 })
                  sender
              ∙ read,
        ),
      )
