-- ===== src/Client/Messages.antt =====
-- client/internal/client/client.go: messages that are sent, asked for and received.
use secure_messager_erlang.Prelude.{
  ℕ, ◌+◌, Option, none, some, List, [], ◌∷◌, ◌++◌, Bytes, length, ltb, ◌==◌, if◌then◌else◌,
  bytes_equal, pos,
}
use secure_messager_erlang.Outcome.{
  Error, Outcome, ok, err, crash, contact_id_empty, plain_message_empty, contact_not_found,
  invalid_message_format, failed_to_parse_data, failed_to_decrypt, already_processed,
}
use secure_messager_erlang.Contact.{Contact, get_contact_by_id_hash, put_ratchet}
use secure_messager_erlang.Ratchet.DhRatchet.{receiving}
use secure_messager_erlang.Message.{Message, new_plain_message}
use secure_messager_erlang.Message.Cipher
use secure_messager_erlang.Message.Wire
use secure_messager_erlang.Sqlite
use secure_messager_erlang.Tcp.Packet.{Packet, send_message, req_messages, recv_message}
use secure_messager_erlang.Tcp.Server.{register_handler}
use secure_messager_erlang.Client.{
  Client, Environment, incoming_messages, Action, ◌>>◌, store, ignoring, request, draw,
  ReceiveMessagePayload, payload,
}
use secure_messager_erlang.Client.Contacts.{add_contact_by_hash}

-- if payloadData == nil { payloadData = &ReceiveMessagePayload{} }
abbrev pub or_empty : Option ReceiveMessagePayload → ReceiveMessagePayload
or_empty none = record { contact_id_hash = none; starting_timestamp = pos 0 }
or_empty (some p) = p

-- if strings.Contains(err.Error(), "message index already processed")
unfoldable pub tolerate : Error → Outcome (Unit {0})
tolerate already_processed = ok tt
tolerate e = err e

module _ {D W : Type 0} (env : Environment D W) where
  -- The message is saved and the contact's row is written.
  unfoldable pub save : Message → Contact → Action D W (Unit {0})
  save m x = do
    store (λ d. Sqlite.save_message env.storage d x.dh_ratchet.ratchet_index m)
    store (λ d. Sqlite.update_contact_row env.storage d x)

  -- From the decryption on, with the contact that the search found. The message is given back as
  -- `Decrypt` leaves it.
  unfoldable pub decrypt_for :
      Message → Contact → Client D W → Client D W × Message × Outcome (Unit {0})
  decrypt_for m x c =
      let (m1, r1, done) = Cipher.decrypt env.crypto m x.dh_ratchet in
      let c1 = record c { contacts = put_ratchet c.contacts x.id_hash r1 } in
      elim done [
        | crash ↦ (c1, m1, crash)
        | err e ↦ (c1, m1, tolerate e)
        | ok _ ↦ let (c2, saved) = save m1 (record x { dh_ratchet = r1 }) c1 in (c2, m1, saved)
      ]

  -- Whom a message is from, or to if the user sent it.
  abbrev pub other_side : Message → Bytes → Bytes
  other_side m id_hash =
      if bytes_equal m.sender_id_hash id_hash then m.receiver_id_hash else m.sender_id_hash

  unfoldable pub handle_incoming_message :
      Message → Client D W → Client D W × Message × Outcome (Unit {0})
  handle_incoming_message m c =
      let sender_id_hash = other_side m c.id_hash in
      elim (get_contact_by_id_hash c.contacts sender_id_hash) [
        | some x ↦ decrypt_for m x c
        | none ↦
            let (c1, added) = add_contact_by_hash env sender_id_hash receiving c in
            elim added [
              | crash ↦ (c1, m, crash)
              | err e ↦ (c1, m, err e)
              | ok _ ↦ elim (get_contact_by_id_hash c1.contacts sender_id_hash) [
                | none ↦ (c1, m, crash)
                | some x ↦ decrypt_for m x c1
              ]
            ]
      ]

  -- The loop over the messages: the indices that fail are gathered. The messages are given back as
  -- the calls leave them.
  unfoldable pub handle_all :
      ℕ
      → List Message
      → List Message
      → List ℕ
      → Client D W
      → Client D W × Outcome (List Message × List ℕ)
  handle_all i [] handled failed_idxs c = (c, ok (handled, failed_idxs))
  handle_all i (m ∷ ms) handled failed_idxs c =
      let (c1, m1, done) = handle_incoming_message m c in
      elim done [
        | crash ↦ (c1, crash)
        | err _ ↦ handle_all (i + 1) ms (handled ++ (m1 ∷ [])) (failed_idxs ++ (i ∷ [])) c1
        | ok _ ↦ handle_all (i + 1) ms (handled ++ (m1 ∷ [])) failed_idxs c1
      ]

  -- A list of messages and an error, or neither.
  abbrev pub Received : Type 0
  Received = List Message × Option Error

  -- What `RequestMessages` does with the data of the answer.
  unfoldable pub receive_messages : Bytes → Action D W Received
  receive_messages bytes c =
      if length bytes == 0
      then (c, ok ([], none))
      else if ltb (length bytes) 16
      then (c, ok ([], some invalid_message_format))
      else elim (Wire.parse_messages_data c.id_hash bytes) [
        | crash ↦ (c, crash)
        | err e ↦ (c, err e)
        | ok (messages, some e) ↦ (c, ok (messages, some (failed_to_parse_data e)))
        | ok (messages, none) ↦
            let (c1, handled) = handle_all 0 messages [] [] c in
            elim handled [
              | crash ↦ (c1, crash)
              | err e ↦ (c1, err e)
              | ok (ms, failed_idxs) ↦ (
                c1,
                ok (
                  ms,
                  if ltb 0 (length failed_idxs) then some (failed_to_decrypt failed_idxs) else none,
                ),
              )
            ]
      ]

  -- The argument is nil or a pointer.
  unfoldable pub request_messages : Option ReceiveMessagePayload → Action D W Received
  request_messages payload_data c =
      let (c1, answered) = request env req_messages (payload (or_empty payload_data)) c in
      elim answered [
        | crash ↦ (c1, crash)
        | err e ↦ (c1, ok ([], some e))
        | ok response ↦
            let (w, time) = env.network.now c1.world in
            receive_messages response.bytes (record c1 { world = w; last_polled_timestamp = time })
      ]

  -- The handler of `RecvMessage` packets. Errors are printed.
  unfoldable pub incoming : Packet → Action D W (Unit {0})
  incoming packet c = elim (Wire.parse_message_data c.id_hash packet.bytes) [
    | crash ↦ (c, crash)
    | err _ ↦ (c, ok tt)
    | ok m ↦
        let (c1, m1, done) = handle_incoming_message m c in
        elim done [ crash ↦ (c1, crash) | err _ ↦ (c1, ok tt) | ok _ ↦ (c1, ok tt) ]
  ]

  unfoldable pub listen_incoming_messages : Client D W → Client D W
  listen_incoming_messages c = record c {
    tcp_server = register_handler c.tcp_server recv_message incoming_messages;
  }

  -- The end of `SendMessage`. The errors of the two writes to the database are ignored.
  abbrev pub send_payload : Bytes → Message → Contact → Action D W (Unit {0})
  send_payload bytes m x = do
    request env send_message bytes
    ignoring (store (λ d. Sqlite.save_message env.storage d x.dh_ratchet.ratchet_index m))
    ignoring (store (λ d. Sqlite.update_contact_row env.storage d x))

  -- `SendMessage` with the contact found, where the `append` behind the hash copies it because its
  -- slice has no room: `Client.Sharing.send_in_memory` is `SendMessage` for any slice. The error of
  -- `Encrypt` is ignored; the ratchet is the contact's, whether or not the server answers.
  unfoldable pub send_to : Contact → Bytes → Bytes → Action D W (Unit {0})
  send_to x contact_id_hash plain_message c =
      let (w, draws) = draw env x.dh_ratchet.state c.world in
      let (m, r, encrypted) =
        Cipher.encrypt env.crypto (new_plain_message c.id_hash x.id_hash plain_message) x.dh_ratchet
          draws in
      let c1 = record c { world = w; contacts = put_ratchet c.contacts x.id_hash r } in
      let rest = send_payload (contact_id_hash ++ Wire.payload m) m (record x { dh_ratchet = r }) in
      elim encrypted [ crash ↦ (c1, crash) | err _ ↦ rest c1 | ok _ ↦ rest c1 ]

  -- `SendMessage` for a hash without room behind its slice.
  unfoldable pub send_plain_message : Bytes → Bytes → Action D W (Unit {0})
  send_plain_message contact_id_hash plain_message c =
      if length contact_id_hash == 0
      then (c, err contact_id_empty)
      else if length plain_message == 0
      then (c, err plain_message_empty)
      else elim (get_contact_by_id_hash c.contacts contact_id_hash) [
        | none ↦ (c, err contact_not_found)
        | some x ↦ send_to x contact_id_hash plain_message c
      ]
