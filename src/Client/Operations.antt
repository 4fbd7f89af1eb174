-- ===== src/Client/Operations.antt =====
-- client/internal/client/client.go: any sequence of the client's operations.
use secure_messager_erlang.Prelude.{◌≡◌, List, [], ◌∷◌, ◌++◌, Option, none, some, Bytes, All}
use secure_messager_erlang.Contact.Search.{IsDistinct, id_hashes}
use secure_messager_erlang.Contact.Evolution.{
  Evolves, stays, Evolves-trans, Evolves-IsDistinct, Evolves-id_hashes,
}
use secure_messager_erlang.Tcp.Packet.{Packet}
use secure_messager_erlang.Client.{Client, Environment, ReceiveMessagePayload}
use secure_messager_erlang.Client.Contacts.{add_contact}
use secure_messager_erlang.Client.Messages.{request_messages, incoming}
use secure_messager_erlang.Client.Account.{login, signup}
use secure_messager_erlang.Client.Sharing.{
  Memory, HasNoRoom, send_message_in_memory, send_message_in_memory-copies,
}
use secure_messager_erlang.Client.History.{
  add_contact-Continues, login-Evolves, signup-Evolves, request_messages-Continues,
  send_plain_message-Continues, incoming-Continues,
}

-- What the user and the server can make a client do once its contacts are loaded.
pub data Operation : Type 0 where
  adds : Bytes → Operation
  logs_in : Bytes → Bytes → Operation
  signs_up : Bytes → Bytes → Operation
  requests : Option ReceiveMessagePayload → Operation
  sends : Bytes → Bytes → Operation
  receives : Packet → Operation

-- The slices that the operation calls `append` on: the hash of `SendMessage`, and `ContactIDHash`.
abbrev pub appended_to : Operation → List Bytes
appended_to (sends contact_id_hash text) = contact_id_hash ∷ []
appended_to (requests (some p)) = elim p.contact_id_hash [ none ↦ [] | some h ↦ h ∷ [] ]
appended_to _ = []

module _ {D W : Type 0} (env : Environment D W) (memory : Memory W) where
  unfoldable pub perform : Operation → Client D W → Client D W
  perform (adds contact_id) c = (add_contact env contact_id c).0
  perform (logs_in user_id password) c = (login env user_id password c).0
  perform (signs_up user_id password) c = (signup env user_id password c).0
  perform (requests wanted) c = (request_messages env wanted c).0
  perform (sends contact_id_hash text) c =
      (send_message_in_memory env memory contact_id_hash text c).0
  perform (receives packet) c = (incoming env packet c).0

  unfoldable pub perform_all : List Operation → Client D W → Client D W
  perform_all [] c = c
  perform_all (o ∷ os) c = perform_all os (perform o c)

  -- The slices behind which the operation appends have no room.
  abbrev pub IsCopied : Operation → Type 0
  IsCopied o = All (HasNoRoom memory) (appended_to o)

  perform-Evolves :
      (o : Operation) (c : Client D W) → IsCopied o → Evolves c.contacts (perform o c).contacts
  unfolding perform
  perform-Evolves (adds contact_id) c copied = (add_contact-Continues env contact_id c).contacts
  perform-Evolves (logs_in user_id password) c copied = login-Evolves env user_id password c
  perform-Evolves (signs_up user_id password) c copied = signup-Evolves env user_id password c
  perform-Evolves (requests wanted) c copied = (request_messages-Continues env wanted c).contacts
  perform-Evolves (sends h text) c (no_room, _) =
      rw (perform, send_message_in_memory-copies env memory h text c no_room)
        (send_plain_message-Continues env h text c).contacts
  perform-Evolves (receives packet) c copied = (incoming-Continues env packet c).contacts

  perform_all-Evolves :
      (os : List Operation) (c : Client D W)
      → All IsCopied os
      → Evolves c.contacts (perform_all os c).contacts
  unfolding perform_all
  perform_all-Evolves [] c copied = stays
  perform_all-Evolves (o ∷ os) c (here, rest) =
      Evolves-trans (perform-Evolves o c here) (perform_all-Evolves os (perform o c) rest)

  -- Any sequence of adding contacts, logging in, signing up, asking for messages, sending and receiving
  -- keeps all contacts, in their order, and if no two had the same hash then none have; provided that
  -- no slice that something is appended to (the hash that a message is sent to, and that of a request
  -- for one contact's messages) has room behind it.
  pub perform_all-IsDistinct :
      (os : List Operation) (c : Client D W)
      → All IsCopied os
      → IsDistinct c.contacts
      → IsDistinct (perform_all os c).contacts
        × ((more : List Bytes) × (id_hashes (perform_all os c).contacts
              ≡ id_hashes c.contacts ++ more))
  perform_all-IsDistinct os c copied distinct =
      let a = perform_all-Evolves os c copied in
      (Evolves-IsDistinct a distinct, Evolves-id_hashes a)
