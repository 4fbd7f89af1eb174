-- ===== src/Client/Contacts.antt =====
-- client/internal/client/client.go: the list of contacts, and the history of one.
use secure_messager_erlang.Prelude.{
  none, some, List, [], ◌∷◌, ◌++◌, Bytes, length, ◌==◌, if◌then◌else◌,
}
use secure_messager_erlang.Outcome.{ok, err, contact_id_empty, contact_not_found}
use secure_messager_erlang.Contact.{Contact, new_contact, get_contact_by_id_hash}
use secure_messager_erlang.Ratchet.DhRatchet.{RatchetState, sending}
use secure_messager_erlang.Message.{Message}
use secure_messager_erlang.Sqlite
use secure_messager_erlang.Tcp.Packet.{req_pub_key}
use secure_messager_erlang.Client.{Client, Environment, Action, ◌>>=◌, ◌>>◌, store, read, request}

module _ {D W : Type 0} (env : Environment D W) where
  -- c.contacts = append(c.contacts, contact)
  abbrev pub append_contact : Contact → Action D W (Unit {0})
  append_contact x c = (record c { contacts = c.contacts ++ (x ∷ []) }, ok tt)

  -- The part behind the search: the contact's key is asked for, and the contact is kept.
  unfoldable pub fetch_contact : Bytes → RatchetState → Action D W (Unit {0})
  fetch_contact contact_id_hash init_state = do
    response ← request env req_pub_key contact_id_hash
    contact ← λ (c : Client D W).
        (c, new_contact env.crypto contact_id_hash c.keypair response.bytes init_state)
    append_contact contact
    store (λ d. Sqlite.add_contact env.storage d contact_id_hash contact.dh_ratchet)

  unfoldable pub add_contact_by_hash : Bytes → RatchetState → Action D W (Unit {0})
  add_contact_by_hash contact_id_hash init_state c =
      if length contact_id_hash == 0
      then (c, err contact_id_empty)
      else elim (get_contact_by_id_hash c.contacts contact_id_hash) [
        | some x ↦ (c, ok tt)
        | none ↦ fetch_contact contact_id_hash init_state c
      ]

  unfoldable pub add_contact : Bytes → Action D W (Unit {0})
  add_contact contact_id c =
      if length contact_id == 0
      then (c, err contact_id_empty)
      else add_contact_by_hash (env.crypto.md5 contact_id) sending c

  unfoldable pub load_contacts : Action D W (Unit {0})
  load_contacts = do
    contacts ← read (Sqlite.get_contacts env.storage)
    λ (c : Client D W). (record c { contacts = c.contacts ++ contacts }, ok tt)

  unfoldable pub get_contact_chat_history : Bytes → Action D W (List Message)
  get_contact_chat_history contact_id_hash c =
      if length contact_id_hash == 0
      then (c, err contact_id_empty)
      else elim (get_contact_by_id_hash c.contacts contact_id_hash) [
        | none ↦ (c, err contact_not_found)
        | some x ↦ read (λ d. Sqlite.get_messages env.storage d contact_id_hash) c
      ]
