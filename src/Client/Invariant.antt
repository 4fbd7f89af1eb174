-- ===== src/Client/Invariant.antt =====
-- client/internal/client/client.go: what handling one message and adding one contact do to the
-- contacts and the credentials of a client.
use secure_messager_erlang.Prelude.{
  ◌≡◌, refl, ◌∙◌, ap, inl, inr, [], ◌∷◌, ◌++◌, arith, none, Bytes, Option-cases,
}
use secure_messager_erlang.Outcome.{Outcome-cases, ok}
use secure_messager_erlang.Contact.{Contact, new_contact, get_contact_by_id_hash, put_ratchet}
use secure_messager_erlang.Contact.Evolution.{Evolves, stays, writes, appends, Evolves-trans}
use secure_messager_erlang.Sqlite
use secure_messager_erlang.Tcp.Server.{send_receive, receive}
use secure_messager_erlang.Ratchet.DhRatchet.{RatchetState, receiving}
use secure_messager_erlang.Crypt.Library.{Crypto}
use secure_messager_erlang.Crypt.{KeyPair}
use secure_messager_erlang.Message.{Message}
use secure_messager_erlang.Message.Cipher
use secure_messager_erlang.Tcp.Packet.{req_pub_key, MessageType}
use secure_messager_erlang.Client.{Client, Environment, request}
use secure_messager_erlang.Client.Contacts.{fetch_contact, add_contact_by_hash}
use secure_messager_erlang.Client.Messages.{save, decrypt_for, other_side, handle_incoming_message}

new_contact_id :
    (c : Crypto) (h : Bytes) (k : KeyPair) (p : Bytes) (st : RatchetState) {x : Contact}
    → new_contact c h k p st ≡ ok x
    → x.id_hash ≡ h
unfolding new_contact
new_contact_id c h k p st e = ground arith

-- A client goes on: its contacts evolve, and it keeps its name and its credentials.
pub record Continues {D W : Type 0} (c c' : Client D W) : Type 0 where
  pub contacts : Evolves c.contacts c'.contacts
  pub id_hash : c'.id_hash ≡ c.id_hash
  pub auth_id : c'.tcp_server.auth_id ≡ c.tcp_server.auth_id
  pub auth_token : c'.tcp_server.auth_token ≡ c.tcp_server.auth_token

pub Continues-refl : {D W : Type 0} (c : Client D W) → Continues c c
Continues-refl c = record { contacts = stays; id_hash = refl; auth_id = refl; auth_token = refl }

pub Continues-trans :
    {D W : Type 0} {a b c : Client D W} → Continues a b → Continues b c → Continues a c
Continues-trans s t = record {
  contacts = Evolves-trans s.contacts t.contacts;
  id_hash = t.id_hash ∙ s.id_hash;
  auth_id = t.auth_id ∙ s.auth_id;
  auth_token = t.auth_token ∙ s.auth_token;
}

module _ {D W : Type 0} (env : Environment D W) where
  pub request-Continues :
      (t : MessageType) (b : Bytes) (c : Client D W) → Continues c (request env t b c).0
  unfolding request send_receive receive
  request-Continues t b c = record {
    contacts = stays;
    id_hash = refl;
    auth_id = ground arith;
    auth_token = ground arith;
  }

  -- The last step of adding a contact.
  kept_contact :
      (x : Contact) (c : Client D W)
      → get_contact_by_id_hash c.contacts x.id_hash ≡ none
      → (d : D) → Continues c (record c { contacts = c.contacts ++ (x ∷ []); db = d })
  kept_contact x c free d = record {
    contacts = appends x free stays;
    id_hash = refl;
    auth_id = refl;
    auth_token = refl;
  }

  -- The request leaves the contacts, so the hash is still new.
  unasked :
      (h : Bytes) (x : Contact) (c : Client D W)
      → x.id_hash ≡ h
      → get_contact_by_id_hash c.contacts h ≡ none
      → get_contact_by_id_hash (request env req_pub_key h c).0.contacts x.id_hash ≡ none
  unfolding request
  unasked h x c id free = ap (get_contact_by_id_hash c.contacts) id ∙ free

  fetch_contact-Continues :
      (h : Bytes) (st : RatchetState) (c : Client D W)
      → get_contact_by_id_hash c.contacts h ≡ none
      → Continues c (fetch_contact env h st c).0
  unfolding fetch_contact
  fetch_contact-Continues h st c free =
      let asked = request env req_pub_key h c in
      let on = request-Continues req_pub_key h c in
      elim (Outcome-cases asked.1) [
        | inl (p, e) ↦ elim (Outcome-cases (new_contact env.crypto h asked.0.keypair p.bytes st)) [
          | inl (x, made) ↦
              let id = new_contact_id env.crypto h asked.0.keypair p.bytes st made in
              ground (
                arith,
                e,
                made,
                Continues-trans on (
                    kept_contact x asked.0 (unasked h x c id free)
                      (Sqlite.add_contact env.storage asked.0.db h x.dh_ratchet).0),
              )
          | inr (inl (x, made)) ↦ ground (arith, e, made, on)
          | inr (inr made) ↦ ground (arith, e, made, on)
        ]
        | inr (inl (x, e)) ↦ ground (arith, e, on)
        | inr (inr e) ↦ ground (arith, e, on)
      ]

  pub add_contact_by_hash-Continues :
      (h : Bytes) (st : RatchetState) (c : Client D W)
      → Continues c (add_contact_by_hash env h st c).0
  unfolding add_contact_by_hash
  add_contact_by_hash-Continues h st c =
      ground (arith, Continues-refl c, fetch_contact-Continues h st c)

  pub decrypt_for_contacts :
      (m : Message) (x : Contact) (c : Client D W)
      → (decrypt_for env m x c).0.contacts
        ≡ put_ratchet c.contacts x.id_hash (Cipher.decrypt env.crypto m x.dh_ratchet).1
  unfolding decrypt_for save
  decrypt_for_contacts m x c = ground arith

  decrypt_for-Continues :
      (m : Message) (x : Contact) (c : Client D W) → Continues c (decrypt_for env m x c).0
  unfolding decrypt_for save
  decrypt_for-Continues m x c = record {
    contacts =
        rw (decrypt_for_contacts m x c)
          (writes x.id_hash (Cipher.decrypt env.crypto m x.dh_ratchet).1 stays);
    id_hash = ground arith;
    auth_id = ground arith;
    auth_token = ground arith;
  }

  pub handle_incoming_message-Continues :
      (m : Message) (c : Client D W) → Continues c (handle_incoming_message env m c).0
  unfolding handle_incoming_message
  handle_incoming_message-Continues m c =
      elim (Option-cases (get_contact_by_id_hash c.contacts (other_side env m c.id_hash))) [
        | inr (x, e) ↦ ground (arith, e, decrypt_for-Continues m x c)
        | inl e ↦
            let c1 = add_contact_by_hash env (other_side env m c.id_hash) receiving c in
            let added = add_contact_by_hash-Continues (other_side env m c.id_hash) receiving c in
            elim (Option-cases
              (get_contact_by_id_hash c1.0.contacts (other_side env m c.id_hash))) [
                | inr (x, e') ↦
                    ground
                      (arith, e, e', added, Continues-trans added (decrypt_for-Continues m x c1.0))
                | inl e' ↦ ground (arith, e, e', added)
              ]
      ]
