-- ===== src/Client/History.antt =====
-- client/internal/client/client.go: what each of the client's operations does to the contacts.
use secure_messager_erlang.Prelude.{
  ℕ, ◌+◌, ◌≡◌, ap, ◌∙◌, inl, inr, List, [], ◌∷◌, ◌++◌, arith, Option, none, some, Bytes,
  if◌then◌else◌, Option-cases, bytes_equal,
}
use secure_messager_erlang.Outcome.{Outcome-cases}
use secure_messager_erlang.Contact.{Contact, get_contact_by_id_hash, put_ratchet}
use secure_messager_erlang.Contact.Search.{get_contact_id, get_contact-put_ratchet}
use secure_messager_erlang.Ratchet.DhRatchet.{sending}
use secure_messager_erlang.Message.{Message, new_plain_message}
use secure_messager_erlang.Message.Cipher
use secure_messager_erlang.Message.Wire
use secure_messager_erlang.Tcp.Packet.{req_messages, req_login, req_signup, MessageType, Packet}
use secure_messager_erlang.Client.{
  Client, Environment, request, draw, random, ReceiveMessagePayload, payload,
}
use secure_messager_erlang.Client.Contacts.{add_contact}
use secure_messager_erlang.Client.Messages.{
  or_empty, other_side, handle_incoming_message, handle_all, receive_messages, request_messages,
  incoming, send_to, send_plain_message,
}
use secure_messager_erlang.Client.Account.{authenticate, login, signup}
use secure_messager_erlang.Client.Invariant.{
  Continues, Continues-refl, Continues-trans, add_contact_by_hash-Continues,
  handle_incoming_message-Continues, request-Continues, decrypt_for_contacts,
}
use secure_messager_erlang.Contact.Evolution.{Evolves, Evolves_refl, stays, writes, Evolves-trans}
use secure_messager_erlang.Prelude.{ℤ, refl}
use secure_messager_erlang.Tcp.Server.{send_receive, receive}

found_id :
    (xs : List Contact) (k : Bytes) {x : Contact}
    → get_contact_by_id_hash xs k ≡ some x
    → (x.id_hash ≡ k) × (get_contact_by_id_hash xs x.id_hash ≡ some x)
found_id xs k {x} h =
    let same = get_contact_id xs k h in
    (same, ap (λ (i : Bytes). get_contact_by_id_hash xs i) same ∙ h)

module _ {D W : Type 0} (env : Environment D W) where
  handle_all-Continues :
      (i : ℕ) (ms handled : List Message) (failed : List ℕ) (c : Client D W)
      → Continues c (handle_all env i ms handled failed c).0
  unfolding handle_all
  handle_all-Continues i [] handled failed c = Continues-refl c
  handle_all-Continues i (m ∷ ms) handled failed c =
      let (c1, m1, done) = handle_incoming_message env m c in
      let kept = handle_incoming_message-Continues env m c in
      ground (
        arith,
        kept,
        Continues-trans kept
            (handle_all-Continues (i + 1) ms (handled ++ (m1 ∷ [])) (failed ++ (i ∷ [])) c1),
        Continues-trans kept (handle_all-Continues (i + 1) ms (handled ++ (m1 ∷ [])) failed c1),
      )

  receive_messages-Continues :
      (bytes : Bytes) (c : Client D W) → Continues c (receive_messages env bytes c).0
  unfolding receive_messages
  receive_messages-Continues bytes c =
      elim (Outcome-cases (Wire.parse_messages_data c.id_hash bytes)) [
        | inl ((ms, none), e) ↦
            ground (arith, e, Continues-refl c, handle_all-Continues 0 ms [] [] c)
        | inl ((ms, some x), e) ↦ ground (arith, e, Continues-refl c)
        | inr (inl (x, e)) ↦ ground (arith, e, Continues-refl c)
        | inr (inr e) ↦ ground (arith, e, Continues-refl c)
      ]

  -- The clock is read and its time is kept.
  polled-Continues :
      (w : W) (time : ℤ) (c : Client D W)
      → Continues c (record c { world = w; last_polled_timestamp = time })
  polled-Continues w time c = record {
    contacts = stays;
    id_hash = refl;
    auth_id = refl;
    auth_token = refl;
  }

  pub request_messages-Continues :
      (wanted : Option ReceiveMessagePayload) (c : Client D W)
      → Continues c (request_messages env wanted c).0
  unfolding request_messages
  request_messages-Continues wanted c =
      let asked = request env req_messages (payload (or_empty wanted)) c in
      let on = request-Continues env req_messages (payload (or_empty wanted)) c in
      elim (Outcome-cases asked.1) [
        | inl (p, e) ↦
            let (w, time) = env.network.now asked.0.world in
            let later : Client D W = record asked.0 { world = w; last_polled_timestamp = time } in
            ground (
              arith,
              e,
              Continues-trans on (
                  Continues-trans (polled-Continues w time asked.0)
                    (receive_messages-Continues p.bytes later)),
            )
        | inr (inl (x, e)) ↦ ground (arith, e, on)
        | inr (inr e) ↦ ground (arith, e, on)
      ]

  authenticate_keeps :
      (t : MessageType) (user_id password : Bytes) (f : Client D W → Bytes) (c : Client D W)
      → (authenticate env t user_id password f c).0.contacts ≡ c.contacts
  unfolding authenticate request random
  authenticate_keeps t user_id password f c = ground arith

  pub send_to_contacts :
      (x : Contact) (h text : Bytes) (c : Client D W)
      → (send_to env x h text c).0.contacts
        ≡ put_ratchet c.contacts x.id_hash
            (Cipher.encrypt env.crypto
              (new_plain_message c.id_hash x.id_hash text)
              x.dh_ratchet
              (draw env x.dh_ratchet.state c.world).1).1
  unfolding send_to request
  send_to_contacts x h text c = ground arith

  send_to-Continues :
      (x : Contact) (h text : Bytes) (c : Client D W) → Continues c (send_to env x h text c).0
  unfolding send_to request send_receive receive
  send_to-Continues x h text c = record {
    contacts = rw (send_to_contacts x h text c) (writes x.id_hash _ stays);
    id_hash = ground arith;
    auth_id = ground arith;
    auth_token = ground arith;
  }

  pub add_contact-Continues :
      (contact_id : Bytes) (c : Client D W) → Continues c (add_contact env contact_id c).0
  unfolding add_contact
  add_contact-Continues contact_id c = ground (
    arith,
    Continues-refl c,
    add_contact_by_hash-Continues env (env.crypto.md5 contact_id) sending c,
  )

  pub send_plain_message-Continues :
      (h text : Bytes) (c : Client D W) → Continues c (send_plain_message env h text c).0
  unfolding send_plain_message
  send_plain_message-Continues h text c =
      elim (Option-cases (get_contact_by_id_hash c.contacts h)) [
        | inl e ↦ ground (arith, e, Continues-refl c)
        | inr (x, e) ↦ ground (arith, e, Continues-refl c, send_to-Continues x h text c)
      ]

  pub incoming-Continues :
      (packet : Packet) (c : Client D W) → Continues c (incoming env packet c).0
  unfolding incoming
  incoming-Continues packet c =
      elim (Outcome-cases (Wire.parse_message_data c.id_hash packet.bytes)) [
        | inl (m, e) ↦ ground (arith, e, handle_incoming_message-Continues env m c)
        | inr (inl (x, e)) ↦ ground (arith, e, Continues-refl c)
        | inr (inr e) ↦ ground (arith, e, Continues-refl c)
      ]

  -- Logging in: the credentials are set, and then the messages are asked for.
  pub login-Evolves :
      (user_id password : Bytes) (c : Client D W)
      → Evolves c.contacts (login env user_id password c).0.contacts
  unfolding login
  login-Evolves user_id password c =
      let c1 = (authenticate env req_login user_id password (λ _. []) c).0 in
      let kept : Evolves c.contacts c1.contacts =
        rw (authenticate_keeps req_login user_id password (λ _. []) c) stays in
      ground (
        arith,
        Evolves_refl c.contacts,
        kept,
        Evolves-trans kept (request_messages-Continues none c1).contacts,
      )

  pub signup-Evolves :
      (user_id password : Bytes) (c : Client D W)
      → Evolves c.contacts (signup env user_id password c).0.contacts
  unfolding signup
  signup-Evolves user_id password c =
      let key = λ (x : Client D W). x.keypair.public_key in
      let kept : Evolves c.contacts
          (authenticate env req_signup user_id password key c).0.contacts =
        rw (authenticate_keeps req_signup user_id password key c) stays in
      ground (arith, Evolves_refl c.contacts, kept)

  -- A message from (or to) a known contact changes the ratchet of that contact, to what `Decrypt`
  -- leaves, and of no other.
  pub handle_incoming_message_known :
      (m : Message) (c : Client D W) (j : Bytes) {x : Contact}
      → get_contact_by_id_hash c.contacts (other_side env m c.id_hash) ≡ some x
      → get_contact_by_id_hash (handle_incoming_message env m c).0.contacts j ≡ (
          if bytes_equal x.id_hash j
          then some (record x { dh_ratchet = (Cipher.decrypt env.crypto m x.dh_ratchet).1 })
          else get_contact_by_id_hash c.contacts j)
  unfolding handle_incoming_message
  handle_incoming_message_known m c j {x} h = ground (
    arith,
    h,
    decrypt_for_contacts env m x c,
    get_contact-put_ratchet c.contacts x.id_hash j (Cipher.decrypt env.crypto m x.dh_ratchet).1,
    found_id c.contacts (other_side env m c.id_hash) h,
  )
