-- ===== src/Gui/App/Access.antt =====
-- client/internal/gioui: the page of the chats is for a user who is logged in.
use secure_messager_erlang.Prelude.{
  ℕ, ◌≡◌, sym, ap, ◌∙◌, inl, inr, arith, [], none, Bytes, Bool-cases, ◌&&◌,
}
use secure_messager_erlang.Outcome.{Outcome-cases, ok}
use secure_messager_erlang.Tcp.Packet.{MessageType, req_login, req_signup}
use secure_messager_erlang.Client.{Client, Environment}
use secure_messager_erlang.Client.Account
use secure_messager_erlang.Client.Contacts
use secure_messager_erlang.Client.Messages.{incoming, send_plain_message, request_messages}
use secure_messager_erlang.Client.Credentials.{authenticate-ok}
use secure_messager_erlang.Client.Invariant.{Continues, Continues-refl}
use secure_messager_erlang.Client.History.{
  add_contact-Continues, send_plain_message-Continues, incoming-Continues,
  request_messages-Continues,
}
use secure_messager_erlang.Gui.Login.{Tag_eq}
use secure_messager_erlang.Gui.Chats.{ChatsPage, send_message, add_friend}
use secure_messager_erlang.Gui.Chats
use secure_messager_erlang.Gui.Chats.Events.{
  Event, frame, types_message, types_friend, clicks_chat, clicks_send, clicks_add_icon, clicks_add,
  arrives, handle, click_at,
}

module _ {D W : Type 0} (env : Environment D W) where
  -- The client and its connection are known by the hash of one name.
  abbrev pub IsIdentified : Client D W → Type 0
  IsIdentified c =
      (user_id : Bytes) × (c.id_hash ≡ env.crypto.md5 user_id)
      × (c.tcp_server.auth_id ≡ env.crypto.md5 user_id)

  pub Continues-IsIdentified :
      (c c' : Client D W) → Continues c c' → IsIdentified c → IsIdentified c'
  Continues-IsIdentified c c' on (user_id, i, a) = (user_id, on.id_hash ∙ i, on.auth_id ∙ a)

  authenticate-IsIdentified :
      (t : MessageType) (user_id password : Bytes) (f : Client D W → Bytes) (c : Client D W)
      → (Account.authenticate env t user_id password f c).1 ≡ ok tt
      → IsIdentified (Account.authenticate env t user_id password f c).0
  authenticate-IsIdentified t user_id password f c h =
      let (id, auth, _) = authenticate-ok env t user_id password f c h in (user_id, id, auth)

  login_authenticated :
      (user_id password : Bytes) (c : Client D W)
      → (Account.login env user_id password c).1 ≡ ok tt
      → ((Account.authenticate env req_login user_id password (λ _. []) c).1 ≡ ok tt)
        × Continues
            (Account.authenticate env req_login user_id password (λ _. []) c).0
            (Account.login env user_id password c).0
  unfolding Account.login
  login_authenticated user_id password c h =
      let done = Account.authenticate env req_login user_id password (λ _. []) c in
      let on = request_messages-Continues env none done.0 in
      elim (Outcome-cases done.1) [
        | inl (u, e) ↦ elim (Outcome-cases (request_messages env none done.0).1) [
          | inl (m, e') ↦ ground (arith, e, e', h, on)
          | inr (inl (x, e')) ↦ ground (arith, e, e', h, on)
          | inr (inr e') ↦ ground (arith, e, e', h, on)
        ]
        | inr (inl (x, e)) ↦ ground (arith, e, h)
        | inr (inr e) ↦ ground (arith, e, h)
      ]

  pub login-IsIdentified :
      (user_id password : Bytes) (c : Client D W)
      → (Account.login env user_id password c).1 ≡ ok tt
      → IsIdentified (Account.login env user_id password c).0
  login-IsIdentified user_id password c h =
      let (done, on) = login_authenticated user_id password c h in
      Continues-IsIdentified _ _ on
        (authenticate-IsIdentified req_login user_id password (λ _. []) c done)

  signup_authenticated :
      (user_id password : Bytes) (c : Client D W)
      → (Account.signup env user_id password c).1 ≡ ok tt
      → Account.signup env user_id password c
        ≡ Account.authenticate env req_signup user_id password
            (λ (x : Client D W). x.keypair.public_key)
            c
  unfolding Account.signup
  signup_authenticated user_id password c h = ground (arith, h)

  pub signup-IsIdentified :
      (user_id password : Bytes) (c : Client D W)
      → (Account.signup env user_id password c).1 ≡ ok tt
      → IsIdentified (Account.signup env user_id password c).0
  signup-IsIdentified user_id password c h =
      let same = signup_authenticated user_id password c h in
      rw same
        (authenticate-IsIdentified req_signup user_id password _ c (sym (ap (λ r. r.1) same) ∙ h))

  send_message-Continues :
      (p : ChatsPage) (c : Client D W) {s : Chats.Session env}
      → send_message env p c ≡ ok s
      → Continues c s.1
  unfolding send_message
  send_message-Continues p c h =
      let sent = send_plain_message env p.selected_chat p.chat_text c in
      let on = send_plain_message-Continues env p.selected_chat p.chat_text c in
      elim (Outcome-cases sent.1) [
        | inl (u, e) ↦ ground (arith, e, h, on, Continues-refl c)
        | inr (inl (x, e)) ↦ ground (arith, e, h, on, Continues-refl c)
        | inr (inr e) ↦ ground (arith, e, h, on, Continues-refl c)
      ]

  add_friend-Continues :
      (p : ChatsPage) (c : Client D W) {s : Chats.Session env}
      → add_friend env p c ≡ ok s
      → Continues c s.1
  unfolding add_friend
  add_friend-Continues p c h =
      let added = Contacts.add_contact env p.add_friend_text c in
      let on = add_contact-Continues env p.add_friend_text c in
      elim (Outcome-cases added.1) [
        | inl (u, e) ↦ ground (arith, e, h, on, Continues-refl c)
        | inr (inl (x, e)) ↦ ground (arith, e, h, on, Continues-refl c)
        | inr (inr e) ↦ ground (arith, e, h, on, Continues-refl c)
      ]

  click_at-Continues :
      (i : ℕ) (p : ChatsPage) (c : Client D W) {s : Chats.Session env}
      → handle env (clicks_chat i) p c ≡ ok s
      → Continues c s.1
  unfolding handle
  click_at-Continues i p c h = elim (Outcome-cases (click_at env p i)) [
    | inl (u, e) ↦ ground (arith, e, h, Continues-refl c)
    | inr (inl (x, e)) ↦ ground (arith, e, h, Continues-refl c)
    | inr (inr e) ↦ ground (arith, e, h, Continues-refl c)
  ]

  -- What the page of the chats does leaves the client the same one.
  pub handle-Continues :
      (e : Event) (p : ChatsPage) (c : Client D W) {s : Chats.Session env}
      → handle env e p c ≡ ok s
      → Continues c s.1
  unfolding handle
  handle-Continues frame p c h = ground (arith, h, Continues-refl c)
  handle-Continues (types_message text) p c h = ground (arith, h, Continues-refl c)
  handle-Continues (types_friend text) p c h = ground (arith, h, Continues-refl c)
  handle-Continues (clicks_chat i) p c {s} h = click_at-Continues i p c {s = s} h
  handle-Continues clicks_send p c {s} h = elim (Bool-cases p.initialized) [
    | inl drawn ↦ send_message-Continues p c {s = s} (ground (arith, drawn, h))
    | inr fresh ↦ ground (arith, fresh, h, Continues-refl c)
  ]
  handle-Continues clicks_add_icon p c h = ground (arith, h, Continues-refl c)
  handle-Continues clicks_add p c {s} h = elim (Bool-cases (p.initialized && p.chat_add_open)) [
    | inl opened ↦ add_friend-Continues p c {s = s} (ground (arith, opened, h))
    | inr closed ↦ ground (arith, closed, h, Continues-refl c)
  ]
  handle-Continues (arrives packet) p c h =
      let on = incoming-Continues env packet c in
      elim (Outcome-cases (incoming env packet c).1) [
        | inl (u, e) ↦ ground (arith, e, h, on)
        | inr (inl (x, e)) ↦ ground (arith, e, h, on)
        | inr (inr e) ↦ ground (arith, e, h)
      ]
