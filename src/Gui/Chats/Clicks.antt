-- ===== src/Gui/Chats/Clicks.antt =====
-- client/internal/gioui/pages/chats: each event that calls the client.
use secure_messager_erlang.Prelude.{
  ℕ, ◌≡◌, refl, ◌⊎◌, inl, inr, false, arith, List, [], Bytes, length, ◌==◌, Bool-cases,
}
use secure_messager_erlang.Outcome.{Outcome-cases, ok}
use secure_messager_erlang.Tcp.Packet.{Packet}
use secure_messager_erlang.Client.{Client, Environment, get_contact_ids}
use secure_messager_erlang.Client.Contacts
use secure_messager_erlang.Client.Messages.{incoming, send_plain_message}
use secure_messager_erlang.Client.History.{
  add_contact-Continues, send_plain_message-Continues, incoming-Continues,
}
use secure_messager_erlang.Gui.Chats.{ChatsPage, Session, update_chats, send_message, add_friend}
use secure_messager_erlang.Gui.Chats.Events.{
  Event, clicks_chat, clicks_send, clicks_add, arrives, handle,
}
use secure_messager_erlang.Gui.Chats.Selection.{Fits, update_chats-Fits, Continues-Fits}
use secure_messager_erlang.Gui.Chats.Promise.{FitsClient, CallPanics, click_at-ok}

module _ {D W : Type 0} (env : Environment D W) where
  -- The page's handler returns, and what it leaves fits.
  abbrev pub Handled : Event → ChatsPage → Client D W → Type 0
  Handled e p c = (s : Session env) × (handle env e p c ≡ ok s) × FitsClient env s.0 s.1

  pub Fits-typed :
      (ids : List Bytes) (p q : ChatsPage)
      → Fits ids p
      → q.chat_buttons ≡ p.chat_buttons
      → q.selected_idx ≡ p.selected_idx
      → q.selected_chat ≡ p.selected_chat
      → Fits ids q
  Fits-typed ids p q h b i c = record { built = rw b h.built; selected = rw (b, i, c) h.selected }

  pub clicks_chat-Handled :
      (i : ℕ) (p : ChatsPage) (c : Client D W) → FitsClient env p c → Handled (clicks_chat i) p c
  unfolding handle
  clicks_chat-Handled i p c h =
      let (p1, done, fits) = click_at-ok env (get_contact_ids c) p i h in
      elim (Bool-cases p.chat_add_open) [
        | inl opened ↦ ((p, c), ground (arith, opened), h)
        | inr closed ↦ ((p1, c), ground (arith, closed, done), fits)
      ]

  pub send_message-Handled :
      (p : ChatsPage) (c : Client D W)
      → FitsClient env p c
      → CallPanics env clicks_send p c
        ⊎ ((s : Session env) × (send_message env p c ≡ ok s) × FitsClient env s.0 s.1)
  unfolding send_message
  send_message-Handled p c h =
      let sent = send_plain_message env p.selected_chat p.chat_text c in
      let on = send_plain_message-Continues env p.selected_chat p.chat_text c in
      let fits = Continues-Fits env p on h in
      let shown = update_chats env p sent.0 in
      elim (Bool-cases (length p.chat_text == 0)) [
        | inl empty ↦ inr ((p, c), ground (arith, empty), h)
        | inr text ↦ elim (Outcome-cases sent.1) [
          | inl (u, e) ↦ inr (
            (record shown { chat_text = [] }, sent.0),
            ground (arith, text, e),
            Fits-typed _ shown _ (update_chats-Fits env p sent.0 fits) refl refl refl,
          )
          | inr (inl (x, e)) ↦ inr ((p, sent.0), ground (arith, text, e), fits)
          | inr (inr e) ↦ inl e
        ]
      ]

  pub add_friend-Handled :
      (p : ChatsPage) (c : Client D W)
      → FitsClient env p c
      → CallPanics env clicks_add p c
        ⊎ ((s : Session env) × (add_friend env p c ≡ ok s) × FitsClient env s.0 s.1)
  unfolding add_friend
  add_friend-Handled p c h =
      let added = Contacts.add_contact env p.add_friend_text c in
      let fits = Continues-Fits env p (add_contact-Continues env p.add_friend_text c) h in
      let cleared = record p { chat_add_open = false; add_friend_text = [] } in
      let fits' = Fits-typed _ p cleared fits refl refl refl in
      elim (Bool-cases (length p.add_friend_text == 0)) [
        | inl empty ↦ inr ((p, c), ground (arith, empty), h)
        | inr text ↦ elim (Outcome-cases added.1) [
          | inl (u, e) ↦ inr (
            (update_chats env cleared added.0, added.0),
            ground (arith, text, e),
            update_chats-Fits env cleared added.0 fits',
          )
          | inr (inl (x, e)) ↦ inr ((p, added.0), ground (arith, text, e), fits)
          | inr (inr e) ↦ inl e
        ]
      ]

  pub arrives-Handled :
      (packet : Packet) (p : ChatsPage) (c : Client D W)
      → FitsClient env p c
      → CallPanics env (arrives packet) p c ⊎ Handled (arrives packet) p c
  unfolding handle
  arrives-Handled packet p c h =
      let done = incoming env packet c in
      let fits = Continues-Fits env p (incoming-Continues env packet c) h in
      elim (Outcome-cases done.1) [
        | inl (u, e) ↦ inr ((p, done.0), ground (arith, e), fits)
        | inr (inl (x, e)) ↦ inr ((p, done.0), ground (arith, e), fits)
        | inr (inr e) ↦ inl e
      ]
