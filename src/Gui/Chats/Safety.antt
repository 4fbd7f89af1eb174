-- ===== src/Gui/Chats/Safety.antt =====
-- client/internal/gioui/pages/chats: the page over any sequence of events.
use secure_messager_erlang.Prelude.{
  ◌≡◌, refl, ◌⊎◌, inl, inr, not, ◌&&◌, arith, List, [], ◌∷◌, Bool-cases,
}
use secure_messager_erlang.Outcome.{ok}
use secure_messager_erlang.Client.{Client, Environment}
use secure_messager_erlang.Gui.Chats.{ChatsPage, Session, new_page, initialize_page}
use secure_messager_erlang.Gui.Chats.Events.{
  Event, frame, types_message, types_friend, clicks_chat, clicks_send, clicks_add_icon, clicks_add,
  arrives, handle, handle_all,
}
use secure_messager_erlang.Gui.Chats.Promise.{
  FitsClient, CallPanics, SomeCallPanics, SelectsContact, FitsClient-SelectsContact,
  new_page-FitsClient, initialize_page-FitsClient,
}
use secure_messager_erlang.Gui.Chats.Clicks.{
  Handled, Fits-typed, clicks_chat-Handled, send_message-Handled, add_friend-Handled,
  arrives-Handled,
}

module _ {D W : Type 0} (env : Environment D W) where
  -- Each event: the page's handler returns, unless the client's own call panics.
  handle-Handled :
      (e : Event) (p : ChatsPage) (c : Client D W)
      → FitsClient env p c
      → CallPanics env e p c ⊎ Handled env e p c
  unfolding handle
  handle-Handled frame p c h =
      inr ((initialize_page env p c, c), refl, initialize_page-FitsClient env p c h)
  handle-Handled (types_message text) p c h =
      inr ((record p { chat_text = text }, c), refl, Fits-typed env _ p _ h refl refl refl)
  handle-Handled (types_friend text) p c h =
      inr ((record p { add_friend_text = text }, c), refl, Fits-typed env _ p _ h refl refl refl)
  handle-Handled (clicks_chat i) p c h = inr (clicks_chat-Handled env i p c h)
  handle-Handled clicks_send p c h = elim (Bool-cases p.initialized) [
    | inr fresh ↦ inr ((p, c), ground (arith, fresh), h)
    | inl drawn ↦ elim (send_message-Handled env p c h) [
      | inl e ↦ inl e
      | inr (s, e, fits) ↦ inr (s, ground (arith, drawn, e), fits)
    ]
  ]
  handle-Handled clicks_add_icon p c h = elim (Bool-cases p.initialized) [
    | inr fresh ↦ inr ((p, c), ground (arith, fresh), h)
    | inl drawn ↦ inr (
      (record p { chat_add_open = not p.chat_add_open }, c),
      ground (arith, drawn),
      Fits-typed env _ p _ h refl refl refl,
    )
  ]
  handle-Handled clicks_add p c h = elim (Bool-cases (p.initialized && p.chat_add_open)) [
    | inr closed ↦ inr ((p, c), ground (arith, closed), h)
    | inl opened ↦ elim (add_friend-Handled env p c h) [
      | inl e ↦ inl e
      | inr (s, e, fits) ↦ inr (s, ground (arith, opened, e), fits)
    ]
  ]
  handle-Handled (arrives packet) p c h = arrives-Handled env packet p c h

  handle_all-fits :
      (events : List Event) (p : ChatsPage) (c : Client D W)
      → FitsClient env p c
      → SomeCallPanics env events p c
        ⊎ ((s : Session env) × (handle_all env events p c ≡ ok s) × FitsClient env s.0 s.1)
  unfolding handle_all
  handle_all-fits [] p c h = inr ((p, c), refl, h)
  handle_all-fits (e ∷ events) p c h = elim (handle-Handled e p c h) [
    | inl panics ↦ inl (inl panics)
    | inr (s, done, fits) ↦ elim (handle_all-fits events s.0 s.1 fits) [
      | inl later ↦ inl (inr (s, done, later))
      | inr (s', dones, fits') ↦ inr (s', rw done dones, fits')
    ]
  ]

  -- From a new page on, any sequence of events of the user and of the server is handled without a
  -- panic of the page itself (a chat's button always finds the two buttons that it switches), unless
  -- one of the client's own calls panics; and afterwards either no chat is selected or the selected
  -- one is a contact that the client finds.
  pub handle_all-SelectsContact :
      (events : List Event) (c : Client D W)
      → SomeCallPanics env events (new_page env c).0 (new_page env c).1
        ⊎ ((s : Session env) × (handle_all env events (new_page env c).0 (new_page env c).1 ≡ ok s)
            × SelectsContact env s.0 s.1)
  handle_all-SelectsContact events c =
      elim (handle_all-fits events (new_page env c).0 (new_page env c).1
        (new_page-FitsClient env c)) [
          | inl panics ↦ inl panics
          | inr (s, done, fits) ↦ inr (s, done, FitsClient-SelectsContact env s.0 s.1 fits)
        ]
