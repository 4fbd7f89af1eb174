-- ===== src/Gui/Chats/Events.antt =====
-- client/internal/gioui/pages/chats: the events that reach the page while it is shown.
use secure_messager_erlang.Prelude.{
  ℕ, zero, suc, not, ◌&&◌, List, [], ◌∷◌, Option, none, some, Bytes, if◌then◌else◌,
}
use secure_messager_erlang.Outcome.{Outcome, ok, err, crash, ◌>>=◌}
use secure_messager_erlang.Tcp.Packet.{Packet}
use secure_messager_erlang.Client.{Client, Environment}
use secure_messager_erlang.Client.Messages.{incoming}
use secure_messager_erlang.Gui.Chats.{
  ChatsPage, Session, click_chat, send_message, add_friend, initialize_page,
}

-- A frame is drawn; the user types into an editor, clicks a button of the list, or one of the three
-- others; a packet arrives.
pub data Event : Type 0 where
  frame : Event
  types_message : Bytes → Event
  types_friend : Bytes → Event
  clicks_chat : ℕ → Event
  clicks_send clicks_add_icon clicks_add : Event
  arrives : Packet → Event

-- l[i], if there is one.
abbrev pub nth {ℓ} : {A : Type ℓ} → List A → ℕ → Option A
nth [] i = none
nth (a ∷ rest) zero = some a
nth (a ∷ rest) (suc i) = nth rest i

module _ {D W : Type 0} (env : Environment D W) where
  -- The handler of the chat's button at a place, if there is one.
  unfoldable pub click_at : ChatsPage → ℕ → Outcome ChatsPage
  click_at p i = elim (nth p.chat_buttons i) [
    | none ↦ ok p
    | some b ↦ elim b.click.on_click [ none ↦ ok p | some chat ↦ click_chat p chat ]
  ]

  -- The list of chats is drawn, and gets events, while the input for a friend is closed. The three
  -- other buttons have no handler before the first frame.
  unfoldable pub handle : Event → ChatsPage → Client D W → Outcome (Session env)
  handle frame p c = ok (initialize_page env p c, c)
  handle (types_message text) p c = ok (record p { chat_text = text }, c)
  handle (types_friend text) p c = ok (record p { add_friend_text = text }, c)
  handle (clicks_chat i) p c =
      if p.chat_add_open then ok (p, c) else click_at p i >>= λ p1. ok (p1, c)
  handle clicks_send p c = if p.initialized then send_message env p c else ok (p, c)
  handle clicks_add_icon p c =
      if p.initialized then ok (record p { chat_add_open = not p.chat_add_open }, c) else ok (p, c)
  handle clicks_add p c = if p.initialized && p.chat_add_open then add_friend env p c else ok (p, c)
  handle (arrives packet) p c =
      let (c1, done) = incoming env packet c in
      elim done [ crash ↦ crash | err _ ↦ ok (p, c1) | ok _ ↦ ok (p, c1) ]

  unfoldable pub handle_all : List Event → ChatsPage → Client D W → Outcome (Session env)
  handle_all [] p c = ok (p, c)
  handle_all (e ∷ events) p c = handle e p c >>= λ s. handle_all events s.0 s.1
