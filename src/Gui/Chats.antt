-- ===== src/Gui/Chats.antt =====
-- client/internal/gioui/pages/chats: the page with the contacts on the left and one chat on the right.
pub mod Events
pub mod Selection
pub mod Buttons
pub mod Promise
pub mod Clicks
pub mod Safety
pub mod View
use secure_messager_erlang.Prelude.{
  ℕ, zero, suc, ◌+◌, ◌/◌, ◌%◌, Bool, true, false, not, ◌&&◌, List, [], ◌∷◌, ◌++◌, Option, none,
  some, Bytes, length, ◌==◌, if◌then◌else◌, ltb, ℤ, pos, negsuc, eqb_ℤ,
}
use secure_messager_erlang.Outcome.{Error, Outcome, ok, err, crash, ◌>>=◌}
use secure_messager_erlang.Tcp.Packet.{Packet}
use secure_messager_erlang.Message.{Message}
use secure_messager_erlang.Client.{Client, Environment, get_contact_ids}
use secure_messager_erlang.Client.Contacts
use secure_messager_erlang.Client.Messages.{send_plain_message, incoming, listen_incoming_messages}
use secure_messager_erlang.Gui.Click.{ClickableButton, button, set_active, set_on_click}

-- What the handler of a chat's button has captured: its place and its contact.
pub record Chat : Type 0 where
  pub index : ℕ
  pub id : Bytes

-- The widgets that have no state of their own are left out; the texts are those of the two editors.
pub record ChatsPage : Type 0 where
  pub selected_idx : ℤ
  pub selected_chat : Bytes
  pub chat_add_open : Bool
  pub initialized : Bool
  pub chat_buttons : List (ClickableButton Chat)
  pub add_friend_text : Bytes
  pub chat_text : Bytes

-- fmt.Sprintf("%x", …)
abbrev pub hex_digit : ℕ → ℕ
hex_digit d = if ltb d 10 then 48 + d else 87 + d

abbrev pub hex : Bytes → Bytes
hex [] = []
hex (b ∷ bs) = hex_digit (b / 16) ∷ hex_digit (b % 16) ∷ hex bs

-- b[i].SetActive(active), which panics where there is no such button.
unfoldable pub set_active_at :
    {H : Type 0} → List (ClickableButton H) → ℤ → Bool → Outcome (List (ClickableButton H))
set_active_at [] i active = crash
set_active_at (b ∷ bs) (pos zero) active = ok (set_active b active ∷ bs)
set_active_at (b ∷ bs) (pos (suc i)) active =
    set_active_at bs (pos i) active >>= λ rest. ok (b ∷ rest)
set_active_at (b ∷ bs) (negsuc i) active = crash

-- The buttons of the chats, from place `i` on.
unfoldable pub chat_buttons_from : ℕ → List Bytes → List (ClickableButton Chat)
chat_buttons_from i [] = []
chat_buttons_from i (id ∷ ids) =
    set_on_click (button (hex id) (pos 50)) (record { index = i; id = id })
    ∷ chat_buttons_from (i + 1) ids

-- The first chat is selected as soon as there is one.
unfoldable pub select_first : ChatsPage → List Bytes → ChatsPage
select_first p [] = p
select_first p (id ∷ ids) =
    if eqb_ℤ p.selected_idx (negsuc 0)
    then record p { selected_idx = pos 0; selected_chat = id }
    else p

-- The first button is shown as the active one, if there is one.
unfoldable pub activate_first : List (ClickableButton Chat) → List (ClickableButton Chat)
activate_first [] = []
activate_first (b ∷ bs) = set_active b true ∷ bs

-- The handler of a chat's button.
unfoldable pub click_chat : ChatsPage → Chat → Outcome ChatsPage
click_chat p chat = if eqb_ℤ p.selected_idx (pos chat.index) then ok p else do
  cleared ← set_active_at p.chat_buttons p.selected_idx false
  chat_buttons ← set_active_at cleared (pos chat.index) true
  ok (record p {
    chat_buttons = chat_buttons;
    chat_text = [];
    selected_idx = pos chat.index;
    selected_chat = chat.id;
  })

module _ {D W : Type 0} (env : Environment D W) where
  -- The page and the client that a call leaves.
  abbrev pub Session : Type 0
  Session = ChatsPage × Client D W

  unfoldable pub new_page : Client D W → Session
  new_page c = (
    record {
      selected_idx = negsuc 0;
      selected_chat = [];
      chat_add_open = false;
      initialized = false;
      chat_buttons = [];
      add_friend_text = [];
      chat_text = [];
    },
    listen_incoming_messages env c,
  )

  unfoldable pub update_chats : ChatsPage → Client D W → ChatsPage
  update_chats p c = record (select_first p (get_contact_ids c)) {
    chat_buttons = chat_buttons_from 0 (get_contact_ids c);
  }

  unfoldable pub send_message : ChatsPage → Client D W → Outcome Session
  send_message p c =
      if length p.chat_text == 0
      then ok (p, c)
      else let (c1, sent) = send_plain_message env p.selected_chat p.chat_text c in
        elim sent [
          | crash ↦ crash
          | err _ ↦ ok (p, c1)
          | ok _ ↦ ok (record (update_chats p c1) { chat_text = [] }, c1)
        ]

  unfoldable pub add_friend : ChatsPage → Client D W → Outcome Session
  add_friend p c =
      if length p.add_friend_text == 0
      then ok (p, c)
      else let (c1, added) = Contacts.add_contact env p.add_friend_text c in
        elim added [
          | crash ↦ crash
          | err _ ↦ ok (p, c1)
          | ok _ ↦
              ok (update_chats (record p { chat_add_open = false; add_friend_text = [] }) c1, c1)
        ]

  -- What `Layout` does before it draws, once.
  unfoldable pub initialize_page : ChatsPage → Client D W → ChatsPage
  initialize_page p c =
      if p.initialized
      then p
      else let p1 = update_chats p c in
        record p1 { initialized = true; chat_buttons = activate_first p1.chat_buttons }

  -- The messages that `chatHistory` draws, or the error that it draws a label for.
  unfoldable pub chat_history : ChatsPage → Client D W → Outcome (List Message)
  chat_history p c = (Contacts.get_contact_chat_history env p.selected_chat c).1
