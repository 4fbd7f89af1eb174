-- ===== src/Gui/Chats/View.antt =====
-- client/internal/gioui/pages/chats: what the page shows, from the left side's top to the right
-- side's bottom. Sizes, colours and the distances between the parts are left out.
use secure_messager_erlang.Prelude.{
  ◌≡◌, refl, ap, arith, true, false, List, [], ◌∷◌, ◌++◌, map, Bytes, bytes_equal, if◌then◌else◌,
}
use secure_messager_erlang.Outcome.{Outcome, ok, err, crash, ◌>>=◌}
use secure_messager_erlang.Message.{Message}
use secure_messager_erlang.Client.{Client, Environment}
use secure_messager_erlang.Gui.Click.{ClickableButton}
use secure_messager_erlang.Gui.Chats.{Chat, ChatsPage, initialize_page, chat_history}

-- The heading "Chats" with the icon beside it, the input for a friend and its button, the button of a
-- chat, a message with the side that it stands on, the text that stands for a history that could not
-- be loaded, and the input for a message and its button.
pub data Widget : Type 0 where
  heading add_friend_icon add_friend_input add_friend_button : Widget
  chat_button : ClickableButton Chat → Widget
  message_on_left message_on_right : Bytes → Widget
  loading_error : Widget
  chat_input send_button : Widget

abbrev pub chat_header : List Widget
chat_header = heading ∷ add_friend_icon ∷ []

abbrev pub chat_list : ChatsPage → List Widget
chat_list p = map chat_button p.chat_buttons

abbrev pub chat_add : List Widget
chat_add = add_friend_input ∷ add_friend_button ∷ []

abbrev pub input_bar : List Widget
input_bar = chat_input ∷ send_button ∷ []

-- The width beside a message pushes the user's own ones to the right.
abbrev pub message_widget : Bytes → Message → Widget
message_widget id_hash m =
    if bytes_equal m.sender_id_hash id_hash
    then message_on_right m.plain_message
    else message_on_left m.plain_message

-- The left side.
unfoldable pub left_side : ChatsPage → List Widget
left_side p = chat_header ++ (if p.chat_add_open then chat_add else chat_list p)

module _ {D W : Type 0} (env : Environment D W) where
  -- The right side.
  unfoldable pub chat : ChatsPage → Client D W → Outcome (List Widget)
  chat p c = elim (chat_history env p c) [
    | crash ↦ crash
    | err _ ↦ ok (loading_error ∷ input_bar)
    | ok ms ↦ ok (map (message_widget c.id_hash) ms ++ input_bar)
  ]

  -- A frame: what it shows, and the page that it leaves.
  unfoldable pub layout : ChatsPage → Client D W → Outcome (List Widget × ChatsPage)
  layout p c =
      let p1 = initialize_page env p c in chat p1 c >>= λ right. ok (left_side p1 ++ right, p1)

map_last :
    (id_hash : Bytes) (old : List Message) (m : Message)
    → map (message_widget id_hash) (old ++ (m ∷ [])) ++ input_bar
      ≡ map (message_widget id_hash) old ++ (message_widget id_hash m ∷ input_bar)
map_last id_hash [] m = refl
map_last id_hash (x ∷ old) m = ap (λ ws. message_widget id_hash x ∷ ws) (map_last id_hash old m)

module _ {D W : Type 0} (env : Environment D W) where
  -- The last message of the history stands directly above the input, on the left if another user
  -- sent it.
  pub layout-last :
      (p : ChatsPage) (c : Client D W) (old : List Message) (m : Message)
      → p.initialized ≡ true
      → chat_history env p c ≡ ok (old ++ (m ∷ []))
      → bytes_equal m.sender_id_hash c.id_hash ≡ false
      → layout env p c
        ≡ ok (
          left_side p
              ++ (map (message_widget c.id_hash) old
                  ++ (message_on_left m.plain_message ∷ input_bar)),
          p,
        )
  unfolding layout initialize_page chat
  layout-last p c old m drawn shown other =
      ground (arith, drawn, shown, other, map_last c.id_hash old m)
