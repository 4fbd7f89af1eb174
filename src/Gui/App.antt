-- ===== src/Gui/App.antt =====
-- client/internal/gioui/gioui.go: the three pages behind one router, and the events of the program.
pub mod Access
pub mod Guard
pub mod Safety
use secure_messager_erlang.Prelude.{Bool, true, false, Option, none, some, Bytes, List, [], ◌∷◌}
use secure_messager_erlang.Outcome.{Outcome, ok, err, crash, ◌>>=◌}
use secure_messager_erlang.Tcp.Connection.{Dialer}
use secure_messager_erlang.Tcp.Packet.{Packet}
use secure_messager_erlang.Client.{Client, Environment}
use secure_messager_erlang.Client.Messages.{incoming}
use secure_messager_erlang.Gui.Router.{Router, new_router, register, shown}
use secure_messager_erlang.Gui.Login.{
  Tag, loading, login, chats, Tag_eq, tag_beq, Pages, LoginPage, Field, type_into, switch_state,
  click_button,
}
use secure_messager_erlang.Gui.Login
use secure_messager_erlang.Gui.Loading.{init}
use secure_messager_erlang.Gui.Chats.{ChatsPage}
use secure_messager_erlang.Gui.Chats
use secure_messager_erlang.Gui.Chats.Events.{Event, handle}

pub record App (D W : Type 0) : Type 0 where
  pub router : Pages
  pub login_page : LoginPage
  pub chats_page : ChatsPage
  pub client : Client D W

-- The loading page's goroutine runs; the user types on the login page, clicks its button or its
-- link; something happens on the page of the chats; the listener has a packet for the handler.
pub data AppEvent : Type 0 where
  loads : AppEvent
  types : Field → Bytes → AppEvent
  clicks_button clicks_link : AppEvent
  on_chats : Event → AppEvent
  receives : Packet → AppEvent

abbrev pub is_page : Tag → Option Tag → Bool
is_page t none = false
is_page t (some u) = tag_beq t u

-- Whether an event can happen while a page is shown.
unfoldable pub reaches : AppEvent → Option Tag → Bool
reaches loads page = is_page loading page
reaches (types field text) page = is_page login page
reaches clicks_button page = is_page login page
reaches clicks_link page = is_page login page
reaches (on_chats e) page = is_page chats page
reaches (receives packet) page = true

-- The pages are registered, each after it is made.
unfoldable pub new_pages : Pages
new_pages = register (register (register new_router loading loading) login login) chats chats

module _ {D W : Type 0} (env : Environment D W) where
  -- `Loop`, before its first event.
  unfoldable pub new_app : Client D W → App D W
  new_app c =
      let (page, c1) = Chats.new_page env c in
      record { router = new_pages; login_page = Login.new_page; chats_page = page; client = c1 }

module _ {D W : Type 0} (env : Environment D W) (net : Dialer W) where
  -- The handler of an event on the page that it belongs to.
  unfoldable pub on_page : AppEvent → App D W → Outcome (App D W)
  on_page loads a =
      init env net a.router a.client >>= λ s. ok (record a { router = s.0; client = s.1 })
  on_page (types field text) a = ok (record a { login_page = type_into a.login_page field text })
  on_page clicks_link a = ok (record a { login_page = switch_state a.login_page })
  on_page clicks_button a = click_button env a.login_page a.router a.client >>= λ s.
      ok (record a { login_page = s.0; router = s.1; client = s.2 })
  on_page (on_chats e) a =
      handle env e a.chats_page a.client >>= λ s. ok (record a { chats_page = s.0; client = s.1 })
  on_page (receives packet) a =
      let (c1, done) = incoming env packet a.client in
      elim done [
        | crash ↦ crash
        | err _ ↦ ok (record a { client = c1 })
        | ok _ ↦ ok (record a { client = c1 })
      ]

  -- Only the page that is shown gets events.
  unfoldable pub react : AppEvent → App D W → Outcome (App D W)
  react e a = elim (reaches e (shown a.router)) [ true ↦ on_page e a | false ↦ ok a ]

  unfoldable pub react_all : List AppEvent → App D W → Outcome (App D W)
  react_all [] a = ok a
  react_all (e ∷ events) a = react e a >>= react_all events
