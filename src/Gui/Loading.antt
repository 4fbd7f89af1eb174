-- ===== src/Gui/Loading.antt =====
-- client/internal/gioui/pages/loading/loading.go: what the program does before the user can do
-- anything. It runs in a goroutine of its own; here it is one step, after the pages are registered.
use secure_messager_erlang.Outcome.{Outcome, ok, err, crash}
use secure_messager_erlang.Sqlite
use secure_messager_erlang.Tcp.Connection.{Dialer, connect}
use secure_messager_erlang.Client.{Client, Environment}
use secure_messager_erlang.Client.Account
use secure_messager_erlang.Gui.Router.{set_current}
use secure_messager_erlang.Gui.Login.{login, chats, Tag_eq, Pages}

module _ {D W : Type 0} (env : Environment D W) where
  -- The last part, with the data of the last login if there are any.
  unfoldable pub log_in_again : Pages → Client D W → Outcome (Pages × Client D W)
  log_in_again r c = elim (Sqlite.get_login_data env.storage c.db) [
    | crash ↦ crash
    | err _ ↦ ok (set_current r login, c)
    | ok (user_id, password) ↦
        let (c1, done) = Account.login env user_id password c in
        elim done [
          | crash ↦ crash
          | err _ ↦ ok (set_current r login, c1)
          | ok _ ↦ ok (set_current r chats, c1)
        ]
  ]

module _ {D W : Type 0} (env : Environment D W) (net : Dialer W) where
  -- The errors end the program.
  unfoldable pub init : Pages → Client D W → Outcome (Pages × Client D W)
  init r c =
      let (w, connected) = connect net c.world in
      elim connected [
        | crash ↦ crash
        | err _ ↦ crash
        | ok _ ↦
            let (c1, loaded) = Account.load_client_data env (record c { world = w }) in
            elim loaded [ crash ↦ crash | err _ ↦ crash | ok _ ↦ log_in_again env r c1 ]
      ]
