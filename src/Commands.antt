-- ===== src/Commands.antt =====
-- client/cmd, client/cmd2: the main functions. Each starts from what `OpenDatabase` gave and from the
-- state of the world, and gives the client that it ends with; `log.Fatalf` is a crash. What they print
-- is left out.
pub mod Unconnected
pub mod Trials
pub mod Startup
use secure_messager_erlang.Prelude.{ℕ, zero, suc, [], ◌∷◌, Bytes}
use secure_messager_erlang.Outcome.{Outcome, ok, err, crash}
use secure_messager_erlang.Crypt.{or_fatal}
use secure_messager_erlang.Sqlite
use secure_messager_erlang.Tcp.Server.{new_tcp_server}
use secure_messager_erlang.Client.{Client, Environment, Action, ◌>>=◌, ◌>>◌}
use secure_messager_erlang.Client.Contacts.{add_contact}
use secure_messager_erlang.Client.Messages.{listen_incoming_messages, send_plain_message}
use secure_messager_erlang.Client.Account.{new_client, load_client_data, login, signup}
use secure_messager_erlang.Gui.Icons.{Files, Icons, load_icons}
use secure_messager_erlang.Gui.App.{App, new_app}

-- The texts "test7", "test8", "password" and "Hello!".
abbrev pub test7 : Bytes
test7 = 116 ∷ 101 ∷ 115 ∷ 116 ∷ 55 ∷ []

abbrev pub test8 : Bytes
test8 = 116 ∷ 101 ∷ 115 ∷ 116 ∷ 56 ∷ []

abbrev pub trial_password : Bytes
trial_password = 112 ∷ 97 ∷ 115 ∷ 115 ∷ 119 ∷ 111 ∷ 114 ∷ 100 ∷ []

abbrev pub hello_text : Bytes
hello_text = 72 ∷ 101 ∷ 108 ∷ 108 ∷ 111 ∷ 33 ∷ []

-- if err != nil { log.Fatalf(...) }
abbrev pub fatal : {D W : Type 0} → Action D W (Unit {0}) → Action D W (Unit {0})
fatal m c = let (c1, r) = m c in (c1, or_fatal r)

abbrev pub must : {A X : Type 0} → Outcome A → (A → Outcome X) → Outcome X
must (ok a) next = next a
must (err e) next = crash
must crash next = crash

-- The client at the end of a main function.
abbrev pub ended : {D W : Type 0} → Client D W × Outcome (Unit {0}) → Outcome (Client D W)
ended (c, done) = elim done [ ok _ ↦ ok c | err e ↦ err e | crash ↦ crash ]

module _ {D W : Type 0} (env : Environment D W) where
  -- A user who is not in the database yet is signed up under the name that is given.
  unfoldable pub enter : Bytes → Action D W (Unit {0})
  enter new_user_id c = elim (Sqlite.get_login_data env.storage c.db) [
    | crash ↦ (c, crash)
    | err _ ↦ fatal (signup env new_user_id trial_password) c
    | ok (user_id, password) ↦ fatal (login env user_id password) c
  ]

  -- What both trials begin with, behind `OpenDatabase`.
  unfoldable pub begin_trial : Bytes → Action D W (Unit {0})
  begin_trial new_user_id = do
    fatal (load_client_data env)
    enter new_user_id
    λ (c : Client D W). (listen_incoming_messages env c, ok tt)

  -- receiving.go. The loop behind is commented out.
  unfoldable pub receiving_main : Outcome D → W → Outcome (Client D W)
  receiving_main opened w =
      must opened (λ db. ended (begin_trial test7 (new_client new_tcp_server db w)))

  -- cmd/main.go and cmd2/main.go: the program that `Loop` starts with. The icons are loaded first.
  unfoldable pub app_main : {F : Type 0} → Files F → Icons → Outcome D → W → Outcome (App D W)
  app_main files icons opened w =
      must (load_icons files icons).1
        (λ _. must opened (λ db. ok (new_app env (new_client new_tcp_server db w))))

  module _ (sleep : W → ℕ → W) where
    -- The loop of sending.go, with the rounds that are left. An error is printed.
    unfoldable pub send_trials : ℕ → Action D W (Unit {0})
    send_trials zero c = (c, ok tt)
    send_trials (suc n) c =
        let (c1, sent) = send_plain_message env test7 hello_text c in
        elim sent [
          | crash ↦ (c1, crash)
          | err _ ↦ send_trials n (record c1 { world = sleep c1.world 1 })
          | ok _ ↦ send_trials n (record c1 { world = sleep c1.world 1 })
        ]

    unfoldable pub sending_main : Outcome D → W → Outcome (Client D W)
    sending_main opened w =
        let trial : Action D W (Unit {0}) = do
          begin_trial test8
          fatal (add_contact env test7)
          send_trials 10
        in must opened (λ db. ended (trial (new_client new_tcp_server db w)))
