-- ===== src/Examples/Startup.antt =====
-- The main functions at concrete environments.
use secure_messager_erlang.Prelude.{ℕ, ◌≡◌, refl}
use secure_messager_erlang.Prelude.{◌==◌, if◌then◌else◌}
use secure_messager_erlang.Outcome.{ok, crash}
use secure_messager_erlang.Tcp.Server.{Network}
use secure_messager_erlang.Client.{Environment}
use secure_messager_erlang.Commands.{sending_main, receiving_main, send_trials}
use secure_messager_erlang.Commands.Unconnected.{trials-unconnected}
use secure_messager_erlang.Commands.Trials.{send_trials-unsent}
use secure_messager_erlang.Examples.Clients.{Database, env, silent, bobs_client, empty}
use secure_messager_erlang.Prelude.{Bytes, [], ◌∷◌, none}
use secure_messager_erlang.Gui.Click.{on_primary}
use secure_messager_erlang.Gui.App.{new_app}
use secure_messager_erlang.Tcp.Server.{new_tcp_server}
use secure_messager_erlang.Client.Account.{new_client}
use secure_messager_erlang.Gui.Icons.{Picture, Files, Icons, load_image, load_icons, IsDrawn}
use secure_messager_erlang.Commands.{app_main}
use secure_messager_erlang.Commands.Startup.{app_main-IsDrawn}

-- A socket that was never opened.
abbrev never_opened : Network (Unit {0})
never_opened = record silent { write = λ w frame. (w, crash) }

abbrev env_never_opened : Environment Database (Unit {0})
env_never_opened = record env { network = never_opened }

abbrev sleep : Unit {0} → ℕ → Unit {0}
sleep w n = tt

trials-unconnected_example :
    (sending_main env_never_opened sleep (ok empty) tt ≡ crash)
    × (receiving_main env_never_opened (ok empty) tt ≡ crash)
trials-unconnected_example =
    trials-unconnected env_never_opened (λ w frame. refl) sleep (ok empty) tt

-- Bob knows Alice, by a hash of 16 bytes.
send_trials-unsent_example : send_trials env sleep 10 bobs_client ≡ (bobs_client, ok tt)
send_trials-unsent_example = send_trials-unsent env sleep 10 bobs_client (refl, tt)

-- Every file is a picture of two pixels beside each other, of which the right one is transparent.
abbrev two_pixels : Picture
two_pixels = record { width = 2; height = 1; alpha = λ x y. if x == 0 then 255 else 0 }

abbrev assets : Files Bytes
assets = record { open_file = λ path. ok path; decode = λ file. ok two_pixels }

abbrev four_icons : Icons
four_icons = record {
  settings = record { path = 1 ∷ []; img = none };
  spinner = record { path = 2 ∷ []; img = none };
  loader = record { path = 3 ∷ []; img = none };
  plus = record { path = 4 ∷ []; img = none };
}

started :
    app_main env assets four_icons (ok empty) tt
    ≡ ok (new_app env (new_client new_tcp_server empty tt))
unfolding app_main load_icons load_image
started = refl

app_main-IsDrawn_example :
    IsDrawn (λ c. c) (load_icons assets four_icons).0.settings on_primary 1 0
    × IsDrawn (λ c. c) (load_icons assets four_icons).0.spinner on_primary 1 0
    × IsDrawn (λ c. c) (load_icons assets four_icons).0.loader on_primary 1 0
    × IsDrawn (λ c. c) (load_icons assets four_icons).0.plus on_primary 1 0
app_main-IsDrawn_example =
    app_main-IsDrawn env assets (λ c. c) four_icons (ok empty) tt on_primary 1 0 started
