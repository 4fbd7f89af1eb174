-- ===== src/Examples/Pages.antt =====
-- The theorems on the pages and on the connection, at concrete inputs.
use secure_messager_erlang.Prelude.{
  ◌≡◌, ◌≢◌, ◌+◌, ◌≤◌, ◌⊎◌, ℕ, zero, suc, refl, List, [], ◌∷◌, some, bytes_equal, lookup, insert,
  delete,
}
use secure_messager_erlang.Prelude.{ℤ, pos, ◌+ℤ◌, ◌-ℤ◌, ltb_ℤ}
use secure_messager_erlang.Gui.Split.{Floats, DragEvent, presses, drags, releases}
use secure_messager_erlang.Gui.Login.{sign_in, sign_up, switch_state, loading}
use secure_messager_erlang.Gui.Router.{
  call_all, registers, sets, new_router, register, set_current, shown,
}
use secure_messager_erlang.Outcome.{Error, ok, err, timeout}
use secure_messager_erlang.Prelude.{arith}
use secure_messager_erlang.Tcp.Connection.{Dialer, connect, connect-seconds}
use secure_messager_erlang.Gui.Router.{new_router, register}
use secure_messager_erlang.Gui.Login.{Tag, loading, login, chats, Tag_eq, username, password}
use secure_messager_erlang.Gui.Chats.{new_page, Session}
use secure_messager_erlang.Gui.Chats.Events.{
  Event, frame, types_message, clicks_chat, clicks_send, handle_all,
}
use secure_messager_erlang.Gui.Chats.Promise.{SomeCallPanics, SelectsContact}
use secure_messager_erlang.Gui.Chats.Safety.{handle_all-SelectsContact}
use secure_messager_erlang.Gui.App.{App, AppEvent, loads, types, clicks_button, new_app, react_all}
use secure_messager_erlang.Gui.App.Access.{IsIdentified}
use secure_messager_erlang.Gui.App.Safety.{react_all-IsIdentified}
use secure_messager_erlang.Tcp.Connection.{dial_loop}
use secure_messager_erlang.Tcp.Packet
use secure_messager_erlang.Tcp.Packet.{create_packet, message_id_str, bytes_to_auth_token}
use secure_messager_erlang.Tcp.Server.{
  send_receive, receive, register_handler, set_auth_id, set_auth_token,
}
use secure_messager_erlang.Crypt.{is_valid, generate_key_pair, or_fatal, encrypt_aes}
use secure_messager_erlang.Sqlite.{
  scan_rows, set_login_data, get_login_data, get_contacts, get_user_key_pair, set_user_key_pair,
}
use secure_messager_erlang.Client.{request, random, payload}
use secure_messager_erlang.Client.Account
use secure_messager_erlang.Client.Account.{load_key_pair, renew_key_pair, authenticate}
use secure_messager_erlang.Client.Contacts.{load_contacts}
use secure_messager_erlang.Client.Messages.{
  request_messages, receive_messages, listen_incoming_messages,
}
use secure_messager_erlang.Gui.Router.{set_current, shown}
use secure_messager_erlang.Gui.Login
use secure_messager_erlang.Gui.Login.{click_button, sign_in_user, type_into}
use secure_messager_erlang.Message.Wire.{parse_messages_data, parse_messages_loop}
use secure_messager_erlang.Utils.{bytes_to_int}
use secure_messager_erlang.Gui.Loading.{init, log_in_again}
use secure_messager_erlang.Gui.Chats
use secure_messager_erlang.Gui.App.{react, reaches, on_page, new_pages}
use secure_messager_erlang.Examples.Ratchets.{text, nonce}
use secure_messager_erlang.Examples.Clients.{Database, generous, bobs_client}

-- A server that answers the third dial, where a dial takes 3 seconds and the handshake 2; the world
-- counts the dials and the seconds.
abbrev third_time : Dialer (ℕ × ℕ)
third_time = record {
  dial = λ w. elim w.0 [ zero ↦ ((0, w.1 + 3), ok tt) | suc n ↦ ((n, w.1 + 3), err timeout) ];
  sleep = λ w n. (w.0, w.1 + n);
  read_handshake = λ w. ((w.0, w.1 + 2), ok []);
}

third_time_dials : (w : ℕ × ℕ) → (third_time.dial w).0.1 ≤ w.1 + 3
third_time_dials (zero, s) = omega arith
third_time_dials (suc n, s) = omega arith

connect-seconds_example :
    ((connect third_time (2, 100)).0.1 ≤ 1155)
    × ((x : Error) → (connect third_time (2, 100)).1 ≢ err x)
connect-seconds_example =
    connect-seconds third_time (λ (w : ℕ × ℕ). w.1) (λ w n. refl) 3 2 third_time_dials
      (λ w. omega arith) (2, 100)

abbrev some_events : List Event
some_events = frame ∷ types_message text ∷ clicks_send ∷ clicks_chat 0 ∷ []

handle_all-SelectsContact_example :
    SomeCallPanics generous some_events
      (new_page generous bobs_client).0
      (new_page generous bobs_client).1
    ⊎ ((s : Session generous) × (handle_all generous some_events
            (new_page generous bobs_client).0
            (new_page generous bobs_client).1
          ≡ ok s)
        × SelectsContact generous s.0 s.1)
handle_all-SelectsContact_example = handle_all-SelectsContact generous some_events bobs_client

abbrev logging_in : List AppEvent
logging_in = loads ∷ types username text ∷ types password nonce ∷ clicks_button ∷ []

abbrev dialed : Dialer (Unit {0})
dialed = record { dial = λ w. (w, ok tt); sleep = λ w n. w; read_handshake = λ w. (w, ok []) }

abbrev ended : App Database (Unit {0})
ended = elim (react_all generous dialed logging_in (new_app generous bobs_client)) [
  | ok a ↦ a
  | _ ↦ new_app generous bobs_client
]

logging_in_runs :
    (react_all generous dialed logging_in (new_app generous bobs_client) ≡ ok ended)
    × (shown ended.router ≡ some chats)
unfolding react_all react reaches on_page new_app new_pages init connect dial_loop log_in_again
    Account.load_client_data load_key_pair renew_key_pair load_contacts Account.login authenticate
    request_messages request random send_receive receive Packet.payload Packet.authentication
    create_packet message_id_str encrypt_aes bytes_to_auth_token set_login_data get_login_data
    get_contacts get_user_key_pair set_user_key_pair generate_key_pair or_fatal is_valid
    click_button sign_in_user type_into set_current register new_router shown lookup insert delete
    Login.new_page Chats.new_page listen_incoming_messages register_handler scan_rows payload
    bytes_equal set_auth_id set_auth_token receive_messages parse_messages_data parse_messages_loop
    bytes_to_int
logging_in_runs = (refl, refl)

react_all-IsIdentified_example : IsIdentified generous ended.client
react_all-IsIdentified_example =
    react_all-IsIdentified generous dialed logging_in bobs_client {a = ended} logging_in_runs.0
      logging_in_runs.1

-- Whole numbers in place of float32, which are not multiplied or divided.
abbrev hundredths : Floats ℤ
hundredths = record {
  plus = ◌+ℤ◌;
  minus = ◌-ℤ◌;
  times = λ a b. a +ℤ b;
  over = λ a b. a;
  less = ltb_ℤ;
  at_most_zero = λ a. ltb_ℤ a (pos 1);
  zero_float = pos 0;
  from_int = λ i. i;
  to_int = λ a. a;
  dp = λ a. a;
  default_bar_width = pos 10;
}

abbrev two_frames : List (ℤ × List (DragEvent ℤ))
two_frames =
    (pos 800, presses 1 (pos 200) ∷ drags 1 (pos 210) ∷ [])
    ∷ (pos 800, drags 1 (pos 900) ∷ releases ∷ [])
    ∷ []

-- The link of the login page, at first and after two clicks.
link_title_changes :
    (Login.new_page.link_title ≡ sign_in)
    × ((switch_state (switch_state Login.new_page)).link_title ≡ sign_up)
    × ((switch_state (switch_state Login.new_page)).state ≡ Login.new_page.state)
unfolding Login.new_page switch_state
link_title_changes = (refl, refl, refl)

-- A page that is set before it is registered is not shown later.
loading_stays :
    shown (
      call_all new_router (
        registers loading loading
        ∷ sets login
        ∷ registers login login
        ∷ registers chats chats
        ∷ []))
    ≡ some loading
unfolding call_all register set_current new_router shown lookup insert delete
loading_stays = refl
