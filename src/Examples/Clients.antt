-- ===== src/Examples/Clients.antt =====
-- The theorems on requests, on the database and on clients, at concrete inputs.
use secure_messager_erlang.Prelude.{
  ◌≡◌, refl, Bool, true, false, List, [], ◌∷◌, ◌++◌, Option, none, some, Bytes, replicate,
  bytes_equal, if◌then◌else◌, pos, ℕ_eq, Bytes_eq,
}
use secure_messager_erlang.Outcome.{Outcome, ok, err, library, auth_not_set}
use secure_messager_erlang.Contact.{get_contact_by_id_hash}
use secure_messager_erlang.Contact.Search.{id_hashes, IsDistinct}
use secure_messager_erlang.Sqlite
use secure_messager_erlang.Sqlite.{
  Storage, Statement, Setting, Value, blob, key, set_setting, get_setting, public_key, private_key,
  username, password, get_two,
}
use secure_messager_erlang.Tcp.Packet
use secure_messager_erlang.Tcp.Packet.{
  Packet, req_key, send_message, zero_auth_id, zero_auth_token, parse_packet,
}
use secure_messager_erlang.Tcp.Server.{Network, TcpServer, send_receive}
use secure_messager_erlang.Client.{Client, Environment, Handler, incoming_messages}
use secure_messager_erlang.Client.Sharing.{Memory}
use secure_messager_erlang.Client.Operations.{
  Operation, adds, logs_in, sends, perform_all, perform_all-IsDistinct,
}
use secure_messager_erlang.Prelude.{length}
use secure_messager_erlang.Tcp.Server.Shutdown
use secure_messager_erlang.Tcp.Server.Shutdown.{idle, reads, reading_open}
use secure_messager_erlang.Client.Account.{authenticate, load_key_pair, renew_key_pair}
use secure_messager_erlang.Client.Credentials.{authenticate-ok}
use secure_messager_erlang.Crypt.{is_valid, generate_key_pair, or_fatal, encrypt_aes}
use secure_messager_erlang.Client.{request, random}
use secure_messager_erlang.Tcp.Server.{receive}
use secure_messager_erlang.Tcp.Packet.{
  req_login, create_packet, message_id_str, bytes_to_auth_token,
}
use secure_messager_erlang.Examples.Toy.{toy}
use secure_messager_erlang.Examples.Ratchets.{text, nonce, root}
use secure_messager_erlang.Examples.Sessions.{bob_id, alice_id, of_bob}

abbrev same : Setting → Setting → Bool
same public_key public_key = true
same private_key private_key = true
same username username = true
same password password = true
same k j = false

-- A database of settings.
abbrev pub Database : Type 0
Database = Setting → Option Bytes

abbrev execute : Database → Statement → List Value → Database × Outcome (Unit {0})
execute d set_setting (key k ∷ blob v ∷ []) = (λ j. if same k j then some v else d j, ok tt)
execute d _ _ = (d, ok tt)

abbrev find : Database → List Value → Outcome Value
find d (key k ∷ []) = elim (d k) [ none ↦ err (library 1) | some v ↦ ok (blob v) ]
find d _ = err (library 2)

abbrev scan_blob : Value → Outcome Bytes
scan_blob (blob v) = ok v
scan_blob _ = err (library 3)

abbrev database : Storage Database
database = record {
  prepare = λ d statement. ok tt;
  exec = execute;
  query = λ d statement values. ok [];
  query_row = λ d statement values. find d values;
  scan = scan_blob;
  marshal = λ r. ok [];
  unmarshal = λ b. err (library 4);
}

abbrev pub empty : Database
empty k = none

-- A network that never answers.
abbrev pub silent : Network (Unit {0})
silent = record {
  random_id = λ w. (w, replicate 16 5);
  write = λ w frame. (w, ok tt);
  reply = λ w id. (w, none);
  random = λ w n. (w, ok (replicate n 1));
  now = λ w. (w, pos 0);
}

abbrev pub server : TcpServer Handler
server = record {
  auth_id = zero_auth_id;
  auth_token = zero_auth_token;
  pending_responses = [];
  message_handlers = (8, incoming_messages) ∷ [];
}

abbrev ask : Packet
ask = record { version = 1; message_type = req_key; message_id = replicate 16 5; bytes = text }

ask_written :
    Packet.payload ask zero_auth_id zero_auth_token
    ≡ ok (Packet.with_length (1 ∷ 6 ∷ (replicate 16 5 ++ text)))
unfolding Packet.payload Packet.authentication
ask_written = refl

ask_refused :
    Packet.payload (record ask { message_type = send_message }) zero_auth_id zero_auth_token
    ≡ err auth_not_set
unfolding Packet.payload Packet.authentication bytes_equal
ask_refused = refl

abbrev pub env : Environment Database (Unit {0})
env = record { crypto = toy; storage = database; network = silent }

abbrev pub bobs_client : Client Database (Unit {0})
bobs_client = record {
  id_hash = bob_id;
  tcp_server = server;
  db = empty;
  keypair = of_bob.keypair;
  contacts = record { id_hash = alice_id; dh_ratchet = of_bob } ∷ [];
  last_polled_timestamp = pos 0;
  world = tt;
}

only_alice : IsDistinct bobs_client.contacts
unfolding get_contact_by_id_hash
only_alice = (refl, tt)

-- Every slice ends with its array. What is behind it would be lost.
abbrev pub apart : Memory (Unit {0})
apart = record {
  capacity = λ w h. length h;
  overwritten = λ w h bytes x. record x { id_hash = bytes };
}

abbrev some_operations : List Operation
some_operations = logs_in text nonce ∷ adds text ∷ sends alice_id text ∷ []

perform_all-IsDistinct_example :
    IsDistinct (perform_all env apart some_operations bobs_client).contacts
    × ((more : List Bytes) × (id_hashes (perform_all env apart some_operations bobs_client).contacts
          ≡ id_hashes bobs_client.contacts ++ more))
perform_all-IsDistinct_example =
    perform_all-IsDistinct env apart some_operations bobs_client (tt, (tt, (((λ w. refl), tt), tt)))
      only_alice

alice_known :
    get_contact_by_id_hash bobs_client.contacts alice_id
    ≡ some (record { id_hash = alice_id; dh_ratchet = of_bob })
unfolding get_contact_by_id_hash bytes_equal
alice_known = refl

from_alice : (if bytes_equal alice_id bob_id then bob_id else alice_id) ≡ alice_id
unfolding bytes_equal
from_alice = refl

-- A network whose server answers each request with 32 bytes.
abbrev pub generous : Environment Database (Unit {0})
generous = record {
  crypto = toy;
  storage = database;
  network = record silent {
    reply =
        λ w id. (w, some (record { version = 1; message_type = 0; message_id = id; bytes = root }));
  };
}

logged_in : (authenticate generous req_login text nonce (λ _. []) bobs_client).1 ≡ ok tt
unfolding authenticate request random send_receive receive Packet.payload Packet.authentication
    create_packet message_id_str encrypt_aes bytes_to_auth_token Sqlite.set_login_data
logged_in = refl

authenticate-ok_example :
    ((authenticate generous req_login text nonce (λ _. []) bobs_client).0.id_hash
      ≡ replicate 16 108)
    × ((authenticate generous req_login text nonce (λ _. []) bobs_client).0.tcp_server.auth_id
        ≡ replicate 16 108)
    × (length
          (authenticate generous req_login text nonce (λ _. []) bobs_client).0.tcp_server.auth_token
        ≡ 32)
authenticate-ok_example =
    authenticate-ok generous req_login text nonce (λ _. []) bobs_client logged_in

loaded : (load_key_pair env bobs_client).1 ≡ ok tt
unfolding load_key_pair renew_key_pair Sqlite.get_user_key_pair Sqlite.set_user_key_pair
    generate_key_pair or_fatal is_valid
loaded = refl

reading_open_example : ◌≡◌ {A = Bool} true true
reading_open_example = reading_open idle (Shutdown.next Shutdown.start (reads (λ e. cc)))
