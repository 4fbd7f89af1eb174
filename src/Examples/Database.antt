-- ===== src/Examples/Database.antt =====
-- The theorems on the tables of the database and on what is left after a restart, at concrete inputs.
use secure_messager_erlang.Prelude.{
  ◌≡◌, refl, [], ◌∷◌, ◌++◌, some, Bytes, bytes_equal, replicate, pos, ℤ_eq, ℕ_eq, Bytes_eq,
}
use secure_messager_erlang.Outcome.{Outcome, ok, err, auth_not_set}
use secure_messager_erlang.Ratchet.DhRatchet.{DhRatchet}
use secure_messager_erlang.Contact.{get_contact_by_id_hash, put_ratchet}
use secure_messager_erlang.Contact.Search.{IsDistinct}
use secure_messager_erlang.Message.{Message, new_plain_message}
use secure_messager_erlang.Message.Cipher
use secure_messager_erlang.Sqlite.{get_contacts, scan_rows, update_contact_row, save_message}
use secure_messager_erlang.Sqlite.Schema.{Tables, schema, select}
use secure_messager_erlang.Sqlite.Schema.Contacts.{save_message_overwrites}
use secure_messager_erlang.Tcp.Packet
use secure_messager_erlang.Crypt.{or_fatal, generate_key_pair, generate_shared_secret, encrypt_aes}
use secure_messager_erlang.Ratchet.DhRatchet.{rk_cycle, start_chain, store_current, limit_previous}
use secure_messager_erlang.Ratchet.Hkdf.{derive, expand, extract}
use secure_messager_erlang.Ratchet.MessageRatchet
use secure_messager_erlang.Ratchet.MessageRatchet.{ck_cycle, new_message_ratchet}
use secure_messager_erlang.Message.{bytes_to_hash, hash_to_bytes}
use secure_messager_erlang.Message.Wire
use secure_messager_erlang.Utils.{int_to_bytes}
use secure_messager_erlang.Prelude.{delete, insert}
use secure_messager_erlang.Sqlite.Schema.{execute, insert_row}
use secure_messager_erlang.Tcp.Packet.{create_packet, message_id_str}
use secure_messager_erlang.Tcp.Server.{send_receive, receive}
use secure_messager_erlang.Client.{Client, request, random, draw}
use secure_messager_erlang.Examples.Clients.{apart}
use secure_messager_erlang.Outcome.{Outcome}
use secure_messager_erlang.Prelude.{ap, ◌∙◌}
use secure_messager_erlang.Client.Sharing.{send_message_in_memory, send_message_in_memory-copies}
use secure_messager_erlang.Client.Messages.{send_plain_message, send_to}
use secure_messager_erlang.Client.Persistence.{
  over_schema, restarted, sealed, send_message_in_memory-failed,
}
use secure_messager_erlang.Client.Messages.{incoming}
use secure_messager_erlang.Client.Contacts.{get_contact_chat_history}
use secure_messager_erlang.Sqlite.Schema.Messages.{stored_message}
use secure_messager_erlang.Client.Conversation.{incoming-sealed, incoming-sealed_turn, HasArrived}
use secure_messager_erlang.Examples.Sessions.{
  fresh, answering, fresh_shares, draws_fresh, not_current, not_previous,
}
use secure_messager_erlang.Prelude.{◌==◌, if◌then◌else◌}
use secure_messager_erlang.Tcp.Server.{Network}
use secure_messager_erlang.Tcp.Packet.{Packet}
use secure_messager_erlang.Contact.{Contact}
use secure_messager_erlang.Prelude.{inl, arith, false, List}
use secure_messager_erlang.Prelude.{replicate}
use secure_messager_erlang.Examples.Toy.{toy, toy_laws}
use secure_messager_erlang.Examples.Ratchets.{text, nonce, root}
use secure_messager_erlang.Examples.Sessions.{
  bob_id, alice_id, of_bob, of_alice, of_bob-InSync, of_alice-Follows, hello,
}
use secure_messager_erlang.Examples.Clients.{silent, server, generous}

-- A codec for the two ratchets of the examples.
abbrev after_sending : DhRatchet
after_sending =
    (Cipher.encrypt toy (new_plain_message bob_id alice_id text) of_bob
      (record { private_key = ok (replicate 32 1); nonce = ok (replicate 12 1) })).1

abbrev to_bytes : DhRatchet → Outcome Bytes
to_bytes r = ok (1 ∷ [])

abbrev of_bytes : Bytes → Outcome DhRatchet
of_bytes [] = ok of_bob
of_bytes (b ∷ bs) = ok after_sending

abbrev with_alice : Tables
with_alice = record {
  user_settings = [];
  messages = [];
  contacts = record { id_hash = alice_id; ratchet = [] } ∷ [];
}

alice_loaded :
    get_contacts (schema to_bytes of_bytes) with_alice
    ≡ ok (record { id_hash = alice_id; dh_ratchet = of_bob } ∷ [])
unfolding get_contacts select scan_rows
alice_loaded = refl

pub alice_alone : IsDistinct (record { id_hash = alice_id; dh_ratchet = of_bob } ∷ [])
unfolding get_contact_by_id_hash
alice_alone = (refl, tt)

-- The same sender, another receiver.
abbrev to_another : Message
to_another = record hello { receiver_id_hash = nonce; plain_message = nonce }

save_message_overwrites_example :
    save_message
      (schema to_bytes of_bytes)
      (save_message (schema to_bytes of_bytes) with_alice 0 hello).0
      0
      to_another
    ≡ save_message (schema to_bytes of_bytes) with_alice 0 to_another
save_message_overwrites_example =
    save_message_overwrites to_bytes of_bytes with_alice 0 hello to_another refl refl

abbrev started : Client Tables (Unit {0})
started = record {
  id_hash = bob_id;
  tcp_server = server;
  db = with_alice;
  keypair = of_bob.keypair;
  contacts = record { id_hash = alice_id; dh_ratchet = of_bob } ∷ [];
  last_polled_timestamp = pos 0;
  world = tt;
}

pub alice_found :
    get_contact_by_id_hash started.contacts alice_id
    ≡ some (record { id_hash = alice_id; dh_ratchet = of_bob })
unfolding get_contact_by_id_hash bytes_equal
alice_found = refl

not_logged_in :
    (send_plain_message (over_schema toy silent to_bytes of_bytes) alice_id text started).1
    ≡ err auth_not_set
unfolding send_plain_message send_to request random send_receive receive Packet.payload
    Packet.authentication create_packet message_id_str get_contact_by_id_hash bytes_equal
    Cipher.encrypt Cipher.turn_to_sending or_fatal generate_key_pair draw rk_cycle
    generate_shared_secret derive MessageRatchet.encrypt MessageRatchet.encrypt_with_key encrypt_aes
    bytes_to_hash Wire.payload start_chain store_current int_to_bytes new_plain_message put_ratchet
    hash_to_bytes delete insert limit_previous expand extract ck_cycle MessageRatchet.initialize
    new_message_ratchet save_message update_contact_row execute insert_row
not_logged_in = refl

in_memory :
    send_message_in_memory (over_schema toy silent to_bytes of_bytes) apart alice_id text started
    ≡ send_plain_message (over_schema toy silent to_bytes of_bytes) alice_id text started
in_memory =
    send_message_in_memory-copies (over_schema toy silent to_bytes of_bytes) apart alice_id text
      started (λ w. refl)

send_message_in_memory-failed_example :
    (restarted toy silent to_bytes of_bytes server tt
        (send_message_in_memory
          (over_schema toy silent to_bytes of_bytes)
          apart
          alice_id
          text
          started).0
      ≡ started.contacts)
    × ((send_message_in_memory
          (over_schema toy silent to_bytes of_bytes)
          apart
          alice_id
          text
          started).0.contacts
        ≡ put_ratchet started.contacts alice_id
            (sealed toy silent to_bytes of_bytes
              (record { id_hash = alice_id; dh_ratchet = of_bob })
              text
              started).1)
send_message_in_memory-failed_example =
    send_message_in_memory-failed toy silent to_bytes of_bytes apart server tt alice_id text started
      (λ w. refl) alice_found refl refl alice_loaded
      (ap (λ (p : Client Tables (Unit {0}) × Outcome (Unit {0})). p.1) in_memory ∙ not_logged_in)

abbrev pub logged_in_client : Client Tables (Unit {0})
logged_in_client = record started {
  tcp_server = record server { auth_id = bob_id; auth_token = root };
}

abbrev alices_client : Client Tables (Unit {0})
alices_client = record started { id_hash = alice_id; contacts = [] }

abbrev bob_of_alice : Contact
bob_of_alice = record { id_hash = bob_id; dh_ratchet = of_alice }

abbrev from_alice : Packet
from_alice = record {
  version = 1;
  message_type = 8;
  message_id = replicate 16 5;
  bytes =
      alice_id
      ++ Wire.payload (sealed toy silent to_bytes of_bytes bob_of_alice text alices_client).0;
}

not_oneself : bytes_equal alice_id bob_id ≡ false
unfolding bytes_equal
not_oneself = refl

incoming-sealed_example :
    ((incoming (over_schema toy generous.network to_bytes of_bytes) from_alice started).1 ≡ ok tt)
    × ((old : List Message) × ((get_contact_chat_history
            (over_schema toy generous.network to_bytes of_bytes)
            alice_id
            (incoming (over_schema toy generous.network to_bytes of_bytes) from_alice started).0).1
          ≡ ok (old ++ (stored_message alice_id text ∷ []))))
incoming-sealed_example =
    incoming-sealed toy toy_laws silent generous.network to_bytes of_bytes root 0 0 alices_client
      bob_of_alice text nonce from_alice started
      (record { id_hash = alice_id; dh_ratchet = of_bob }) {bytes = 1 ∷ []} refl of_alice-Follows
      of_bob-InSync refl (inl (omega arith)) (unfold draw in refl) refl refl (omega arith) refl
      not_oneself alice_found refl refl

-- A system whose random bytes are fives, or ones where twelve of them are asked for.
abbrev fives : Network (Unit {0})
fives = record silent { random = λ w n. (w, ok (replicate n (if n == 12 then 1 else 5))) }

abbrev bob_of_answering : Contact
bob_of_answering = record { id_hash = bob_id; dh_ratchet = answering }

abbrev reply_of_alice : Packet
reply_of_alice = record {
  version = 1;
  message_type = 8;
  message_id = replicate 16 5;
  bytes =
      alice_id
      ++ Wire.payload (sealed toy fives to_bytes of_bytes bob_of_answering text alices_client).0;
}

incoming-sealed_turn_example :
    HasArrived toy toy_laws fives generous.network to_bytes of_bytes alices_client text
      reply_of_alice started
incoming-sealed_turn_example =
    incoming-sealed_turn toy toy_laws fives generous.network to_bytes of_bytes alices_client
      bob_of_answering text nonce reply_of_alice started
      (record { id_hash = alice_id; dh_ratchet = of_bob }) {fresh = fresh}
      {secret = replicate 32 16} {bytes = 1 ∷ []} refl refl (unfold draw in draws_fresh) refl refl
      fresh_shares not_current not_previous (unfold draw in refl) refl refl refl not_oneself
      alice_found refl refl
