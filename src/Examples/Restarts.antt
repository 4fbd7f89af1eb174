-- ===== src/Examples/Restarts.antt =====
-- A ratchet that is stored and read again, at concrete inputs.
use secure_messager_erlang.Prelude.{◌≡◌, refl, [], ◌∷◌, replicate, pos, arith, ap, ◌∙◌}
use secure_messager_erlang.Outcome.{ok, Outcome}
use secure_messager_erlang.Crypt.{generate_shared_secret, KeyPair}
use secure_messager_erlang.Message.{Message}
use secure_messager_erlang.Ratchet.DhRatchet.{DhRatchet}
use secure_messager_erlang.Ratchet.DhRatchet.Stored.{IsEncodable, flatten, marshal, unmarshal}
use secure_messager_erlang.Ratchet.DhRatchet.Separate.{IsSeparate}
use secure_messager_erlang.Message.Cipher.{decrypt}
use secure_messager_erlang.Message.Cipher.ByValue.{open_message, flat}
use secure_messager_erlang.Message.Cipher.Refinement.{decrypt-flatten, decrypt-IsSeparate}
use secure_messager_erlang.Message.Cipher.Restart.{reads, use_all, CanUse, use_all-restarted}
use secure_messager_erlang.Examples.Toy.{toy, toy_laws}
use secure_messager_erlang.Examples.Codec.{toy_gob, toy_gob_laws, encoded}
use secure_messager_erlang.Examples.Sessions.{
  alice, bob, fresh, hello, of_bob, bob_shares, bob_shares_fresh,
}
use secure_messager_erlang.Prelude.{bytes_equal, ℤ_eq, ℕ_eq, Bytes_eq}
use secure_messager_erlang.Contact.{get_contact_by_id_hash, put_ratchet}
use secure_messager_erlang.Message.{new_plain_message}
use secure_messager_erlang.Sqlite.{get_contacts, scan_rows, update_contact_row, save_message}
use secure_messager_erlang.Sqlite.Schema.{Tables, select}
use secure_messager_erlang.Crypt.{or_fatal, generate_key_pair, encrypt_aes}
use secure_messager_erlang.Ratchet.DhRatchet.{rk_cycle, start_chain, store_current, limit_previous}
use secure_messager_erlang.Ratchet.Hkdf.{derive, expand, extract}
use secure_messager_erlang.Ratchet.MessageRatchet.{ck_cycle, new_message_ratchet}
use secure_messager_erlang.Message.{bytes_to_hash, hash_to_bytes}
use secure_messager_erlang.Utils.{int_to_bytes}
use secure_messager_erlang.Prelude.{delete, insert}
use secure_messager_erlang.Sqlite.Schema.{execute, insert_row}
use secure_messager_erlang.Tcp.Packet.{create_packet, message_id_str}
use secure_messager_erlang.Tcp.Server.{send_receive, receive}
use secure_messager_erlang.Client.{Client, request, random, draw}
use secure_messager_erlang.Client.Messages.{send_plain_message, send_to}
use secure_messager_erlang.Tcp.Packet.{Packet}
use secure_messager_erlang.Contact.{Contact}
use secure_messager_erlang.Examples.Ratchets.{text}
use secure_messager_erlang.Examples.Sessions.{alice_id}
use secure_messager_erlang.Message.Cipher
use secure_messager_erlang.Tcp.Packet
use secure_messager_erlang.Ratchet.MessageRatchet
use secure_messager_erlang.Message.Wire
use secure_messager_erlang.Client.Stored.{over_gob, IsStored, ratchet_after}
use secure_messager_erlang.Client.Contacts.{add_contact_by_hash, fetch_contact}
use secure_messager_erlang.Contact.{new_contact}
use secure_messager_erlang.Ratchet.DhRatchet.{new_dh_ratchet, sending}
use secure_messager_erlang.Client.Stored.Adding.{add_contact_by_hash-IsStored}
use secure_messager_erlang.Client.Stored.Sending.{send_message_in_memory-IsStored}
use secure_messager_erlang.Client.Stored.Receiving.{opened_by, handle_incoming_message-IsStored}
use secure_messager_erlang.Client.Messages.{handle_incoming_message, other_side, decrypt_for, save}
use secure_messager_erlang.Message.Wire.Format.{delivered}
use secure_messager_erlang.Examples.Sessions.{of_alice, draws, bob_id}
use secure_messager_erlang.Prelude.{some}
use secure_messager_erlang.Message.Cipher.{Result}
use secure_messager_erlang.Ratchet.MessageRatchet.{
  skip_keys, take_key, decrypt_new, decrypt_with_key, encrypt_with_key,
}
use secure_messager_erlang.Message.Cipher.{encrypt, decrypt_current, turn_to_sending}
use secure_messager_erlang.Crypt.{decrypt_aes}
use secure_messager_erlang.Prelude.{lookup, ◌+ℤ◌, ℕ, length, Option, none, Bytes}
use secure_messager_erlang.Ratchet.DhRatchet.{is_current_ratchet}
use secure_messager_erlang.Examples.Clients.{generous, apart}
use secure_messager_erlang.Client.Sharing.{send_message_in_memory, send_message_in_memory-copies}
use secure_messager_erlang.Examples.Database.{logged_in_client, alice_found, alice_alone}
use secure_messager_erlang.Ratchet.DhRatchet.Stored.{rebuild}
use secure_messager_erlang.Sqlite

-- A message with a key that Bob has not seen.
abbrev turning : Message
turning = record hello {
  header = record { public_key = fresh.public_key; index = pos 0; prev_count = pos 0 };
  encrypted_message = replicate 40 9;
}

-- One of the chain before.
abbrev late : Message
late = record turning {
  header = record { public_key = alice.public_key; index = pos 1; prev_count = pos 0 };
}

of_bob-IsSeparate : IsSeparate of_bob
of_bob-IsSeparate = record { allocated = (omega arith, tt); apart = (tt, tt) }

of_bob-IsEncodable : IsEncodable (flatten of_bob)
unfolding flatten
of_bob-IsEncodable = ((λ e. cc), tt)

turning_shares :
    generate_shared_secret toy of_bob.keypair turning.header.public_key ≡ ok (replicate 32 16)
turning_shares = bob_shares_fresh

decrypt-flatten_example :
    open_message toy turning (flatten of_bob) ≡ flat (decrypt toy turning of_bob)
decrypt-flatten_example =
    decrypt-flatten toy toy_laws turning of_bob of_bob-IsSeparate turning_shares

can_turn : CanUse toy (reads turning ∷ []) (flatten of_bob)
unfolding flatten
can_turn = ((replicate 32 16, turning_shares), tt)

abbrev after_turning : DhRatchet
after_turning = (use_all toy (reads turning ∷ []) of_bob).1

kept : after_turning.keypair ≡ bob
unfolding use_all
kept = (decrypt-IsSeparate toy toy_laws turning of_bob of_bob-IsSeparate turning_shares).1

can_read : CanUse toy (reads late ∷ []) (flatten after_turning)
unfolding flatten
can_read = (
  (
    replicate 32 12,
    ap (λ (k : KeyPair). generate_shared_secret toy k alice.public_key) kept ∙ bob_shares,
  ),
  tt,
)

stored : marshal toy_gob after_turning ≡ ok (encoded (flatten after_turning))
unfolding marshal
stored = refl

use_all-restarted_example :
    (r' : DhRatchet) × (unmarshal toy_gob (encoded (flatten after_turning)) ≡ ok r')
    × ((use_all toy (reads late ∷ []) r').0 ≡ (use_all toy (reads late ∷ []) after_turning).0)
use_all-restarted_example =
    use_all-restarted toy toy_laws toy_gob toy_gob_laws (reads turning ∷ []) (reads late ∷ [])
      of_bob of_bob-IsSeparate of_bob-IsEncodable can_turn can_read stored

-- Bob's database after Alice was added, over the encoding of Codec.
abbrev with_alice : Tables
with_alice = record {
  user_settings = [];
  messages = [];
  contacts = record { id_hash = alice_id; ratchet = encoded (flatten of_bob) } ∷ [];
}

abbrev bobs : Client Tables (Unit {0})
bobs = record logged_in_client { db = with_alice }

bobs-IsStored : IsStored toy generous.network toy_gob bobs
unfolding Sqlite.get_contacts Sqlite.scan_rows select unmarshal rebuild flatten
bobs-IsStored = (_, refl, refl)

bob_sent : (send_plain_message (over_gob toy generous.network toy_gob) alice_id text bobs).1 ≡ ok tt
unfolding send_plain_message send_to request random send_receive receive Packet.payload
    Packet.authentication create_packet message_id_str get_contact_by_id_hash bytes_equal
    Cipher.encrypt Cipher.turn_to_sending or_fatal generate_key_pair draw rk_cycle
    generate_shared_secret derive MessageRatchet.encrypt MessageRatchet.encrypt_with_key encrypt_aes
    bytes_to_hash Wire.payload start_chain store_current int_to_bytes new_plain_message put_ratchet
    hash_to_bytes delete insert limit_previous expand extract ck_cycle MessageRatchet.initialize
    new_message_ratchet save_message update_contact_row execute insert_row marshal flatten
bob_sent = refl

abbrev of_alices_contact : Contact
of_alices_contact = record { id_hash = alice_id; dh_ratchet = of_bob }

abbrev afterwards : DhRatchet
afterwards = ratchet_after toy generous.network toy_gob of_alices_contact text bobs

afterwards-IsEncodable : IsEncodable (flatten afterwards)
unfolding Cipher.encrypt Cipher.turn_to_sending or_fatal generate_key_pair draw rk_cycle
    generate_shared_secret derive MessageRatchet.encrypt MessageRatchet.encrypt_with_key encrypt_aes
    bytes_to_hash start_chain store_current new_plain_message limit_previous expand extract ck_cycle
    MessageRatchet.initialize new_message_ratchet flatten
afterwards-IsEncodable = ((λ e. cc), ((λ e. cc), tt))

in_memory :
    send_message_in_memory (over_gob toy generous.network toy_gob) apart alice_id text bobs
    ≡ send_plain_message (over_gob toy generous.network toy_gob) alice_id text bobs
in_memory =
    send_message_in_memory-copies (over_gob toy generous.network toy_gob) apart alice_id text bobs
      (λ w. refl)

send_message_in_memory-IsStored_example :
    IsStored toy generous.network toy_gob
      (send_message_in_memory (over_gob toy generous.network toy_gob) apart alice_id text bobs).0
send_message_in_memory-IsStored_example =
    send_message_in_memory-IsStored toy generous.network toy_gob toy_gob_laws apart alice_id text
      bobs {x = of_alices_contact} {b = encoded (flatten afterwards)} (λ w. refl) alice_found refl
      refl bobs-IsStored alice_alone afterwards-IsEncodable (unfold marshal in refl)
      (ap (λ (p : Client Tables (Unit {0}) × Outcome (Unit {0})). p.1) in_memory ∙ bob_sent)

-- What Bob gets of the text that Alice sends first.
abbrev arrived : Message
arrived = delivered bob_id alice_id (encrypt toy hello of_alice draws).0

abbrev opened : Result
opened = opened_by toy generous.network toy_gob arrived of_alices_contact

arrived_opened : opened.2 ≡ ok tt
unfolding Cipher.encrypt decrypt turn_to_sending MessageRatchet.encrypt encrypt_with_key ck_cycle
    derive expand extract encrypt_aes bytes_to_hash hash_to_bytes decrypt_current
    MessageRatchet.decrypt decrypt_new take_key decrypt_with_key decrypt_aes bytes_equal lookup
    is_current_ratchet ◌+ℤ◌
arrived_opened = refl

opened-IsEncodable : IsEncodable (flatten opened.1)
unfolding Cipher.encrypt decrypt turn_to_sending MessageRatchet.encrypt encrypt_with_key ck_cycle
    derive expand extract encrypt_aes bytes_to_hash hash_to_bytes decrypt_current
    MessageRatchet.decrypt decrypt_new take_key decrypt_with_key decrypt_aes bytes_equal lookup
    is_current_ratchet ◌+ℤ◌ flatten
opened-IsEncodable = ((λ e. omega (arith, ap size e)), tt)
  where
    size : Option Bytes → ℕ
    size none = 32
    size (some b) = length b

arrived_from :
    get_contact_by_id_hash bobs.contacts
      (other_side (over_gob toy generous.network toy_gob) arrived bobs.id_hash)
    ≡ some of_alices_contact
unfolding get_contact_by_id_hash bytes_equal
arrived_from = refl

arrived_handled :
    (handle_incoming_message (over_gob toy generous.network toy_gob) arrived bobs).2 ≡ ok tt
unfolding Cipher.encrypt decrypt turn_to_sending MessageRatchet.encrypt encrypt_with_key ck_cycle
    derive expand extract encrypt_aes bytes_to_hash hash_to_bytes decrypt_current
    MessageRatchet.decrypt decrypt_new take_key decrypt_with_key decrypt_aes bytes_equal lookup
    is_current_ratchet ◌+ℤ◌ handle_incoming_message decrypt_for save get_contact_by_id_hash
    save_message update_contact_row execute insert_row marshal flatten
arrived_handled = refl

handle_incoming_message-IsStored_example :
    IsStored toy generous.network toy_gob
      (handle_incoming_message (over_gob toy generous.network toy_gob) arrived bobs).0
handle_incoming_message-IsStored_example =
    handle_incoming_message-IsStored toy generous.network toy_gob toy_gob_laws arrived bobs
      arrived_from bobs-IsStored alice_alone arrived_opened opened-IsEncodable arrived_handled

bob_adds : (add_contact_by_hash (over_gob toy generous.network toy_gob) text sending bobs).1 ≡ ok tt
unfolding add_contact_by_hash fetch_contact request send_receive receive Packet.payload
    Packet.authentication create_packet message_id_str get_contact_by_id_hash bytes_equal
    new_contact new_dh_ratchet or_fatal generate_shared_secret insert delete int_to_bytes
    MessageRatchet.initialize new_message_ratchet Sqlite.add_contact execute insert_row marshal
    flatten
bob_adds = refl

add_contact_by_hash-IsStored_example :
    IsStored toy generous.network toy_gob
      (add_contact_by_hash (over_gob toy generous.network toy_gob) text sending bobs).0
add_contact_by_hash-IsStored_example =
    add_contact_by_hash-IsStored toy generous.network toy_gob toy_gob_laws text sending bobs
      bobs-IsStored bob_adds
