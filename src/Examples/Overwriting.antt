-- ===== src/Examples/Overwriting.antt =====
-- client/internal/client/client.go: `SendMessage` where the slice of the hash has room and the hash of
-- another contact lies behind it.
use secure_messager_erlang.Prelude.{◌≡◌, refl, ap, [], ◌∷◌, true, length, ◌+◌, leb, bytes_equal}
use secure_messager_erlang.Outcome.{ok}
use secure_messager_erlang.Crypt.{or_fatal, generate_key_pair, encrypt_aes, generate_shared_secret}
use secure_messager_erlang.Utils.{int_to_bytes}
use secure_messager_erlang.Contact.{Contact, put_ratchet}
use secure_messager_erlang.Contact.Search.{id_hashes}
use secure_messager_erlang.Message.{new_plain_message, bytes_to_hash, hash_to_bytes}
use secure_messager_erlang.Message.Cipher
use secure_messager_erlang.Message.Cipher.{Result}
use secure_messager_erlang.Message.Wire
use secure_messager_erlang.Ratchet.DhRatchet.{rk_cycle, start_chain, store_current, limit_previous}
use secure_messager_erlang.Ratchet.Hkdf.{derive, expand, extract}
use secure_messager_erlang.Ratchet.MessageRatchet
use secure_messager_erlang.Ratchet.MessageRatchet.{ck_cycle, new_message_ratchet}
use secure_messager_erlang.Client.{Client, draw}
use secure_messager_erlang.Client.Sharing.{Memory, send_in_memory, send_in_memory-in_place}
use secure_messager_erlang.Examples.Clients.{Database, env, bobs_client}
use secure_messager_erlang.Examples.Ratchets.{text}
use secure_messager_erlang.Examples.Sessions.{alice_id, of_bob}

abbrev of_alice : Contact
of_alice = record { id_hash = alice_id; dh_ratchet = of_bob }

abbrev two_contacts : Client Database (Unit {0})
two_contacts = record bobs_client {
  contacts = of_alice ∷ record { id_hash = text; dh_ratchet = of_bob } ∷ [];
}

-- The buffer of a packet has room, and every hash that lies in it gets the bytes of Alice's.
abbrev one_buffer : Memory (Unit {0})
one_buffer = record {
  capacity = λ w h. 1000;
  overwritten = λ w h bytes x. record x { id_hash = alice_id };
}

abbrev sealed : Result
sealed =
    Cipher.encrypt env.crypto (new_plain_message two_contacts.id_hash alice_id text) of_bob
      (draw env of_bob.state tt).1

sealed_ok : sealed.2 ≡ ok tt
unfolding Cipher.encrypt Cipher.turn_to_sending or_fatal generate_key_pair draw rk_cycle
    generate_shared_secret derive MessageRatchet.encrypt MessageRatchet.encrypt_with_key encrypt_aes
    bytes_to_hash start_chain store_current int_to_bytes new_plain_message limit_previous expand
    extract ck_cycle MessageRatchet.initialize new_message_ratchet
sealed_ok = refl

has_room : leb (16 + length (Wire.payload sealed.0)) 1000 ≡ true
unfolding Cipher.encrypt Cipher.turn_to_sending or_fatal generate_key_pair draw rk_cycle
    generate_shared_secret derive MessageRatchet.encrypt MessageRatchet.encrypt_with_key encrypt_aes
    bytes_to_hash Wire.payload start_chain store_current int_to_bytes new_plain_message
    hash_to_bytes limit_previous expand extract ck_cycle MessageRatchet.initialize
    new_message_ratchet
has_room = refl

-- Two contacts with different hashes, and afterwards both have the first one's.
overwritten_hashes :
    id_hashes (send_in_memory env one_buffer of_alice alice_id text two_contacts).0.contacts
    ≡ alice_id ∷ alice_id ∷ []
unfolding put_ratchet bytes_equal
overwritten_hashes = ap id_hashes (
    send_in_memory-in_place env one_buffer of_alice alice_id text two_contacts {m = sealed.0}
      {r = sealed.1} {done = sealed.2} refl (λ e. cc (e, sealed_ok)) has_room)
