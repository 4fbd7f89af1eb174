-- ===== src/Examples/Bytes.antt =====
-- The theorems on the bytes of packets and messages, on keys and on contacts, at concrete inputs.
use secure_messager_erlang.Prelude.{
  ◌^◌, ◌≤◌, ◌<◌, ◌≡◌, refl, ◌⊎◌, true, List, [], ◌∷◌, ◌++◌, arith, none, some, Bytes, length,
  length-append, replicate, bytes_equal, ℤ_eq, ℕ_eq, Bytes_eq, pos, negsuc,
}
use secure_messager_erlang.Outcome.{ok, err, crash, auth_not_set}
use secure_messager_erlang.Crypt.{KeyPair}
use secure_messager_erlang.Message.{Message, hash_to_bytes}
use secure_messager_erlang.Prelude.{All}
use secure_messager_erlang.Ratchet.DhRatchet.{DhRatchet, sending}
use secure_messager_erlang.Contact.{Contact, get_contact_by_id_hash}
use secure_messager_erlang.Contact.Search.{IsDistinct, append-IsDistinct}
use secure_messager_erlang.Utils.{int_to_bytes, bytes_to_int}
use secure_messager_erlang.Utils.RoundTrip.{length-int_to_bytes, bytes_to_int-int_to_bytes}
use secure_messager_erlang.Message.Wire.{
  payload, parse_message_data, parse_messages_data, parse_messages_loop, Parsed,
}
use secure_messager_erlang.Message.Wire.Format.{HasWireSizes, delivered, parse_message_data-crash}
use secure_messager_erlang.Message.Wire.Frames.{
  frames, IsSendable, parse_messages_data-ends, parse_messages_data-frames,
}
use secure_messager_erlang.Tcp.Packet
use secure_messager_erlang.Tcp.Packet.{
  Packet, send_message, zero_auth_id, zero_auth_token, parse_packet, max_message_size, is_open,
  with_length,
}
use secure_messager_erlang.Tcp.Packet.Authentication.{HasAuth, body, payload-ok}
use secure_messager_erlang.Examples.Ratchets.{chain, text, nonce, root}

bytes_to_int-int_to_bytes_example : bytes_to_int (int_to_bytes (negsuc 41)) ≡ negsuc 41
bytes_to_int-int_to_bytes_example = bytes_to_int-int_to_bytes (negsuc 41) (omega arith)

abbrev dear : Message
dear = record {
  header = record { public_key = root; index = pos 3; prev_count = pos 0 };
  encrypted_message = text;
  plain_message = [];
  hash = replicate 32 7;
  sender_id_hash = replicate 16 1;
  receiver_id_hash = replicate 16 2;
}

dear-HasWireSizes : HasWireSizes dear
dear-HasWireSizes = record { public_key = refl; index = omega arith; hash = refl }

parse_message_data-crash_example : parse_message_data nonce (replicate 87 0) ≡ crash
parse_message_data-crash_example = parse_message_data-crash nonce (replicate 87 0) (omega arith)

parse_messages_data-ends_example :
    (p : Parsed) × (parse_messages_loop nonce 12 (replicate 12 255) 0 [] [] ≡ some p)
    × (parse_messages_data nonce (replicate 12 255) ≡ p)
parse_messages_data-ends_example = parse_messages_data-ends nonce (replicate 12 255)

abbrev mail : List (Bytes × Message)
mail = (replicate 16 1, dear) ∷ (replicate 16 2, dear) ∷ []

dear_fits : (sender : Bytes) → length sender ≡ 16 → length (sender ++ payload dear) < 2 ^ 63
unfolding payload hash_to_bytes
dear_fits sender h = omega (
  arith,
  h,
  length-append sender (root ++ (int_to_bytes (pos 3) ++ (text ++ replicate 32 7))),
  length-append root (int_to_bytes (pos 3) ++ (text ++ replicate 32 7)),
  length-append (int_to_bytes (pos 3)) (text ++ replicate 32 7),
  length-int_to_bytes (pos 3),
)

mail-IsSendable : All IsSendable mail
mail-IsSendable = (
  (refl, dear-HasWireSizes, dear_fits (replicate 16 1) refl),
  ((refl, dear-HasWireSizes, dear_fits (replicate 16 2) refl), tt),
)

parse_messages_data-frames_example :
    parse_messages_data nonce (frames mail)
    ≡ ok (delivered nonce (replicate 16 1) dear ∷ delivered nonce (replicate 16 2) dear ∷ [], none)
parse_messages_data-frames_example = parse_messages_data-frames nonce mail mail-IsSendable

abbrev packet : Packet
packet = record { version = 1; message_type = send_message; message_id = nonce; bytes = text }

abbrev some_id : Bytes
some_id = replicate 16 1

abbrev some_token : Bytes
some_token = replicate 32 1

packet_written :
    Packet.payload packet some_id some_token
    ≡ ok (with_length (body packet (some_id ++ some_token)))
unfolding Packet.payload Packet.authentication bytes_equal
packet_written = refl

payload-ok_example :
    (length packet.bytes ≤ max_message_size)
    × (((is_open send_message ≡ true)
          × (with_length (body packet (some_id ++ some_token)) ≡ with_length (body packet [])))
        ⊎ (HasAuth some_id some_token
            × (with_length (body packet (some_id ++ some_token))
                ≡ with_length (body packet (some_id ++ some_token)))))
payload-ok_example = payload-ok packet some_id some_token packet_written

packet_refused : Packet.payload packet some_id zero_auth_token ≡ err auth_not_set
unfolding Packet.payload Packet.authentication bytes_equal
packet_refused = refl

abbrev mallory : KeyPair
mallory = record { public_key = replicate 32 12; private_key = replicate 32 3 }

abbrev ratchet : DhRatchet
ratchet = record {
  keypair = mallory;
  root_key = root;
  child_key = [];
  current_mratchet = chain;
  previous_mratchets = [];
  ratchet_index = 0;
  state = sending;
  maps = record { next = 1; cell = λ _. [] };
}

abbrev contacts : List Contact
contacts = record { id_hash = some_id; dh_ratchet = ratchet } ∷ []

abbrev new_one : Contact
new_one = record { id_hash = replicate 16 2; dh_ratchet = ratchet }

not_known : get_contact_by_id_hash contacts new_one.id_hash ≡ none
unfolding get_contact_by_id_hash bytes_equal
not_known = refl

contacts-IsDistinct : IsDistinct contacts
unfolding get_contact_by_id_hash
contacts-IsDistinct = (refl, tt)

append-IsDistinct_example : IsDistinct (contacts ++ (new_one ∷ []))
append-IsDistinct_example = append-IsDistinct contacts new_one contacts-IsDistinct not_known
