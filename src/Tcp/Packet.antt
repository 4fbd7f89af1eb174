-- ===== src/Tcp/Packet.antt =====
-- client/internal/tcpclient/packet.go: packets and their bytes. A `MessageType` is a number, since
-- the type of a packet that was read can be any byte. `AuthID` and `AuthToken` are lists of bytes.
pub mod Authentication
pub mod Framing
use secure_messager_erlang.Prelude.{
  ℕ, zero, suc, ◌+◌, ◌-◌, ◌*◌, ◌/◌, ◌%◌, ◌^◌, ◌≤◌, ◌<◌, ◌≡◌, ◌≢◌, refl, sym, ap, ◌∙◌, ◌↔◌, ◌⊎◌, inl,
  inr, Bool, true, false, not, ◌&&◌, ◌||◌, List, [], ◌∷◌, ◌++◌, append_assoc, append-nil, arith,
  Option, none, some, Bytes, length, length-append, length-take, length-drop, take, drop,
  take-append, drop-append, take-append-drop, take_all, replicate, length-replicate, le→ltb, lt→ltb,
  ltb, leb, ◌==◌, ==_refl, if◌then◌else◌, Bool-cases, Option-cases, bytes_equal, bytes_equal_iff,
  bytes_equal_refl, ℤ, ℤ_eq, ℕ_eq, Bytes_eq, pos, negsuc, pos_part, neg_part, sub_ℕ, ◌+ℤ◌, ◌-ℤ◌,
  ◌≤ℤ◌, ltb_ℤ, eqb_ℤ, Eq, Assoc, lookup, insert, delete, lookup-insert, lookup-delete,
  length-insert, length-delete,
}
use secure_messager_erlang.Outcome.{
  slice, Error, Outcome, ok, err, crash, ◌>>=◌, ◌>>◌, invalid_hash_length,
  insufficient_message_length, insufficient_message, failed_to_parse, invalid_message_key_index,
  too_many_skipped, already_processed, invalid_mac, no_matching_ratchet, packet_too_long,
  auth_not_set, invalid_packet_length, invalid_auth_token_length,
}
use secure_messager_erlang.Crypt.Library.{Crypto, CryptoLaws}
use secure_messager_erlang.Crypt.{
  KeyPair, key_length, encrypt_aes, decrypt_aes, generate_key_pair, generate_shared_secret,
  or_fatal,
}
use secure_messager_erlang.Utils.{int_to_bytes, bytes_to_int, packet_length_nr_bytes}
use secure_messager_erlang.Utils.RoundTrip.{length-int_to_bytes, bytes_to_int-int_to_bytes}

abbrev pub MessageType : Type 0
MessageType = ℕ

abbrev pub ack : MessageType
ack = 0

abbrev pub error : MessageType
error = 1

abbrev pub handshake : MessageType
handshake = 2

abbrev pub req_login : MessageType
req_login = 3

abbrev pub req_signup : MessageType
req_signup = 4

abbrev pub req_logout : MessageType
req_logout = 5

abbrev pub req_key : MessageType
req_key = 6

abbrev pub send_message : MessageType
send_message = 7

abbrev pub recv_message : MessageType
recv_message = 8

abbrev pub req_messages : MessageType
req_messages = 9

abbrev pub req_pub_key : MessageType
req_pub_key = 10

pub record Packet : Type 0 where
  pub version : ℕ
  pub message_type : MessageType
  pub message_id : Bytes
  pub bytes : Bytes

abbrev pub max_message_size : ℕ
max_message_size = 1024 * 1024

-- AuthID{} and AuthToken{}
abbrev pub zero_auth_id : Bytes
zero_auth_id = replicate 16 0

abbrev pub zero_auth_token : Bytes
zero_auth_token = replicate 32 0

-- The message types that are sent without authentication.
abbrev pub is_open : MessageType → Bool
is_open t = t == req_key || t == req_login || t == req_signup

-- The part behind the version, the type and the message id: what authenticates the client.
unfoldable pub authentication : MessageType → Bytes → Bytes → Outcome Bytes
authentication message_type auth_id auth_token =
    if not (message_type == req_key)
      && (not (message_type == req_login) && not (message_type == req_signup))
    then (if bytes_equal auth_id zero_auth_id || bytes_equal auth_token zero_auth_token
        then err auth_not_set
        else ok (auth_id ++ auth_token))
    else ok []

-- The length of the rest stands in front.
abbrev pub with_length : Bytes → Bytes
with_length message = int_to_bytes (pos (length message)) ++ message

-- `auth_id` and `auth_token` are those of the server.
unfoldable pub payload : Packet → Bytes → Bytes → Outcome Bytes
payload p auth_id auth_token =
    if ltb max_message_size (length p.bytes) then err (packet_too_long (length p.bytes)) else do
      authenticated ← authentication p.message_type auth_id auth_token
      ok (
          with_length (
            (p.version % 256)
            ∷ (p.message_type % 256)
            ∷ (p.message_id ++ (authenticated ++ p.bytes))))

-- The string of the message id's bytes.
unfoldable pub message_id_str : Packet → Bytes
message_id_str p = p.message_id

-- `message_id` is what `rand.Read` leaves in the array. Its error is ignored.
unfoldable pub create_packet : MessageType → Bytes → Bytes → Packet
create_packet message_type bytes message_id = record {
  version = 1;
  message_type = message_type;
  message_id = message_id;
  bytes = bytes;
}

-- data[i]
abbrev pub byte_at : Bytes → ℕ → Outcome ℕ
byte_at [] i = crash
byte_at (b ∷ bs) zero = ok b
byte_at (b ∷ bs) (suc i) = byte_at bs i

unfoldable pub parse_packet : Bytes → Outcome Packet
parse_packet bytes = if ltb (length bytes) 22 then err invalid_packet_length else do
  version ← byte_at bytes 4
  message_type ← byte_at bytes 5
  rest ← slice bytes 22 (length bytes)
  message_id ← slice bytes 6 22
  ok (record {
    version = version;
    message_type = message_type;
    message_id = message_id;
    bytes = rest;
  })

unfoldable pub bytes_to_auth_token : Bytes → Outcome Bytes
bytes_to_auth_token bytes =
    if not (length bytes == 32) then err invalid_auth_token_length else ok bytes
