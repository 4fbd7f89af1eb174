-- ===== src/Message.antt =====
-- client/internal/contact/message/message.go: a message, its form on the wire (Wire) and its
-- encryption by a ratchet (Cipher).
pub mod Wire
pub mod Cipher
use secure_messager_erlang.Prelude.{
  ℕ, zero, suc, ◌+◌, ◌-◌, ◌*◌, ◌/◌, ◌%◌, ◌^◌, ◌≤◌, ◌<◌, ◌≡◌, ◌≢◌, refl, sym, ap, ◌∙◌, ◌↔◌, ◌⊎◌, inl,
  inr, Bool, true, false, not, ◌&&◌, ◌||◌, List, [], ◌∷◌, ◌++◌, append_assoc, append-nil, arith,
  Option, none, some, Bytes, length, length-append, length-take, length-drop, take, drop,
  take-append, drop-append, take-append-drop, take_all, replicate, length-replicate, le→ltb, lt→ltb,
  ltb, leb, ◌==◌, ==_refl, if◌then◌else◌, Bool-cases, Option-cases, bytes_equal, bytes_equal_iff,
  bytes_equal_refl, ℤ, ℤ_eq, ℕ_eq, Bytes_eq, pos, negsuc, pos_part, neg_part, sub_ℕ, ◌+ℤ◌, ◌-ℤ◌,
  ◌≤ℤ◌, ltb_ℤ, eqb_ℤ, Eq, Assoc, lookup, insert, delete, lookup-insert, lookup-delete,
  length-insert, length-delete,
}
use secure_messager_erlang.Outcome.{
  Error, Outcome, ok, err, crash, ◌>>=◌, ◌>>◌, invalid_hash_length, insufficient_message_length,
  insufficient_message, failed_to_parse, invalid_message_key_index, too_many_skipped,
  already_processed, invalid_mac, no_matching_ratchet, packet_too_long, auth_not_set,
  invalid_packet_length, invalid_auth_token_length,
}
use secure_messager_erlang.Crypt.Library.{Crypto, CryptoLaws}
use secure_messager_erlang.Crypt.{
  KeyPair, key_length, encrypt_aes, decrypt_aes, generate_key_pair, generate_shared_secret,
  or_fatal,
}

abbrev pub hash_length : ℕ
hash_length = 32

-- A `Hash` is the list of its 32 bytes.
unfoldable pub bytes_to_hash : Bytes → Outcome Bytes
bytes_to_hash b =
    if not (length b == hash_length) then err (invalid_hash_length (length b)) else ok b

unfoldable pub hash_to_bytes : Bytes → Bytes
hash_to_bytes h = h

pub record MessageHeader : Type 0 where
  pub public_key : Bytes
  pub index : ℤ
  pub prev_count : ℤ

-- A nil slice is the empty one: no function of the package tells them apart.
pub record Message : Type 0 where
  pub header : MessageHeader
  pub encrypted_message : Bytes
  pub plain_message : Bytes
  pub hash : Bytes
  pub sender_id_hash : Bytes
  pub receiver_id_hash : Bytes

-- The zero value of `Hash`.
abbrev pub zero_hash : Bytes
zero_hash = replicate hash_length 0

unfoldable pub new_plain_message : Bytes → Bytes → Bytes → Message
new_plain_message sender_id_hash receiver_id_hash plain_message = record {
  header = record { public_key = []; index = pos 0; prev_count = pos 0 };
  encrypted_message = [];
  plain_message = plain_message;
  hash = zero_hash;
  sender_id_hash = sender_id_hash;
  receiver_id_hash = receiver_id_hash;
}
