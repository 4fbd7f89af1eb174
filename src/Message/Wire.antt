-- ===== src/Message/Wire.antt =====
-- client/internal/contact/message/message.go: `Payload`, `ParseMessageData`, `ParseMessagesData`.
pub mod Format
pub mod Frames
use secure_messager_erlang.Prelude.{
  ℕ, zero, suc, ◌+◌, ◌-◌, ◌*◌, ◌/◌, ◌%◌, ◌^◌, ◌≤◌, ◌<◌, ◌≡◌, ◌≢◌, refl, sym, ap, ◌∙◌, ◌↔◌, ◌⊎◌, inl,
  inr, Bool, true, false, not, ◌&&◌, ◌||◌, List, [], ◌∷◌, ◌++◌, append_assoc, append-nil, arith,
  Option, none, some, Bytes, length, length-append, length-take, length-drop, take, drop,
  take-append, drop-append, take-append-drop, take_all, replicate, length-replicate, le→ltb, lt→ltb,
  ltb, leb, ◌==◌, ==_refl, if◌then◌else◌, Bool-cases, Option-cases, bytes_equal, bytes_equal_iff,
  bytes_equal_refl, ℤ, ℤ_eq, ℕ_eq, Bytes_eq, pos, negsuc, pos_part, neg_part, sub_ℕ, ◌+ℤ◌, ◌-ℤ◌,
  ◌≤ℤ◌, ltb_ℤ, eqb_ℤ, Eq, Assoc, lookup, insert, delete, lookup-insert, lookup-delete,
  length-insert, length-delete,
}
use secure_messager_erlang.Outcome.{
  Error, Outcome, ok, err, crash, ◌>>=◌, ◌>>◌, invalid_hash_length, insufficient_message_length,
  insufficient_message, failed_to_parse, invalid_message_key_index, too_many_skipped,
  already_processed, invalid_mac, no_matching_ratchet, packet_too_long, auth_not_set,
  invalid_packet_length, invalid_auth_token_length,
}
use secure_messager_erlang.Crypt.Library.{Crypto, CryptoLaws}
use secure_messager_erlang.Crypt.{
  KeyPair, key_length, encrypt_aes, decrypt_aes, generate_key_pair, generate_shared_secret,
  or_fatal,
}
use secure_messager_erlang.Utils.{int_to_bytes, bytes_to_int, packet_length_nr_bytes}
use secure_messager_erlang.Utils.RoundTrip.{length-int_to_bytes, bytes_to_int-int_to_bytes}
use secure_messager_erlang.Outcome.{slice}
use secure_messager_erlang.Message.{
  Message, MessageHeader, bytes_to_hash, hash_to_bytes, hash_length,
}

unfoldable pub payload : Message → Bytes
payload m =
    m.header.public_key
    ++ (int_to_bytes m.header.index ++ (m.encrypted_message ++ hash_to_bytes m.hash))

unfoldable pub parse_message_data : Bytes → Bytes → Outcome Message
parse_message_data receiver_id_hash bytes = do
  sender_id_hash ← slice bytes 0 16
  public_key ← slice bytes 16 (16 + key_length)
  index ← slice bytes (16 + key_length) (16 + key_length + packet_length_nr_bytes)
  encrypted_message ←
      slice bytes (16 + key_length + packet_length_nr_bytes) (length bytes - hash_length)
  tail ← slice bytes (length bytes - hash_length) (length bytes)
  hash ← bytes_to_hash tail
  ok (record {
    header = record { public_key = public_key; index = bytes_to_int index; prev_count = pos 0 };
    encrypted_message = encrypted_message;
    plain_message = [];
    hash = hash;
    sender_id_hash = sender_id_hash;
    receiver_id_hash = receiver_id_hash;
  })

-- What `ParseMessagesData` returns: messages, and an error or nil.
abbrev pub Parsed : Type 0
Parsed = Outcome (List Message × Option Error)

abbrev pub finish : List Message → List ℕ → Parsed
finish messages [] = ok (messages, none)
finish messages (i ∷ failed_idxs) = ok (messages, some (failed_to_parse (i ∷ failed_idxs)))

-- data[offset : offset+messageLength], where at least `message_length` bytes are left: a negative
-- length is a panic.
abbrev pub cut_message : Bytes → ℤ → Outcome (Bytes × Bytes)
cut_message rest (pos n) = ok (take n rest, drop n rest)
cut_message rest (negsuc n) = crash

-- The messages and the failed indices after one message.
abbrev pub collect : Outcome Message → ℕ → List Message → List ℕ → Outcome (List Message × List ℕ)
collect (ok m) i messages failed_idxs = ok (messages ++ (m ∷ []), failed_idxs)
collect (err e) i messages failed_idxs = ok (messages, failed_idxs ++ (i ∷ []))
collect crash i messages failed_idxs = crash

-- One round behind the checks of the length: what is left, and what has been collected.
unfoldable pub parse_one :
    Bytes → Bytes → ℤ → ℕ → List Message → List ℕ → Outcome (Bytes × List Message × List ℕ)
parse_one receiver_id_hash rest message_length i messages failed_idxs = do
  (message_data, rest') ← cut_message rest message_length
  (messages', failed_idxs') ←
      collect (parse_message_data receiver_id_hash message_data) i messages failed_idxs
  ok (rest', messages', failed_idxs')

-- The loop, over data[offset:]. `none` means that the fuel ran out.
unfoldable pub parse_messages_loop : Bytes → ℕ → Bytes → ℕ → List Message → List ℕ → Option Parsed
parse_messages_loop receiver_id_hash fuel [] i messages failed_idxs =
    some (finish messages failed_idxs)
parse_messages_loop receiver_id_hash zero (b ∷ bs) i messages failed_idxs = none
parse_messages_loop receiver_id_hash (suc fuel) (b ∷ bs) i messages failed_idxs =
    let bytes = b ∷ bs in
    let message_length = bytes_to_int (take packet_length_nr_bytes bytes) in
    let rest = drop packet_length_nr_bytes bytes in
    let next : Option Parsed =
      elim (parse_one receiver_id_hash rest message_length i messages failed_idxs) [
        | err e ↦ some (err e)
        | crash ↦ some crash
        | ok (rest', messages', failed_idxs') ↦
            parse_messages_loop receiver_id_hash fuel rest' (i + 1) messages' failed_idxs'
      ] in
    if ltb (length bytes) packet_length_nr_bytes
    then some (ok ([], some insufficient_message_length))
    else if ltb_ℤ (pos (length rest)) message_length
    then some (ok (messages, some insufficient_message))
    else next

abbrev pub or_crash : Option Parsed → Parsed
or_crash none = crash
or_crash (some p) = p

-- Each round takes eight bytes at least, so the fuel never runs out.
unfoldable pub parse_messages_data : Bytes → Bytes → Parsed
parse_messages_data receiver_id_hash bytes =
    or_crash (parse_messages_loop receiver_id_hash (length bytes) bytes 0 [] [])
