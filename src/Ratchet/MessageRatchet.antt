-- ===== src/Ratchet/MessageRatchet.antt =====
-- client/internal/contact/ratchet/mratchet.go: one chain of message keys. The map of a ratchet's
-- skipped keys is passed beside the ratchet, since copies of the struct share it; the field
-- `skipped_message_keys` says which map it is. An `int` is an unbounded integer here.
pub mod Delivery
pub mod KeySchedule
pub mod Receiving
pub mod Reference
pub mod Encodable
pub mod Safety
pub mod Window
pub mod Skipping
pub mod Stepping
use secure_messager_erlang.Prelude.{
  ℕ, zero, suc, ◌+◌, ◌-◌, ◌*◌, ◌/◌, ◌%◌, ◌^◌, ◌≤◌, ◌<◌, ◌≡◌, ◌≢◌, refl, sym, ap, ◌∙◌, ◌↔◌, ◌⊎◌, inl,
  inr, Bool, true, false, not, ◌&&◌, ◌||◌, List, [], ◌∷◌, ◌++◌, append_assoc, append-nil, arith,
  Option, none, some, Bytes, length, length-append, length-take, length-drop, take, drop,
  take-append, drop-append, take-append-drop, take_all, replicate, length-replicate, le→ltb, lt→ltb,
  ltb, leb, ◌==◌, ==_refl, if◌then◌else◌, Bool-cases, Option-cases, bytes_equal, bytes_equal_iff,
  bytes_equal_refl, ℤ, ℤ_eq, pos, negsuc, pos_part, neg_part, sub_ℕ, ◌+ℤ◌, ◌-ℤ◌, ◌≤ℤ◌, ltb_ℤ, eqb_ℤ,
  Eq, Assoc, lookup, insert, delete, lookup-insert, lookup-delete, length-insert, length-delete,
}
use secure_messager_erlang.Outcome.{
  Error, Outcome, ok, err, crash, ◌>>=◌, ◌>>◌, invalid_hash_length, insufficient_message_length,
  insufficient_message, failed_to_parse, invalid_message_key_index, too_many_skipped,
  already_processed, invalid_mac, no_matching_ratchet, packet_too_long, auth_not_set,
  invalid_packet_length, invalid_auth_token_length,
}
use secure_messager_erlang.Crypt.Library.{Crypto, CryptoLaws}
use secure_messager_erlang.Crypt.{
  KeyPair, key_length, encrypt_aes, decrypt_aes, generate_key_pair, generate_shared_secret,
  or_fatal,
}
use secure_messager_erlang.Ratchet.Hkdf.{derive}

abbrev pub max_message_skip : ℤ
max_message_skip = pos 100

abbrev pub nonce_length : ℕ
nonce_length = 12

abbrev pub salt_length : ℕ
salt_length = 64

-- The keys stored for messages that were skipped, by message index.
abbrev pub SkippedKeys : Type 0
SkippedKeys = Assoc ℤ Bytes

-- `chain_key` is `none` while it is nil. `skipped_message_keys` is the reference to the map.
pub record MessageRatchet : Type 0 where
  pub foreign_public_key : Bytes
  pub root_key : Bytes
  pub chain_key : Option Bytes
  pub skipped_message_keys : ℕ
  pub max_skip : ℤ
  pub previous_index : ℤ

-- `ref` is the map that `make` allocates.
unfoldable pub new_message_ratchet : ℕ → MessageRatchet
new_message_ratchet ref = record {
  foreign_public_key = [];
  root_key = [];
  chain_key = none;
  skipped_message_keys = ref;
  max_skip = max_message_skip;
  previous_index = negsuc 0;
}

unfoldable pub initialize : MessageRatchet → Bytes → Bytes → MessageRatchet
initialize m root_key foreign_public_key = record m {
  root_key = root_key;
  foreign_public_key = foreign_public_key;
}

-- []byte("Chain")
abbrev pub chain_info : Bytes
chain_info = b'C' ∷ b'h' ∷ b'a' ∷ b'i' ∷ b'n' ∷ []

module _ (c : Crypto) where
  -- Both branches of `CKCycle`: what is derived from `input` splits into the message key, which is
  -- returned, and the next chain key. A nil key is the empty slice.
  ck_cycle_from : Bytes → MessageRatchet → MessageRatchet × Bytes
  ck_cycle_from input m = elim (derive c input none chain_info 64) [
    | ok key_material ↦
        (record m { chain_key = some (drop key_length key_material) }, take key_length key_material)
    | _ ↦ (m, [])
  ]

  unfoldable pub ck_cycle : MessageRatchet → MessageRatchet × Bytes
  unfolding ck_cycle_from
  ck_cycle m = elim m.chain_key [
    | none ↦ ck_cycle_from m.root_key m
    | some chain_key ↦ ck_cycle_from chain_key m
  ]

  -- The part of `Encrypt` behind `CKCycle`: `nonce` is what `rand.Read` fills in, or its error.
  unfoldable pub encrypt_with_key : Bytes → Bytes → Outcome Bytes → Outcome (Bytes × Bytes)
  encrypt_with_key message_key plaintext nonce = do
    derived_key ← derive c message_key (some (replicate salt_length 0)) [] 64
    drawn ← nonce
    cipher_text ← encrypt_aes c (take key_length derived_key) plaintext drawn
    ok (drawn ++ cipher_text, c.hmac_sha256 (drop key_length derived_key) (drawn ++ cipher_text))

  -- The result is the message, its MAC and its index.
  unfoldable pub encrypt :
      MessageRatchet → Bytes → Outcome Bytes → MessageRatchet × Outcome (Bytes × Bytes × ℤ)
  encrypt m plaintext nonce =
      let (m', message_key) = ck_cycle m in
      let next_index = m.previous_index +ℤ pos 1 in
      elim (encrypt_with_key message_key plaintext nonce) [
        | ok (cipher_text, mac_hash) ↦
            (record m' { previous_index = next_index }, ok (cipher_text, mac_hash, next_index))
        | err e ↦ (m', err e)
        | crash ↦ (m', crash)
      ]

  -- cipherText[:NONCE_LENGTH] and cipherText[NONCE_LENGTH:] panic on a shorter slice.
  unfoldable pub decrypt_with_key : Bytes → Bytes → Bytes → Outcome Bytes
  decrypt_with_key cipher_text mac_hash message_key = do
    derived_key ← derive c message_key (some (replicate salt_length 0)) [] 64
    let encryption_key = take key_length derived_key
    let authentication_key = drop key_length derived_key
    if ltb (length cipher_text) nonce_length then crash else do
      let nonce = take nonce_length cipher_text
      let body = drop nonce_length cipher_text
      let expected_mac = c.hmac_sha256 authentication_key (nonce ++ body)
      if not (bytes_equal expected_mac mac_hash)
          then err invalid_mac
          else do plaintext ← decrypt_aes c encryption_key body nonce; ok plaintext

  -- The loop that stores the keys of skipped messages, `rounds` rounds from index `i` on.
  unfoldable pub skip_keys : ℕ → ℤ → SkippedKeys → MessageRatchet → SkippedKeys × MessageRatchet
  skip_keys zero i keys m = (keys, m)
  skip_keys (suc rounds) i keys m =
      skip_keys rounds (i +ℤ pos 1) (insert keys i (ck_cycle m).1) (ck_cycle m).0

  -- The end of `Decrypt`: the key of `msg_idx` itself.
  unfoldable pub take_key :
      SkippedKeys
      → MessageRatchet
      → Bytes
      → Bytes
      → ℤ
      → SkippedKeys × MessageRatchet × Outcome Bytes
  take_key keys m cipher_text mac_hash msg_idx =
      if ltb_ℤ m.previous_index msg_idx
      then (let (m', message_key) = ck_cycle m in
          (
            keys,
            record m' { previous_index = msg_idx },
            decrypt_with_key cipher_text mac_hash message_key,
          ))
      else (keys, m, err already_processed)

  -- `Decrypt` of an index with no stored key.
  unfoldable pub decrypt_new :
      SkippedKeys
      → MessageRatchet
      → Bytes
      → Bytes
      → ℤ
      → SkippedKeys × MessageRatchet × Outcome Bytes
  decrypt_new keys m cipher_text mac_hash msg_idx =
      if ltb_ℤ msg_idx (pos 0)
      then (keys, m, err invalid_message_key_index)
      else if ltb_ℤ (m.previous_index +ℤ pos 1) msg_idx
      then (let skipped = msg_idx -ℤ (m.previous_index +ℤ pos 1) in
          if ltb_ℤ m.max_skip skipped
          then (keys, m, err too_many_skipped)
          else (let (keys', m') = skip_keys (pos_part skipped) (m.previous_index +ℤ pos 1) keys m in
              take_key keys' m' cipher_text mac_hash msg_idx))
      else take_key keys m cipher_text mac_hash msg_idx

  -- A stored key is used once: `defer delete` removes it, whether or not the MAC is right.
  unfoldable pub decrypt :
      SkippedKeys
      → MessageRatchet
      → Bytes
      → Bytes
      → ℤ
      → SkippedKeys × MessageRatchet × Outcome Bytes
  decrypt keys m cipher_text mac_hash msg_idx = elim (lookup keys msg_idx) [
    | some msg_key ↦ (delete keys msg_idx, m, decrypt_with_key cipher_text mac_hash msg_key)
    | none ↦ decrypt_new keys m cipher_text mac_hash msg_idx
  ]
