-- ===== src/Message/Cipher.antt =====
-- client/internal/contact/message/message.go: `Encrypt` and `Decrypt` of a message by a ratchet,
-- with the state of both after every return.
pub mod Delivery
pub mod Previous
pub mod ByValue
pub mod Refinement
pub mod Sealing
pub mod Restart
pub mod Buried
pub mod Encodable
use secure_messager_erlang.Prelude.{
  ℕ, zero, suc, ◌+◌, ◌-◌, ◌*◌, ◌/◌, ◌%◌, ◌^◌, ◌≤◌, ◌<◌, ◌≡◌, ◌≢◌, refl, sym, ap, ◌∙◌, ◌↔◌, ◌⊎◌, inl,
  inr, Bool, true, false, not, ◌&&◌, ◌||◌, List, [], ◌∷◌, ◌++◌, append_assoc, append-nil, arith,
  Option, none, some, Bytes, length, length-append, length-take, length-drop, take, drop,
  take-append, drop-append, take-append-drop, take_all, replicate, length-replicate, le→ltb, lt→ltb,
  ltb, leb, ◌==◌, ==_refl, if◌then◌else◌, Bool-cases, Option-cases, bytes_equal, bytes_equal_iff,
  bytes_equal_refl, ℤ, ℤ_eq, ℕ_eq, Bytes_eq, pos, negsuc, pos_part, neg_part, sub_ℕ, ◌+ℤ◌, ◌-ℤ◌,
  ◌≤ℤ◌, ltb_ℤ, eqb_ℤ, Eq, Assoc, lookup, insert, delete, lookup-insert, lookup-delete,
  length-insert, length-delete,
}
use secure_messager_erlang.Outcome.{
  Error, Outcome, ok, err, crash, ◌>>=◌, ◌>>◌, invalid_hash_length, insufficient_message_length,
  insufficient_message, failed_to_parse, invalid_message_key_index, too_many_skipped,
  already_processed, invalid_mac, no_matching_ratchet, packet_too_long, auth_not_set,
  invalid_packet_length, invalid_auth_token_length,
}
use secure_messager_erlang.Crypt.Library.{Crypto, CryptoLaws}
use secure_messager_erlang.Crypt.{
  KeyPair, key_length, encrypt_aes, decrypt_aes, generate_key_pair, generate_shared_secret,
  or_fatal,
}
use secure_messager_erlang.Ratchet.DhRatchet.{
  DhRatchet, current_keys, Maps, make_map, store_map, is_current_ratchet, get_prev_ratchet,
  store_current, start_chain, rk_cycle, new_dh_ratchet, RatchetState, sending, receiving,
}
use secure_messager_erlang.Message.{
  Message, MessageHeader, bytes_to_hash, hash_to_bytes, hash_length, new_plain_message,
}
use secure_messager_erlang.Ratchet.MessageRatchet
use secure_messager_erlang.Ratchet.MessageRatchet.{MessageRatchet, SkippedKeys}

-- What `rand.Read` fills in, or its errors: the new private key and the nonce.
pub record Draws : Type 0 where
  pub private_key : Outcome Bytes
  pub nonce : Outcome Bytes

-- The message, the ratchet and the error or nil that a call leaves.
abbrev pub Result : Type 0
Result = Message × DhRatchet × Outcome (Unit {0})

module _ (c : Crypto) where
  -- "if ratchet was last used for receiving"
  unfoldable pub turn_to_sending : DhRatchet → Outcome Bytes → Outcome DhRatchet
  turn_to_sending r private_key = elim r.state [
    | sending ↦ ok r
    | receiving ↦ do
      new_key_pair ← or_fatal (generate_key_pair c private_key)
      rk_cycle c (record r { state = sending; keypair = new_key_pair }) none
  ]

  -- The fields that `Encrypt` sets once the ratchet `r` has encrypted the text.
  abbrev pub fill_message : Message → DhRatchet → Bytes × Bytes × ℤ → Result
  fill_message m r (encrypted_message, hash_bytes, idx) = elim (bytes_to_hash hash_bytes) [
    | ok hash ↦ (
      record m {
        encrypted_message = encrypted_message;
        hash = hash;
        header = record m.header { index = idx; public_key = r.keypair.public_key };
      },
      r,
      ok tt,
    )
    | err e ↦ (m, r, err e)
    | crash ↦ (m, r, crash)
  ]

  -- The part of `Encrypt` behind the turn.
  abbrev pub encrypt_current : Message → DhRatchet → Outcome Bytes → Result
  encrypt_current m r nonce =
      let (mratchet, sealed) = MessageRatchet.encrypt c r.current_mratchet m.plain_message nonce in
      let r1 = record r { current_mratchet = mratchet } in
      elim sealed [ ok s ↦ fill_message m r1 s | err e ↦ (m, r1, err e) | crash ↦ (m, r1, crash) ]

  unfoldable pub encrypt : Message → DhRatchet → Draws → Result
  encrypt m r draws = elim (turn_to_sending r draws.private_key) [
    | err e ↦ (m, r, err e)
    | crash ↦ (m, r, crash)
    | ok r1 ↦ encrypt_current m r1 draws.nonce
  ]

  -- `PlainMessage` is set only if there is no error.
  abbrev pub set_plain :
      {R : Type 0} → Message → R → Outcome Bytes → Message × R × Outcome (Unit {0})
  set_plain m r (ok plaintext) = (record m { plain_message = plaintext }, r, ok tt)
  set_plain m r (err e) = (m, r, err e)
  set_plain m r crash = (m, r, crash)

  -- r.CurrentMRatchet.Decrypt: the chain and its map of skipped keys are written.
  unfoldable pub decrypt_current : Message → DhRatchet → Result
  decrypt_current m r =
      let ref = r.current_mratchet.skipped_message_keys in
      let (keys, mratchet, plaintext) =
        MessageRatchet.decrypt c (r.maps.cell ref) r.current_mratchet m.encrypted_message
          (hash_to_bytes m.hash) m.header.index in
      set_plain m (record r { current_mratchet = mratchet; maps = store_map r.maps ref keys })
        plaintext

  -- prevRatchet.Decrypt: `prev` is a copy, so that only its map of skipped keys is written.
  unfoldable pub decrypt_previous : Message → DhRatchet → MessageRatchet → Result
  decrypt_previous m r prev =
      let ref = prev.skipped_message_keys in
      let (keys, _, plaintext) =
        MessageRatchet.decrypt c (r.maps.cell ref) prev m.encrypted_message (hash_to_bytes m.hash)
          m.header.index in
      set_plain m (record r { maps = store_map r.maps ref keys }) plaintext

  unfoldable pub decrypt : Message → DhRatchet → Result
  decrypt m r =
      if is_current_ratchet r m.header.public_key
      then decrypt_current m r
      else (elim (get_prev_ratchet r m.header.public_key) [
        | some prev_ratchet ↦ decrypt_previous m r prev_ratchet
        | none ↦
            if not (is_current_ratchet r m.header.public_key)
            then elim (rk_cycle c r (some m.header.public_key)) [
              | ok r1 ↦ decrypt_current m (record r1 { state = receiving })
              | err e ↦ (m, r, err e)
              | crash ↦ (m, r, crash)
            ]
            else (m, r, err no_matching_ratchet)
      ])
