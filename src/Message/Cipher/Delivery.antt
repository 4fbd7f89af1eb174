-- ===== src/Message/Cipher/Delivery.antt =====
-- client/internal/contact/message/message.go: a message that one side encrypts and the other
-- decrypts, within a chain and across a turn of the conversation.
use secure_messager_erlang.Prelude.{
  ℕ, ◌^◌, ◌<◌, ◌≡◌, sym, ap, ◌∙◌, inl, false, arith, none, some, Bytes, length, bytes_equal_iff,
  ℤ_eq, ℕ_eq, Bytes_eq, pos,
}
use secure_messager_erlang.Outcome.{ok}
use secure_messager_erlang.Crypt.Library.{Crypto, CryptoLaws}
use secure_messager_erlang.Crypt.{KeyPair, generate_key_pair, generate_shared_secret, or_fatal}
use secure_messager_erlang.Ratchet.DhRatchet.{
  DhRatchet, current_keys, is_current_ratchet, get_prev_ratchet, rk_cycle, sending, receiving,
}
use secure_messager_erlang.Message.{Message, bytes_to_hash, hash_to_bytes}
use secure_messager_erlang.Message.Cipher.{
  Draws, turn_to_sending, encrypt, decrypt_current, decrypt,
}
use secure_messager_erlang.Ratchet.MessageRatchet.{decrypt_with_key}
use secure_messager_erlang.Ratchet.MessageRatchet.KeySchedule.{Follows, message_key_at}
use secure_messager_erlang.Ratchet.MessageRatchet.Receiving.{InSync}
use secure_messager_erlang.Ratchet.MessageRatchet.Delivery.{
  encrypt_lem, IsDecryptable, decrypt_uses_message_key,
}
use secure_messager_erlang.Ratchet.DhRatchet.Cycle.{next_root, rk_cycle_lem}
use secure_messager_erlang.Crypt.Laws.{generate_key_pair_public, generate_shared_secret_agree}
use secure_messager_erlang.Message.Wire.Format.{delivered, HasWireSizes}

-- What a message is after it was encrypted under the key `j` of a chain.
pub record IsSealed (c : Crypto) (root : Bytes) (j : ℕ) (plaintext : Bytes) (m : Message)
    : Type 0 where
  pub opens : decrypt_with_key c m.encrypted_message m.hash (message_key_at c root j) ≡ ok plaintext
  pub index : m.header.index ≡ pos j

module _ (c : Crypto) (laws : CryptoLaws c) where
  -- Once the ratchet is ready to send, `Encrypt` seals the text under the next key of its chain.
  encrypt_ready :
      (root : Bytes) (j : ℕ) (m : Message) (r r1 : DhRatchet) (draws : Draws) (nonce : Bytes)
      → turn_to_sending c r draws.private_key ≡ ok r1
      → Follows c root j r1.current_mratchet
      → draws.nonce ≡ ok nonce
      → length nonce ≡ 12
      → ((encrypt c m r draws).2 ≡ ok tt)
        × IsSealed c root j m.plain_message (encrypt c m r draws).0
        × ((encrypt c m r draws).0.header.public_key ≡ r1.keypair.public_key)
  unfolding encrypt bytes_to_hash
  encrypt_ready root j m r r1 draws nonce ready h hn len =
      let (ct, mac, sent, opened, _, _, len_mac) =
        encrypt_lem c laws root j r1.current_mratchet m.plain_message nonce h len in
      ground (arith, ready, hn, sent, opened, len_mac)

  encrypt_ready_hash :
      (root : Bytes) (j : ℕ) (m : Message) (r r1 : DhRatchet) (draws : Draws) (nonce : Bytes)
      → turn_to_sending c r draws.private_key ≡ ok r1
      → Follows c root j r1.current_mratchet
      → draws.nonce ≡ ok nonce
      → length nonce ≡ 12
      → length (encrypt c m r draws).0.hash ≡ 32
  unfolding encrypt bytes_to_hash
  encrypt_ready_hash root j m r r1 draws nonce ready h hn len =
      let (ct, mac, sent, _, _, _, len_mac) =
        encrypt_lem c laws root j r1.current_mratchet m.plain_message nonce h len in
      ground (arith, ready, hn, sent, len_mac)

  -- What was sealed has its places on the wire.
  encrypt_ready-HasWireSizes :
      (root : Bytes) (j : ℕ) (m : Message) (r r1 : DhRatchet) (draws : Draws) (nonce : Bytes)
      → turn_to_sending c r draws.private_key ≡ ok r1
      → Follows c root j r1.current_mratchet
      → draws.nonce ≡ ok nonce
      → length nonce ≡ 12
      → length r1.keypair.public_key ≡ 32
      → j < 2 ^ 63
      → HasWireSizes (encrypt c m r draws).0
  encrypt_ready-HasWireSizes root j m r r1 draws nonce ready h hn len key fits =
      let (_, sealed, public_key) = encrypt_ready root j m r r1 draws nonce ready h hn len in
      record {
        public_key = ap length public_key ∙ key;
        index = rw sealed.index (fits, omega arith);
        hash = encrypt_ready_hash root j m r r1 draws nonce ready h hn len;
      }

  pub encrypt_same_chain-HasWireSizes :
      (root : Bytes) (j : ℕ) (m : Message) (a : DhRatchet) (draws : Draws) (nonce : Bytes)
      → a.state ≡ sending
      → Follows c root j a.current_mratchet
      → draws.nonce ≡ ok nonce
      → length nonce ≡ 12
      → length a.keypair.public_key ≡ 32
      → j < 2 ^ 63
      → HasWireSizes (encrypt c m a draws).0
  unfolding turn_to_sending
  encrypt_same_chain-HasWireSizes root j m a draws nonce ha hf hn len key fits =
      encrypt_ready-HasWireSizes root j m a a draws nonce (ground (arith, ha)) hf hn len key fits

  -- The current chain of the receiver opens what was sealed under the same root key.
  decrypt_current_sealed :
      (root : Bytes) (n j : ℕ) (m : Message) (r : DhRatchet) {plaintext : Bytes}
      → InSync c root n (current_keys r) r.current_mratchet
      → IsDecryptable n j (current_keys r)
      → IsSealed c root j plaintext m
      → ((decrypt_current c m r).2 ≡ ok tt) × ((decrypt_current c m r).0.plain_message ≡ plaintext)
  unfolding decrypt_current hash_to_bytes
  decrypt_current_sealed root n j m r sync reach s = ground (
    arith,
    s.index,
    s.opens,
    decrypt_uses_message_key c laws root j m.encrypted_message m.hash sync reach,
  )

  decrypt_by_current :
      (m : Message) (r : DhRatchet)
      → r.current_mratchet.foreign_public_key ≡ m.header.public_key
      → decrypt c m r ≡ decrypt_current c m r
  unfolding decrypt is_current_ratchet
  decrypt_by_current m r h =
      ground
        (arith, (bytes_equal_iff r.current_mratchet.foreign_public_key m.header.public_key).1 h)

  -- Within a chain: the sender is at message `j`, the receiver has handled the first `n` under the
  -- same root key and knows the sender's public key.
  pub decrypt-encrypt_same_chain :
      (root : Bytes) (n j : ℕ) (m : Message) (a b : DhRatchet) (draws : Draws)
      (receiver sender nonce : Bytes)
      → a.state ≡ sending
      → Follows c root j a.current_mratchet
      → InSync c root n (current_keys b) b.current_mratchet
      → b.current_mratchet.foreign_public_key ≡ a.keypair.public_key
      → IsDecryptable n j (current_keys b)
      → draws.nonce ≡ ok nonce
      → length nonce ≡ 12
      → ((encrypt c m a draws).2 ≡ ok tt)
        × ((decrypt c (delivered receiver sender (encrypt c m a draws).0) b).2 ≡ ok tt)
        × ((decrypt c (delivered receiver sender (encrypt c m a draws).0) b).0.plain_message
            ≡ m.plain_message)
  decrypt-encrypt_same_chain root n j m a b draws receiver sender nonce ha hf sync known reach hn
        len =
      let (sent, sealed, key) =
        encrypt_ready root j m a a draws nonce (unfold turn_to_sending in ground (arith, ha)) hf hn
          len in
      let w = delivered receiver sender (encrypt c m a draws).0 in
      let (done, plain) =
        decrypt_current_sealed root n j w b sync reach
          (record { opens = sealed.opens; index = sealed.index }) in
      rw (decrypt_by_current w b (known ∙ sym key)) (sent, done, plain)

  -- A new public key makes the receiver turn its root key and use the new chain.
  pub decrypt_by_cycle :
      (m : Message) (b b1 : DhRatchet)
      → is_current_ratchet b m.header.public_key ≡ false
      → get_prev_ratchet b m.header.public_key ≡ none
      → rk_cycle c b (some m.header.public_key) ≡ ok b1
      → decrypt c m b ≡ decrypt_current c m (record b1 { state = receiving })
  unfolding decrypt
  decrypt_by_cycle m b b1 h1 h2 h3 = ground (arith, h1, h2, h3)

  -- Across a turn: `a` was receiving and answers with a new key pair `fresh`. Both sides have the
  -- same root key, `a`'s current chain was made with `b`'s key pair, and `b` has not seen the new
  -- public key before. Then `b` reads the answer.
  pub decrypt-encrypt_turn :
      (m : Message) (a b : DhRatchet) (draws : Draws) (receiver sender nonce : Bytes)
      {fresh : KeyPair} {secret : Bytes}
      → a.state ≡ receiving
      → a.root_key ≡ b.root_key
      → generate_key_pair c draws.private_key ≡ ok fresh
      → c.x25519 b.keypair.private_key c.basepoint ≡ ok b.keypair.public_key
      → a.current_mratchet.foreign_public_key ≡ b.keypair.public_key
      → generate_shared_secret c fresh b.keypair.public_key ≡ ok secret
      → is_current_ratchet b fresh.public_key ≡ false
      → get_prev_ratchet b fresh.public_key ≡ none
      → draws.nonce ≡ ok nonce
      → length nonce ≡ 12
      → ((encrypt c m a draws).2 ≡ ok tt)
        × ((decrypt c (delivered receiver sender (encrypt c m a draws).0) b).2 ≡ ok tt)
        × ((decrypt c (delivered receiver sender (encrypt c m a draws).0) b).0.plain_message
            ≡ m.plain_message)
  decrypt-encrypt_turn m a b draws receiver sender nonce {fresh} {secret} ha same drawn genuine
        known shared new unseen hn len =
      let turned = record a { state = sending; keypair = fresh } in
      let shared_a : generate_shared_secret c fresh a.current_mratchet.foreign_public_key
          ≡ ok secret =
        ap (λ (k : Bytes). generate_shared_secret c fresh k) known ∙ shared in
      let (a1, cycled, at_a) = rk_cycle_lem c laws turned none shared_a in
      let root = next_root c b.root_key secret in
      let ready : turn_to_sending c a draws.private_key ≡ ok a1 =
        unfold turn_to_sending or_fatal in ground (arith, ha, drawn, cycled) in
      let follows : Follows c root 0 a1.current_mratchet = rw (← same) at_a.in_sync.follows in
      let (sent, sealed, key) = encrypt_ready root 0 m a a1 draws nonce ready follows hn len in
      let w = delivered receiver sender (encrypt c m a draws).0 in
      let header : w.header.public_key ≡ fresh.public_key =
        key ∙ ap (λ (k : KeyPair). k.public_key) at_a.keypair in
      let (b1, cycled_b, at_b) = rk_cycle_lem c laws b (some fresh.public_key) (
        sym (
          generate_shared_secret_agree c laws fresh b.keypair
            (generate_key_pair_public c laws draws.private_key drawn) genuine)
        ∙ shared) in
      let (done, plain) =
        decrypt_current_sealed root 0 0 w (record b1 { state = receiving }) at_b.in_sync
          (inl (omega arith)) (record { opens = sealed.opens; index = sealed.index }) in
      rw (decrypt_by_cycle w b b1 (rw header new) (rw header unseen) (rw header cycled_b))
        (sent, done, plain)

  pub encrypt_turn-HasWireSizes :
      (m : Message) (a : DhRatchet) (draws : Draws) (nonce : Bytes) {fresh : KeyPair}
      {secret : Bytes}
      → a.state ≡ receiving
      → generate_key_pair c draws.private_key ≡ ok fresh
      → generate_shared_secret c fresh a.current_mratchet.foreign_public_key ≡ ok secret
      → draws.nonce ≡ ok nonce
      → length nonce ≡ 12
      → length fresh.public_key ≡ 32
      → HasWireSizes (encrypt c m a draws).0
  encrypt_turn-HasWireSizes m a draws nonce {fresh} {secret} ha drawn shared hn len key =
      let turned = record a { state = sending; keypair = fresh } in
      let (a1, cycled, at_a) = rk_cycle_lem c laws turned none shared in
      let ready : turn_to_sending c a draws.private_key ≡ ok a1 =
        unfold turn_to_sending or_fatal in ground (arith, ha, drawn, cycled) in
      encrypt_ready-HasWireSizes (next_root c a.root_key secret) 0 m a a1 draws nonce ready
        at_a.in_sync.follows hn len (ap (λ (k : KeyPair). length k.public_key) at_a.keypair ∙ key)
        (omega arith)
