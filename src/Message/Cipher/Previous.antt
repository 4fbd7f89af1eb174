-- ===== src/Message/Cipher/Previous.antt =====
-- client/internal/contact/message/message.go: `Decrypt` through a previous chain, and through a new
-- one.
use secure_messager_erlang.Prelude.{
  ℕ, ◌+◌, ◌≤◌, ◌≡◌, ap, ◌∙◌, false, List, arith, none, some, Bytes, bytes_equal, ℤ_eq, ℕ_eq,
  Bytes_eq, pos, lookup,
}
use secure_messager_erlang.Outcome.{ok}
use secure_messager_erlang.Crypt.Library.{Crypto, CryptoLaws}
use secure_messager_erlang.Crypt.{generate_shared_secret}
use secure_messager_erlang.Ratchet.DhRatchet.{
  DhRatchet, is_current_ratchet, find_ratchet, get_prev_ratchet, receiving,
}
use secure_messager_erlang.Message.{Message, hash_to_bytes}
use secure_messager_erlang.Message.Cipher.{Result, decrypt_current, decrypt_previous, decrypt}
use secure_messager_erlang.Ratchet.MessageRatchet
use secure_messager_erlang.Ratchet.MessageRatchet.{MessageRatchet, SkippedKeys, decrypt_with_key}
use secure_messager_erlang.Ratchet.MessageRatchet.Receiving.{InSync, decrypt_fresh, not_stored}
use secure_messager_erlang.Ratchet.MessageRatchet.Stepping.{decrypt_in_reach}
use secure_messager_erlang.Ratchet.DhRatchet.Cycle.{next_root, rk_cycle_lem}
use secure_messager_erlang.Message.Cipher.Delivery.{IsSealed, decrypt_by_cycle}

module _ (c : Crypto) where
  decrypt_by_previous :
      (m : Message) (r : DhRatchet) {prev : MessageRatchet}
      → is_current_ratchet r m.header.public_key ≡ false
      → get_prev_ratchet r m.header.public_key ≡ some prev
      → decrypt c m r ≡ decrypt_previous c m r prev
  unfolding decrypt
  decrypt_by_previous m r h1 h2 = ground (arith, h1, h2)

  -- The previous chains themselves are not written, whatever the message.
  decrypt_previous_keeps :
      (m : Message) (r : DhRatchet) (prev : MessageRatchet)
      → ((decrypt_previous c m r prev).1.previous_mratchets ≡ r.previous_mratchets)
        × ((decrypt_previous c m r prev).1.current_mratchet ≡ r.current_mratchet)
        × ((decrypt_previous c m r prev).1.maps.cell prev.skipped_message_keys
            ≡ (MessageRatchet.decrypt c
                (r.maps.cell prev.skipped_message_keys)
                prev
                m.encrypted_message
                m.hash
                m.header.index).0)
  unfolding decrypt_previous hash_to_bytes
  decrypt_previous_keeps m r prev = ground arith

  decrypt_previous_ok :
      (m : Message) (r : DhRatchet) (prev : MessageRatchet) {plaintext : Bytes}
      → (MessageRatchet.decrypt c
          (r.maps.cell prev.skipped_message_keys)
          prev
          m.encrypted_message
          m.hash
          m.header.index).2
        ≡ ok plaintext
      → ((decrypt_previous c m r prev).2 ≡ ok tt)
        × ((decrypt_previous c m r prev).0.plain_message ≡ plaintext)
  unfolding decrypt_previous hash_to_bytes
  decrypt_previous_ok m r prev h = ground (arith, h)

module _ (c : Crypto) (laws : CryptoLaws c) where
  -- A message of a previous chain can be replayed: the copy of the chain is thrown away, so a new
  -- index stays new, and the same message is accepted a second time with the same text.
  pub decrypt_previous_replay :
      (root : Bytes) (n j : ℕ) (m : Message) (r : DhRatchet) {prev : MessageRatchet}
      {plaintext : Bytes}
      → is_current_ratchet r m.header.public_key ≡ false
      → get_prev_ratchet r m.header.public_key ≡ some prev
      → InSync c root n (r.maps.cell prev.skipped_message_keys) prev
      → n ≤ j
      → j ≤ n + 100
      → IsSealed c root j plaintext m
      → ((decrypt c m r).2 ≡ ok tt)
        × ((decrypt c m r).0.plain_message ≡ plaintext)
        × ((decrypt c m (decrypt c m r).1).2 ≡ ok tt)
        × ((decrypt c m (decrypt c m r).1).0.plain_message ≡ plaintext)
  decrypt_previous_replay root n j m r {prev} {plaintext} h1 h2 sync lo hi s =
      let keys = r.maps.cell prev.skipped_message_keys in
      let r1 = (decrypt_previous c m r prev).1 in
      let (key, _, _, found) = decrypt_fresh c laws root sync m.encrypted_message m.hash j lo hi in
      let (same_list, same_current, written) = decrypt_previous_keeps c m r prev in
      let free : lookup (r1.maps.cell prev.skipped_message_keys) (pos j) ≡ none = ground (
        arith,
        written,
        s.index,
        found (pos j),
        not_stored c laws root sync m.encrypted_message m.hash j lo,
      ) in
      let (sent, plain) =
        decrypt_previous_ok c m r prev (at_index keys prev s.index (key ∙ s.opens)) in
      let again =
        decrypt_in_reach c laws root m.encrypted_message m.hash sync.follows
          (r1.maps.cell prev.skipped_message_keys) j free lo hi in
      let (sent', plain') =
        decrypt_previous_ok c m r1 prev
          (at_index (r1.maps.cell prev.skipped_message_keys) prev s.index (rw again s.opens)) in
      let still_not : is_current_ratchet r1 m.header.public_key ≡ false =
        unfold is_current_ratchet in
        ap (λ (k : MessageRatchet). bytes_equal k.foreign_public_key m.header.public_key)
          same_current
        ∙ h1 in
      let still_found : get_prev_ratchet r1 m.header.public_key ≡ some prev =
        unfold get_prev_ratchet in
        ap (λ (l : List MessageRatchet). find_ratchet l m.header.public_key) same_list ∙ h2 in
      rw (decrypt_by_previous c m r h1 h2) (
        sent,
        plain,
        ap (λ (x : Result). x.2) (decrypt_by_previous c m r1 still_not still_found) ∙ sent',
        ap (λ (x : Result). x.0.plain_message) (decrypt_by_previous c m r1 still_not still_found)
            ∙ plain',
      )
    where
      at_index :
          (k : SkippedKeys) (p : MessageRatchet)
          → m.header.index ≡ pos j
          → (MessageRatchet.decrypt c k p m.encrypted_message m.hash (pos j)).2 ≡ ok plaintext
          → (MessageRatchet.decrypt c k p m.encrypted_message m.hash m.header.index).2
            ≡ ok plaintext
      at_index k p e h = rw e h

  decrypt_current_root :
      (m : Message) (r : DhRatchet) → (decrypt_current c m r).1.root_key ≡ r.root_key
  unfolding decrypt_current
  decrypt_current_root m r = ground arith

  -- A message with a public key that is neither the current nor a previous one, and with which a secret
  -- can be computed, turns the root key, whether or not its MAC is right.
  pub decrypt_unchecked_turn :
      (m : Message) (r : DhRatchet) {secret : Bytes}
      → is_current_ratchet r m.header.public_key ≡ false
      → get_prev_ratchet r m.header.public_key ≡ none
      → generate_shared_secret c r.keypair m.header.public_key ≡ ok secret
      → (decrypt c m r).1.root_key ≡ next_root c r.root_key secret
  decrypt_unchecked_turn m r h1 h2 h3 =
      let (r1, cycled, at) = rk_cycle_lem c laws r (some m.header.public_key) h3 in
      ap (λ (x : Result). x.1.root_key) (decrypt_by_cycle c laws m r r1 h1 h2 cycled)
      ∙ decrypt_current_root m (record r1 { state = receiving })
      ∙ at.root
