-- ===== src/Ratchet/MessageRatchet/Delivery.antt =====
-- client/internal/contact/ratchet/mratchet.go: `Encrypt` on one side and `Decrypt` on the other, in
-- order, out of order, and again.
use secure_messager_erlang.Prelude.{
  ℕ, suc, ◌+◌, ◌≤◌, ◌<◌, ◌≡◌, refl, ap, ◌∙◌, ◌⊎◌, inl, inr, [], ◌++◌, arith, some, Bytes, length,
  length-append, length-take, take, drop, take-append, drop-append, replicate, bytes_equal_refl, ℤ,
  ℤ_eq, ℕ_eq, Bytes_eq, pos, ◌+ℤ◌, lookup, delete,
}
use secure_messager_erlang.Outcome.{Outcome, ok}
use secure_messager_erlang.Crypt.Library.{Crypto, CryptoLaws}
use secure_messager_erlang.Ratchet.MessageRatchet.{
  SkippedKeys, MessageRatchet, ck_cycle, decrypt, encrypt, encrypt_with_key, decrypt_with_key,
  salt_length,
}
use secure_messager_erlang.Ratchet.MessageRatchet.KeySchedule.{message_key_at, Follows}
use secure_messager_erlang.Ratchet.MessageRatchet.Skipping.{SameSetup, ck_cycle_steps}
use secure_messager_erlang.Ratchet.MessageRatchet.Stepping.{next_index, pos_pred}
use secure_messager_erlang.Ratchet.MessageRatchet.Receiving.{InSync, decrypt_fresh}
use secure_messager_erlang.Ratchet.Hkdf.Rfc5869.{derive-rfc5869}
use secure_messager_erlang.Crypt.Laws.{decrypt_aes-encrypt_aes}

-- Message `j` can be decrypted: it is new and in reach, or it was skipped and its key is stored.
abbrev pub IsDecryptable : ℕ → ℕ → SkippedKeys → Type 0
IsDecryptable n j keys = ((n ≤ j) × (j ≤ n + 100)) ⊎ ((k : Bytes) × (lookup keys (pos j) ≡ some k))

module _ (c : Crypto) (laws : CryptoLaws c) where
  -- What is encrypted under a message key decrypts under it.
  pub decrypt_with_key-encrypt_with_key :
      (key plaintext nonce : Bytes)
      → length nonce ≡ 12
      → (ct : Bytes) × (mac : Bytes) × (encrypt_with_key c key plaintext (ok nonce) ≡ ok (ct, mac))
        × (decrypt_with_key c ct mac key ≡ ok plaintext)
        × (12 ≤ length ct)
        × (length mac ≡ 32)
  unfolding encrypt_with_key decrypt_with_key
  decrypt_with_key-encrypt_with_key key plaintext nonce h =
      let (okm, derived, len, _) =
        derive-rfc5869 c laws key (some (replicate salt_length 0)) [] 64 (omega arith) in
      let (body, sealed, opened) =
        decrypt_aes-encrypt_aes c laws (take 32 okm) plaintext nonce
          (omega (arith, length-take 32 okm, len)) h in
      let mac = c.hmac_sha256 (drop 32 okm) (nonce ++ body) in
      (
        nonce ++ body,
        mac,
        ground (arith, derived, sealed),
        ground (
          arith,
          derived,
          opened,
          take-append 12 nonce body h,
          drop-append 12 nonce body h,
          length-append nonce body,
          bytes_equal_refl mac,
        ),
        omega (arith, length-append nonce body),
        laws.length-hmac_sha256 (drop 32 okm) (nonce ++ body),
      )

  encrypt_step :
      (m : MessageRatchet) (plaintext : Bytes) (nonce : Outcome Bytes) {ct mac : Bytes}
      → encrypt_with_key c (ck_cycle c m).1 plaintext nonce ≡ ok (ct, mac)
      → encrypt c m plaintext nonce ≡ (
        record (ck_cycle c m).0 { previous_index = m.previous_index +ℤ pos 1 },
        ok (ct, mac, m.previous_index +ℤ pos 1),
      )
  unfolding encrypt
  encrypt_step m plaintext nonce h = rw (h, encrypt) refl

  -- `Encrypt` uses the key of the next message and moves one step on.
  pub encrypt_lem :
      (root : Bytes) (n : ℕ) (m : MessageRatchet) (plaintext nonce : Bytes)
      → Follows c root n m
      → length nonce ≡ 12
      → (ct : Bytes) × (mac : Bytes) × ((encrypt c m plaintext (ok nonce)).1 ≡ ok (ct, mac, pos n))
        × (decrypt_with_key c ct mac (message_key_at c root n) ≡ ok plaintext)
        × Follows c root (suc n) (encrypt c m plaintext (ok nonce)).0
        × SameSetup m (encrypt c m plaintext (ok nonce)).0
        × (length mac ≡ 32)
  encrypt_lem root n m plaintext nonce h hn =
      let (input, key, setup, _) = ck_cycle_steps c laws root n m h.input in
      let (ct, mac, sealed, opened, _, len) =
        decrypt_with_key-encrypt_with_key (message_key_at c root n) plaintext nonce hn in
      let index = next_index n m.previous_index h.index in
      rw (encrypt_step m plaintext (ok nonce) {ct = ct} {mac = mac} (rw key sealed)) (
        ct,
        mac,
        ap (λ (i : ℤ). ok (ct, mac, i)) index,
        opened,
        record { input = input; index = index ∙ pos_pred n; bound = setup.skip ∙ h.bound },
        record {
          foreign = setup.foreign;
          root = setup.root;
          map_ref = setup.map_ref;
          skip = setup.skip;
        },
        len,
      )

  -- A stored key is the right one.
  decrypt_stored :
      (root : Bytes) {n : ℕ} (j : ℕ) {keys : SkippedKeys} {m : MessageRatchet} {k : Bytes}
      → InSync c root n keys m
      → (ct mac : Bytes) → lookup keys (pos j) ≡ some k
      → decrypt c keys m ct mac (pos j)
        ≡ (delete keys (pos j), m, decrypt_with_key c ct mac (message_key_at c root j))
  unfolding decrypt
  decrypt_stored root {n} j {keys} {m} {k} sync ct mac e =
      let (i, same, _, key) = sync.held.old (pos j) k e in ground (arith, e, same, key)

  pub decrypt_uses_message_key :
      (root : Bytes) {n : ℕ} (j : ℕ) {keys : SkippedKeys} {m : MessageRatchet} (ct mac : Bytes)
      → InSync c root n keys m
      → IsDecryptable n j keys
      → (decrypt c keys m ct mac (pos j)).2 ≡ decrypt_with_key c ct mac (message_key_at c root j)
  decrypt_uses_message_key root j ct mac sync (inl (lo, hi)) =
      (decrypt_fresh c laws root sync ct mac j lo hi).0
  decrypt_uses_message_key root j ct mac sync (inr (k, e)) =
      rw (decrypt_stored root j sync ct mac e) refl

  -- A sender that has gone `j` steps from a root key encrypts with a nonce of 12 bytes, and gives the
  -- message the index `j`. A receiver in step with the same root key gets back the plaintext, if `j` is
  -- at most 100 ahead of it or was skipped before and its key is still stored.
  pub decrypt-encrypt :
      (root : Bytes) (n j : ℕ) (sender receiver : MessageRatchet) (keys : SkippedKeys)
      (plaintext nonce : Bytes)
      → Follows c root j sender
      → InSync c root n keys receiver
      → length nonce ≡ 12
      → IsDecryptable n j keys
      → (ct : Bytes) × (mac : Bytes) × ((encrypt c sender plaintext (ok nonce)).1
          ≡ ok (ct, mac, pos j))
        × ((decrypt c keys receiver ct mac (pos j)).2 ≡ ok plaintext)
  decrypt-encrypt root n j sender receiver keys plaintext nonce h sync hn reach =
      let (ct, mac, sent, opened, _, _, _) = encrypt_lem root j sender plaintext nonce h hn in
      (ct, mac, sent, decrypt_uses_message_key root j ct mac sync reach ∙ opened)

  -- Out of order: whatever arrived at a later index `later` in reach, the message at `j` between is
  -- decrypted afterwards, from its stored key.
  pub decrypt_out_of_order :
      (root : Bytes) (n j later : ℕ) (sender receiver : MessageRatchet) (keys : SkippedKeys)
      (plaintext nonce first_ct first_mac : Bytes)
      → Follows c root j sender
      → InSync c root n keys receiver
      → length nonce ≡ 12
      → n ≤ j
      → j < later
      → later ≤ n + 100
      → (ct : Bytes) × (mac : Bytes) × ((encrypt c sender plaintext (ok nonce)).1
          ≡ ok (ct, mac, pos j))
        × ((decrypt c
              (decrypt c keys receiver first_ct first_mac (pos later)).0
              (decrypt c keys receiver first_ct first_mac (pos later)).1
              ct
              mac
              (pos j)).2
            ≡ ok plaintext)
  decrypt_out_of_order root n j later sender receiver keys plaintext nonce first_ct first_mac h sync
        hn lo mid hi =
      let (_, sync', _, found) =
        decrypt_fresh c laws root sync first_ct first_mac later (omega arith) hi in
      decrypt-encrypt root (suc later) j sender
        (decrypt c keys receiver first_ct first_mac (pos later)).1
        (decrypt c keys receiver first_ct first_mac (pos later)).0 plaintext nonce h sync' hn
        (inr (message_key_at c root j, ground (arith, found (pos j))))
