-- ===== src/Ratchet/MessageRatchet/Reference.antt =====
-- client/internal/contact/ratchet/mratchet.go: a method of a chain does not depend on where the chain's
-- map of skipped keys stands.
use secure_messager_erlang.Prelude.{
  ℤ_eq, ℕ, zero, suc, ◌≡◌, refl, arith, Option-cases, inl, inr, none, lookup, ℤ, pos, ◌+ℤ◌, ◌-ℤ◌,
  pos_part, Bytes, insert, ap,
}
use secure_messager_erlang.Outcome.{Outcome, Outcome-cases}
use secure_messager_erlang.Crypt.Library.{Crypto}
use secure_messager_erlang.Ratchet.Hkdf.{derive}
use secure_messager_erlang.Ratchet.MessageRatchet.{
  MessageRatchet, SkippedKeys, ck_cycle, ck_cycle_from, encrypt, encrypt_with_key, skip_keys,
  take_key, decrypt_new, decrypt, chain_info,
}

-- The chain with its map at `i`.
abbrev pub at_ref : ℕ → MessageRatchet → MessageRatchet
at_ref i m = record m { skipped_message_keys = i }

abbrev pub moved {ℓ} :
    {A : Type ℓ} → ℕ → SkippedKeys × MessageRatchet × A → SkippedKeys × MessageRatchet × A
moved i (keys, m, a) = (keys, at_ref i m, a)

module _ (c : Crypto) where
  ck_cycle_from-at_ref :
      (i : ℕ) (input : Bytes) (m : MessageRatchet)
      → ck_cycle_from c input (at_ref i m)
        ≡ (at_ref i (ck_cycle_from c input m).0, (ck_cycle_from c input m).1)
  unfolding ck_cycle_from
  ck_cycle_from-at_ref i input m = elim (Outcome-cases (derive c input none chain_info 64)) [
    | inl (b, e) ↦ ground (arith, e)
    | inr (inl (x, e)) ↦ ground (arith, e)
    | inr (inr e) ↦ ground (arith, e)
  ]

  pub ck_cycle-at_ref :
      (i : ℕ) (m : MessageRatchet)
      → ck_cycle c (at_ref i m) ≡ (at_ref i (ck_cycle c m).0, (ck_cycle c m).1)
  unfolding ck_cycle
  ck_cycle-at_ref i m = elim (Option-cases m.chain_key) [
    | inl e ↦ ground (arith, e, ck_cycle_from-at_ref i m.root_key m)
    | inr (k, e) ↦ ground (arith, e, ck_cycle_from-at_ref i k m)
  ]

  skip_keys-at_ref :
      (i rounds : ℕ) (j : ℤ) (keys : SkippedKeys) (m : MessageRatchet)
      → skip_keys c rounds j keys (at_ref i m)
        ≡ ((skip_keys c rounds j keys m).0, at_ref i (skip_keys c rounds j keys m).1)
  unfolding skip_keys
  skip_keys-at_ref i zero j keys m = refl
  skip_keys-at_ref i (suc rounds) j keys m =
      rw (ck_cycle-at_ref i m)
        (skip_keys-at_ref i rounds (j +ℤ pos 1) (insert keys j (ck_cycle c m).1) (ck_cycle c m).0)

  take_key-at_ref :
      (i : ℕ) (keys : SkippedKeys) (m : MessageRatchet) (cipher_text mac_hash : Bytes) (j : ℤ)
      → take_key c keys (at_ref i m) cipher_text mac_hash j
        ≡ moved i (take_key c keys m cipher_text mac_hash j)
  unfolding take_key
  take_key-at_ref i keys m cipher_text mac_hash j = ground (arith, ck_cycle-at_ref i m)

  decrypt_new-at_ref :
      (i : ℕ) (keys : SkippedKeys) (m : MessageRatchet) (cipher_text mac_hash : Bytes) (j : ℤ)
      → decrypt_new c keys (at_ref i m) cipher_text mac_hash j
        ≡ moved i (decrypt_new c keys m cipher_text mac_hash j)
  unfolding decrypt_new
  decrypt_new-at_ref i keys m cipher_text mac_hash j =
      let rounds = pos_part (j -ℤ (m.previous_index +ℤ pos 1)) in
      let first = m.previous_index +ℤ pos 1 in
      let skipped = skip_keys c rounds first keys m in
      ground (
        arith,
        skip_keys-at_ref i rounds first keys m,
        take_key-at_ref i skipped.0 skipped.1 cipher_text mac_hash j,
        take_key-at_ref i keys m cipher_text mac_hash j,
      )

  -- `Decrypt` of the chain with its map elsewhere.
  pub decrypt-at_ref :
      (i : ℕ) (keys : SkippedKeys) (m : MessageRatchet) (cipher_text mac_hash : Bytes) (j : ℤ)
      → decrypt c keys (at_ref i m) cipher_text mac_hash j
        ≡ moved i (decrypt c keys m cipher_text mac_hash j)
  unfolding decrypt
  decrypt-at_ref i keys m cipher_text mac_hash j = elim (Option-cases (lookup keys j)) [
    | inl e ↦ ground (arith, e, decrypt_new-at_ref i keys m cipher_text mac_hash j)
    | inr (k, e) ↦ ground (arith, e)
  ]

  -- `Encrypt` likewise.
  pub encrypt-at_ref :
      (i : ℕ) (m : MessageRatchet) (plaintext : Bytes) (nonce : Outcome Bytes)
      → encrypt c (at_ref i m) plaintext nonce
        ≡ (at_ref i (encrypt c m plaintext nonce).0, (encrypt c m plaintext nonce).1)
  unfolding encrypt
  encrypt-at_ref i m plaintext nonce =
      elim (Outcome-cases (encrypt_with_key c (ck_cycle c m).1 plaintext nonce)) [
        | inl (b, e) ↦ ground (arith, e, ck_cycle-at_ref i m)
        | inr (inl (x, e)) ↦ ground (arith, e, ck_cycle-at_ref i m)
        | inr (inr e) ↦ ground (arith, e, ck_cycle-at_ref i m)
      ]

  -- The chain keeps its map.
  pub decrypt-ref :
      (keys : SkippedKeys) (m : MessageRatchet) (cipher_text mac_hash : Bytes) (j : ℤ)
      → (decrypt c keys m cipher_text mac_hash j).1.skipped_message_keys ≡ m.skipped_message_keys
  decrypt-ref keys m cipher_text mac_hash j =
      ap (λ (x : SkippedKeys × MessageRatchet × Outcome Bytes). x.1.skipped_message_keys)
        (decrypt-at_ref m.skipped_message_keys keys m cipher_text mac_hash j)

  pub encrypt-ref :
      (m : MessageRatchet) (plaintext : Bytes) (nonce : Outcome Bytes)
      → (encrypt c m plaintext nonce).0.skipped_message_keys ≡ m.skipped_message_keys
  encrypt-ref m plaintext nonce =
      ap (λ (x : MessageRatchet × Outcome (Bytes × Bytes × ℤ)). x.0.skipped_message_keys)
        (encrypt-at_ref m.skipped_message_keys m plaintext nonce)
