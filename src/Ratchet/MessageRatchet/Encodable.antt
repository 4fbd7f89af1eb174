-- ===== src/Ratchet/MessageRatchet/Encodable.antt =====
-- client/internal/contact/ratchet/mratchet.go: the chain key is nil or not empty.
use secure_messager_erlang.Prelude.{
  ℕ, zero, suc, ◌≡◌, ◌≢◌, sym, ap, ◌∙◌, arith, Option-cases, inl, inr, none, some, [], lookup, ℤ,
  ℤ_eq, pos, ◌+ℤ◌, ◌-ℤ◌, pos_part, Bytes, insert, length, length-drop, drop, Option,
}
use secure_messager_erlang.Outcome.{Outcome, Outcome-cases}
use secure_messager_erlang.Crypt.Library.{Crypto, CryptoLaws}
use secure_messager_erlang.Ratchet.MessageRatchet.{
  MessageRatchet, SkippedKeys, ck_cycle, encrypt, encrypt_with_key, skip_keys, take_key,
  decrypt_new, decrypt,
}
use secure_messager_erlang.Ratchet.MessageRatchet.KeySchedule.{
  key_material, chain_input, ck_cycle_lem,
}

abbrev pub HasKey : MessageRatchet → Type 0
HasKey m = m.chain_key ≢ some []

module _ (c : Crypto) (laws : CryptoLaws c) where
  chain_key-length : (k : Bytes) → length (drop 32 (key_material c k)) ≡ 32
  unfolding key_material
  chain_key-length k =
      let whole : length (key_material c k) ≡ 64 = laws.length-hmac_sha512 _ _ in
      omega (arith, length-drop 32 (key_material c k), whole)

  ck_cycle-HasKey : (m : MessageRatchet) → HasKey (ck_cycle c m).0
  ck_cycle-HasKey m h =
      let k = chain_input m in
      let made : some (drop 32 (key_material c k)) ≡ some [] =
        sym (ap (λ (x : MessageRatchet × Bytes). x.0.chain_key) (ck_cycle_lem c laws m)) ∙ h in
      let none_left : length (drop 32 (key_material c k)) ≡ 0 = ap size made in
      omega (arith, none_left, chain_key-length k)
    where
      size : Option Bytes → ℕ
      size none = 0
      size (some b) = length b

  skip_keys-HasKey :
      (rounds : ℕ) (i : ℤ) (keys : SkippedKeys) (m : MessageRatchet)
      → HasKey m
      → HasKey (skip_keys c rounds i keys m).1
  unfolding skip_keys
  skip_keys-HasKey zero i keys m h = h
  skip_keys-HasKey (suc rounds) i keys m h =
      skip_keys-HasKey rounds (i +ℤ pos 1) (insert keys i (ck_cycle c m).1) (ck_cycle c m).0
        (ck_cycle-HasKey m)

  take_key-HasKey :
      (keys : SkippedKeys) (m : MessageRatchet) (cipher_text mac_hash : Bytes) (j : ℤ)
      → HasKey m
      → HasKey (take_key c keys m cipher_text mac_hash j).1
  unfolding take_key
  take_key-HasKey keys m cipher_text mac_hash j h = ground (arith, h, ck_cycle-HasKey m)

  decrypt_new-HasKey :
      (keys : SkippedKeys) (m : MessageRatchet) (cipher_text mac_hash : Bytes) (j : ℤ)
      → HasKey m
      → HasKey (decrypt_new c keys m cipher_text mac_hash j).1
  unfolding decrypt_new
  decrypt_new-HasKey keys m cipher_text mac_hash j h =
      let rounds = pos_part (j -ℤ (m.previous_index +ℤ pos 1)) in
      let first = m.previous_index +ℤ pos 1 in
      let skipped = skip_keys c rounds first keys m in
      ground (
        arith,
        h,
        take_key-HasKey keys m cipher_text mac_hash j h,
        take_key-HasKey skipped.0 skipped.1 cipher_text mac_hash j
            (skip_keys-HasKey rounds first keys m h),
      )

  pub decrypt-HasKey :
      (keys : SkippedKeys) (m : MessageRatchet) (cipher_text mac_hash : Bytes) (j : ℤ)
      → HasKey m
      → HasKey (decrypt c keys m cipher_text mac_hash j).1
  unfolding decrypt
  decrypt-HasKey keys m cipher_text mac_hash j h = elim (Option-cases (lookup keys j)) [
    | inl e ↦ ground (arith, e, decrypt_new-HasKey keys m cipher_text mac_hash j h)
    | inr (k, e) ↦ ground (arith, e, h)
  ]

  pub encrypt-HasKey :
      (m : MessageRatchet) (plaintext : Bytes) (nonce : Outcome Bytes)
      → HasKey (encrypt c m plaintext nonce).0
  unfolding encrypt
  encrypt-HasKey m plaintext nonce =
      elim (Outcome-cases (encrypt_with_key c (ck_cycle c m).1 plaintext nonce)) [
        | inl (b, e) ↦ ground (arith, e, ck_cycle-HasKey m)
        | inr (inl (x, e)) ↦ ground (arith, e, ck_cycle-HasKey m)
        | inr (inr e) ↦ ground (arith, e, ck_cycle-HasKey m)
      ]
