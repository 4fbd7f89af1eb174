-- ===== src/Ratchet/MessageRatchet/KeySchedule.antt =====
-- client/internal/contact/ratchet/mratchet.go: the keys that a root key determines, without the
-- state of a ratchet, and what it means that a ratchet follows them.
use secure_messager_erlang.Prelude.{
  ℕ, zero, suc, ◌<◌, ◌≡◌, refl, [], ◌∷◌, ◌++◌, arith, none, some, Bytes, take, drop, replicate, ℤ,
  ℤ_eq, pos, sub_ℕ, lookup,
}
use secure_messager_erlang.Outcome.{ok}
use secure_messager_erlang.Crypt.Library.{Crypto, CryptoLaws}
use secure_messager_erlang.Ratchet.Hkdf.{extract, derive}
use secure_messager_erlang.Ratchet.Hkdf.Rfc5869.{derive_one_block}
use secure_messager_erlang.Ratchet.MessageRatchet.{
  SkippedKeys, MessageRatchet, chain_info, ck_cycle_from, ck_cycle,
}

module _ (c : Crypto) where
  -- What the chain key `k` expands to: one block of HKDF.
  unfoldable pub key_material : Bytes → Bytes
  key_material k = c.hmac_sha512 (c.hmac_sha512 (replicate 64 0) k) (chain_info ++ (1 ∷ []))

  -- The chain key before message `n`, and the key of message `n`.
  unfoldable pub chain_key_at : Bytes → ℕ → Bytes
  unfolding key_material
  chain_key_at root zero = root
  chain_key_at root (suc n) = drop 32 (key_material (chain_key_at root n))

  unfoldable pub message_key_at : Bytes → ℕ → Bytes
  unfolding chain_key_at
  message_key_at root n = take 32 (key_material (chain_key_at root n))

-- What `CKCycle` derives from next.
abbrev pub chain_input : MessageRatchet → Bytes
chain_input m = elim m.chain_key [ none ↦ m.root_key | some k ↦ k ]

-- The chain of `m` has gone `n` steps from `root`, and the index agrees.
pub record Follows (c : Crypto) (root : Bytes) (n : ℕ) (m : MessageRatchet) : Type 0 where
  pub input : chain_input m ≡ chain_key_at c root n
  pub index : m.previous_index ≡ sub_ℕ n 1
  pub bound : m.max_skip ≡ pos 100

-- Every stored key is that of an earlier message.
pub record HoldsOld (c : Crypto) (root : Bytes) (n : ℕ) (keys : SkippedKeys) : Type 0 where
  pub old :
      (i : ℤ) (k : Bytes)
      → lookup keys i ≡ some k
      → (j : ℕ) × (i ≡ pos j) × (j < n) × (k ≡ message_key_at c root j)

module _ (c : Crypto) (laws : CryptoLaws c) where
  derive_chain : (k : Bytes) → derive c k none chain_info 64 ≡ ok (key_material c k)
  unfolding key_material extract
  derive_chain k = derive_one_block c laws k none chain_info

  ck_cycle_from_lem :
      (k : Bytes) (m : MessageRatchet)
      → ck_cycle_from c k m
        ≡ (record m { chain_key = some (drop 32 (key_material c k)) }, take 32 (key_material c k))
  unfolding ck_cycle_from
  ck_cycle_from_lem k m = rw (derive_chain k, ck_cycle_from) refl

  -- One step of the chain, in plain terms: it never fails.
  pub ck_cycle_lem :
      (m : MessageRatchet)
      → ck_cycle c m ≡ (
        record m { chain_key = some (drop 32 (key_material c (chain_input m))) },
        take 32 (key_material c (chain_input m)),
      )
  unfolding ck_cycle
  ck_cycle_lem m = grind (arith, ck_cycle_from_lem)
