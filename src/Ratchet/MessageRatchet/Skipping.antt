-- ===== src/Ratchet/MessageRatchet/Skipping.antt =====
-- client/internal/contact/ratchet/mratchet.go: what `CKCycle` and the loop over skipped messages
-- do to a ratchet that follows a root key.
use secure_messager_erlang.Prelude.{
  ℕ, zero, suc, ◌+◌, ◌≡◌, refl, ap, ◌∙◌, Bool, false, ◌&&◌, arith, Option, some, Bytes, ltb, leb,
  if◌then◌else◌, ℤ, ℤ_eq, ℕ_eq, Bytes_eq, pos, negsuc, pos_part, ◌+ℤ◌, lookup, insert,
  lookup-insert,
}
use secure_messager_erlang.Crypt.Library.{Crypto, CryptoLaws}
use secure_messager_erlang.Ratchet.MessageRatchet.{SkippedKeys, MessageRatchet, ck_cycle, skip_keys}
use secure_messager_erlang.Ratchet.MessageRatchet.KeySchedule.{
  chain_key_at, message_key_at, chain_input, ck_cycle_lem,
}

-- The fields that no step of the chain touches.
pub record SameSetup (m m' : MessageRatchet) : Type 0 where
  pub foreign : m'.foreign_public_key ≡ m.foreign_public_key
  pub root : m'.root_key ≡ m.root_key
  pub map_ref : m'.skipped_message_keys ≡ m.skipped_message_keys
  pub skip : m'.max_skip ≡ m.max_skip

pub pos_suc : (n : ℕ) → pos n +ℤ pos 1 ≡ pos (suc n)
unfolding ◌+ℤ◌
pos_suc n = ground arith

-- `i` is one of n, …, n + r - 1.
abbrev pub in_range : ℕ → ℕ → ℤ → Bool
in_range n r (pos j) = leb n j && ltb j (n + r)
in_range n r (negsuc j) = false

module _ (c : Crypto) (laws : CryptoLaws c) (root : Bytes) where
  -- `CKCycle` returns the key of message `n` and moves the chain on.
  pub ck_cycle_steps :
      (n : ℕ) (m : MessageRatchet)
      → chain_input m ≡ chain_key_at c root n
      → (chain_input (ck_cycle c m).0 ≡ chain_key_at c root (suc n))
        × ((ck_cycle c m).1 ≡ message_key_at c root n)
        × SameSetup m (ck_cycle c m).0
        × ((ck_cycle c m).0.previous_index ≡ m.previous_index)
  unfolding chain_key_at message_key_at
  ck_cycle_steps n m h = ground (arith, h, ck_cycle_lem c laws m)

  -- One stored key more at the front of the range.
  range_step :
      (n r : ℕ) (i : ℤ) (keys : SkippedKeys) {k : Bytes} {o : Option Bytes}
      → k ≡ message_key_at c root n
      → o ≡ (
          if in_range (suc n) r i
          then some (message_key_at c root (pos_part i))
          else lookup (insert keys (pos n) k) i)
      → o ≡ (
          if in_range n (suc r) i then some (message_key_at c root (pos_part i)) else lookup keys i)
  range_step n r (pos j) keys {k} key h =
      ground (arith, key, h, lookup-insert keys (pos n) (pos j) k)
  range_step n r (negsuc j) keys {k} key h =
      ground (arith, key, h, lookup-insert keys (pos n) (negsuc j) k)

  skip_keys-suc :
      (r n : ℕ) (keys : SkippedKeys) (m : MessageRatchet)
      → skip_keys c (suc r) (pos n) keys m
        ≡ skip_keys c r (pos (suc n)) (insert keys (pos n) (ck_cycle c m).1) (ck_cycle c m).0
  unfolding skip_keys
  skip_keys-suc r n keys m =
      ap (λ (i : ℤ). skip_keys c r i (insert keys (pos n) (ck_cycle c m).1) (ck_cycle c m).0)
        (pos_suc n)

  -- After `r` rounds from message `n` on the chain is at n + r, the keys of the skipped messages
  -- are stored, and no other entry has changed.
  pub skip_keys_lem :
      (r n : ℕ) (keys : SkippedKeys) (m : MessageRatchet)
      → chain_input m ≡ chain_key_at c root n
      → (chain_input (skip_keys c r (pos n) keys m).1 ≡ chain_key_at c root (n + r))
        × SameSetup m (skip_keys c r (pos n) keys m).1
        × ((skip_keys c r (pos n) keys m).1.previous_index ≡ m.previous_index)
        × ((i : ℤ)
            → lookup (skip_keys c r (pos n) keys m).0 i ≡ (
                if in_range n r i
                then some (message_key_at c root (pos_part i))
                else lookup keys i))
  skip_keys_lem zero n keys m h =
      unfold skip_keys in
      (
        rw h (ap (chain_key_at c root) (omega arith)),
        record { foreign = refl; root = refl; map_ref = refl; skip = refl },
        refl,
        λ i. ground arith,
      )
  skip_keys_lem (suc r) n keys m h =
      let (input, key, setup, index) = ck_cycle_steps n m h in
      let m1 = (ck_cycle c m).0 in
      let keys1 = insert keys (pos n) (ck_cycle c m).1 in
      let (input', setup', index', found) = skip_keys_lem r (suc n) keys1 m1 input in
      rw skip_keys-suc (
        input' ∙ ap (chain_key_at c root) (omega arith),
        record {
          foreign = setup'.foreign ∙ setup.foreign;
          root = setup'.root ∙ setup.root;
          map_ref = setup'.map_ref ∙ setup.map_ref;
          skip = setup'.skip ∙ setup.skip;
        },
        index' ∙ index,
        λ i. range_step n r i keys key (found i),
      )
