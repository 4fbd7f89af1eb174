-- ===== src/Ratchet/MessageRatchet/Stepping.antt =====
-- client/internal/contact/ratchet/mratchet.go: the path of `Decrypt` for a new message index, as one
-- equation.
use secure_messager_erlang.Prelude.{
  ℕ, suc, ◌+◌, ◌-◌, ◌≤◌, ◌≡◌, refl, ap, ◌∙◌, arith, none, Bytes, ℤ, ℤ_eq, ℕ_eq, Bytes_eq, pos,
  sub_ℕ, ◌+ℤ◌, ◌-ℤ◌, lookup,
}
use secure_messager_erlang.Crypt.Library.{Crypto, CryptoLaws}
use secure_messager_erlang.Ratchet.MessageRatchet.{
  SkippedKeys, MessageRatchet, ck_cycle, skip_keys, take_key, decrypt_new, decrypt,
  decrypt_with_key,
}
use secure_messager_erlang.Ratchet.MessageRatchet.KeySchedule.{
  chain_key_at, message_key_at, chain_input, Follows,
}
use secure_messager_erlang.Ratchet.MessageRatchet.Skipping.{ck_cycle_steps, skip_keys_lem}

pub next_index : (n : ℕ) (i : ℤ) → i ≡ sub_ℕ n 1 → i +ℤ pos 1 ≡ pos n
unfolding ◌+ℤ◌
next_index n i h = ground arith

pub pos_sub : (j n : ℕ) → n ≤ j → pos j -ℤ pos n ≡ pos (j - n)
unfolding ◌-ℤ◌
pos_sub j n h = ground arith

pub pos_pred : (j : ℕ) → pos j ≡ sub_ℕ (suc j) 1
pos_pred j = ground arith

module _ (c : Crypto) (laws : CryptoLaws c) (root : Bytes) (cipher_text mac_hash : Bytes) {n : ℕ}
    {m : MessageRatchet} (follows : Follows c root n m) where
  skip_keys_none : (keys : SkippedKeys) → skip_keys c 0 (pos n) keys m ≡ (keys, m)
  unfolding skip_keys
  skip_keys_none keys = refl

  skip_keys_count :
      (keys : SkippedKeys) (j : ℕ)
      → n ≤ j
      → j ≤ n
      → skip_keys c (j - n) (pos n) keys m ≡ skip_keys c 0 (pos n) keys m
  skip_keys_count keys j lo hi = ap (λ (r : ℕ). skip_keys c r (pos n) keys m) (omega arith)

  -- The loop runs over the messages between.
  decrypt_new_lem :
      (keys : SkippedKeys) (j : ℕ)
      → n ≤ j
      → j ≤ n + 100
      → decrypt_new c keys m cipher_text mac_hash (pos j)
        ≡ take_key c
            (skip_keys c (j - n) (pos n) keys m).0
            (skip_keys c (j - n) (pos n) keys m).1
            cipher_text
            mac_hash
            (pos j)
  unfolding decrypt_new
  decrypt_new_lem keys j lo hi = ground (
    arith,
    next_index n m.previous_index follows.index,
    pos_sub j n lo,
    follows.bound,
    skip_keys_none keys,
    skip_keys_count keys j lo,
  )

  take_key_lem :
      (j : ℕ) (keys : SkippedKeys) (m' : MessageRatchet)
      → n ≤ j
      → chain_input m' ≡ chain_key_at c root j
      → m'.previous_index ≡ sub_ℕ n 1
      → take_key c keys m' cipher_text mac_hash (pos j) ≡ (
        keys,
        record (ck_cycle c m').0 { previous_index = pos j },
        decrypt_with_key c cipher_text mac_hash (message_key_at c root j),
      )
  unfolding take_key
  take_key_lem j keys m' lo input index =
      ground (arith, index, (ck_cycle_steps c laws root j m' input).1)

  decrypt_unstored :
      (keys : SkippedKeys) (i : ℤ)
      → lookup keys i ≡ none
      → decrypt c keys m cipher_text mac_hash i ≡ decrypt_new c keys m cipher_text mac_hash i
  unfolding decrypt
  decrypt_unstored keys i e = rw (e, decrypt) refl

  -- The chain is where the next message needs it.
  pub chain_at :
      (keys : SkippedKeys) (j : ℕ)
      → n ≤ j
      → chain_input (skip_keys c (j - n) (pos n) keys m).1 ≡ chain_key_at c root j
  chain_at keys j lo =
      (skip_keys_lem c laws root (j - n) n keys m follows.input).0
      ∙ ap (chain_key_at c root) (omega arith)

  -- A new index in reach, with no stored key, whatever else is stored.
  pub decrypt_in_reach :
      (keys : SkippedKeys) (j : ℕ)
      → lookup keys (pos j) ≡ none
      → n ≤ j
      → j ≤ n + 100
      → decrypt c keys m cipher_text mac_hash (pos j) ≡ (
        (skip_keys c (j - n) (pos n) keys m).0,
        record (ck_cycle c (skip_keys c (j - n) (pos n) keys m).1).0 { previous_index = pos j },
        decrypt_with_key c cipher_text mac_hash (message_key_at c root j),
      )
  decrypt_in_reach keys j free lo hi =
      decrypt_unstored keys (pos j) free
      ∙ decrypt_new_lem keys j lo hi
      ∙ take_key_lem j (skip_keys c (j - n) (pos n) keys m).0 (skip_keys c (j - n) (pos n) keys m).1
          lo (chain_at keys j lo)
          ((skip_keys_lem c laws root (j - n) n keys m follows.input).2 ∙ follows.index)
