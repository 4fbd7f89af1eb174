-- ===== src/Ratchet/MessageRatchet/Receiving.antt =====
-- client/internal/contact/ratchet/mratchet.go: what `Decrypt` does with a message index, on every
-- branch, when the ratchet follows a root key.
use secure_messager_erlang.Prelude.{
  ℕ, suc, ◌+◌, ◌-◌, ◌≤◌, ◌<◌, ◌≡◌, refl, sym, ◌∙◌, inl, inr, true, arith, none, some, Bytes,
  if◌then◌else◌, Bool-cases, Option-cases, ℤ, ℤ_eq, ℕ_eq, Bytes_eq, pos, negsuc, pos_part, lookup,
}
use secure_messager_erlang.Outcome.{
  err, invalid_message_key_index, too_many_skipped, already_processed,
}
use secure_messager_erlang.Crypt.Library.{Crypto, CryptoLaws}
use secure_messager_erlang.Ratchet.MessageRatchet.{
  SkippedKeys, MessageRatchet, skip_keys, take_key, decrypt_new, decrypt, decrypt_with_key,
}
use secure_messager_erlang.Ratchet.MessageRatchet.KeySchedule.{message_key_at, Follows, HoldsOld}
use secure_messager_erlang.Ratchet.MessageRatchet.Stepping.{
  next_index, pos_sub, pos_pred, chain_at, decrypt_in_reach,
}
use secure_messager_erlang.Ratchet.MessageRatchet.Skipping.{
  SameSetup, in_range, ck_cycle_steps, skip_keys_lem,
}

-- The ratchet has gone `n` steps from `root`, and its stored keys are of earlier messages.
pub record InSync (c : Crypto) (root : Bytes) (n : ℕ) (keys : SkippedKeys) (m : MessageRatchet)
    : Type 0 where
  pub follows : Follows c root n m
  pub held : HoldsOld c root n keys

module _ (c : Crypto) (laws : CryptoLaws c) (root : Bytes) {n : ℕ} {keys : SkippedKeys}
    {m : MessageRatchet} (sync : InSync c root n keys m) (cipher_text mac_hash : Bytes) where
  pub not_stored : (j : ℕ) → n ≤ j → lookup keys (pos j) ≡ none
  not_stored j h = elim (Option-cases (lookup keys (pos j))) [
    | inl e ↦ e
    | inr (k, e) ↦ (let (i, same, old, _) = sync.held.old (pos j) k e in absurd (ground arith))
  ]

  pub not_stored_negative : (j : ℕ) → lookup keys (negsuc j) ≡ none
  not_stored_negative j = elim (Option-cases (lookup keys (negsuc j))) [
    | inl e ↦ e
    | inr (k, e) ↦ (let (i, same, old, _) = sync.held.old (negsuc j) k e in absurd (ground arith))
  ]

  -- An index that was passed and has no stored key is refused, and nothing changes.
  pub decrypt_old :
      (j : ℕ)
      → j < n
      → lookup keys (pos j) ≡ none
      → decrypt c keys m cipher_text mac_hash (pos j) ≡ (keys, m, err already_processed)
  unfolding decrypt decrypt_new take_key
  decrypt_old j h e =
      ground (arith, e, next_index n m.previous_index sync.follows.index, sync.follows.index)

  -- An index more than 100 ahead of a chain in step is refused, and nothing changes.
  pub decrypt_far :
      (j : ℕ)
      → n + 100 < j
      → decrypt c keys m cipher_text mac_hash (pos j) ≡ (keys, m, err too_many_skipped)
  unfolding decrypt decrypt_new
  decrypt_far j h = ground (
    arith,
    not_stored j (omega arith),
    next_index n m.previous_index sync.follows.index,
    pos_sub j n (omega arith),
    sync.follows.bound,
  )

  -- A negative index is refused by a chain in step, and nothing changes.
  pub decrypt_negative :
      (j : ℕ)
      → decrypt c keys m cipher_text mac_hash (negsuc j) ≡ (keys, m, err invalid_message_key_index)
  unfolding decrypt decrypt_new
  decrypt_negative j = ground (arith, not_stored_negative j)

module _ (c : Crypto) (laws : CryptoLaws c) (root : Bytes) where
  -- The stored keys after the loop are of earlier messages still.
  held_after :
      {n j : ℕ} {keys keys' : SkippedKeys}
      → n ≤ j
      → HoldsOld c root n keys
      → ((i : ℤ)
          → lookup keys' i ≡ (
              if in_range n (j - n) i
              then some (message_key_at c root (pos_part i))
              else lookup keys i))
      → HoldsOld c root (suc j) keys'
  held_after {n} {j} {keys} {keys'} lo h found = record { old = origin }
    where
      from_range :
          (a : ℕ) (k : Bytes)
          → in_range n (j - n) (pos a) ≡ true
          → lookup keys' (pos a) ≡ some k
          → (b : ℕ) × (pos a ≡ pos b) × (b < suc j) × (k ≡ message_key_at c root b)
      from_range a k r e = (a, refl, ground arith, ground (arith, found (pos a)))

      from_before :
          (i : ℤ) (k : Bytes)
          → lookup keys i ≡ some k
          → (b : ℕ) × (i ≡ pos b) × (b < suc j) × (k ≡ message_key_at c root b)
      from_before i k e = let (b, same, old, key) = h.old i k e in (b, same, omega arith, key)

      origin :
          (i : ℤ) (k : Bytes)
          → lookup keys' i ≡ some k
          → (b : ℕ) × (i ≡ pos b) × (b < suc j) × (k ≡ message_key_at c root b)
      origin (pos a) k e = elim (Bool-cases (in_range n (j - n) (pos a))) [
        | inl r ↦ from_range a k r e
        | inr r ↦ from_before (pos a) k (ground (arith, found (pos a)))
      ]
      origin (negsuc a) k e = from_before (negsuc a) k (sym (found (negsuc a)) ∙ e)

  -- The three parts of what `Decrypt` does with a new index in reach.
  pub decrypt_fresh :
      {n : ℕ} {keys : SkippedKeys} {m : MessageRatchet} (sync : InSync c root n keys m)
      (cipher_text mac_hash : Bytes) (j : ℕ)
      → n ≤ j
      → j ≤ n + 100
      → ((decrypt c keys m cipher_text mac_hash (pos j)).2
          ≡ decrypt_with_key c cipher_text mac_hash (message_key_at c root j))
        × InSync c root
            (suc j)
            (decrypt c keys m cipher_text mac_hash (pos j)).0
            (decrypt c keys m cipher_text mac_hash (pos j)).1
        × SameSetup m (decrypt c keys m cipher_text mac_hash (pos j)).1
        × ((i : ℤ)
            → lookup (decrypt c keys m cipher_text mac_hash (pos j)).0 i ≡ (
                if in_range n (j - n) i
                then some (message_key_at c root (pos_part i))
                else lookup keys i))
  decrypt_fresh {n} {keys} {m} sync cipher_text mac_hash j lo hi =
      let s = skip_keys c (j - n) (pos n) keys m in
      let (_, setup, _, found) = skip_keys_lem c laws root (j - n) n keys m sync.follows.input in
      let (next, _, setup', _) =
        ck_cycle_steps c laws root j s.1
          (chain_at c laws root cipher_text mac_hash sync.follows keys j lo) in
      let free = not_stored c laws root sync cipher_text mac_hash j lo in
      rw (decrypt_in_reach c laws root cipher_text mac_hash sync.follows keys j free lo hi) (
        refl,
        record {
          follows = record {
            input = next;
            index = pos_pred j;
            bound = setup'.skip ∙ setup.skip ∙ sync.follows.bound;
          };
          held = held_after lo sync.held found;
        },
        record {
          foreign = setup'.foreign ∙ setup.foreign;
          root = setup'.root ∙ setup.root;
          map_ref = setup'.map_ref ∙ setup.map_ref;
          skip = setup'.skip ∙ setup.skip;
        },
        found,
      )
