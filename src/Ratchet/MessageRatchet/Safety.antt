-- ===== src/Ratchet/MessageRatchet/Safety.antt =====
-- client/internal/contact/ratchet/mratchet.go: what holds of a receiving ratchet whatever arrives,
-- forged messages included.
use native.Mathlib.Decide.{dec_lt}
use secure_messager_erlang.Prelude.{
  ℕ, zero, suc, ◌+◌, ◌≤◌, ◌<◌, ◌≡◌, refl, inl, inr, arith, none, some, Bytes, length, Option-cases,
  ℤ, ℤ_eq, ℕ_eq, Bytes_eq, pos, negsuc, pos_part, ◌+ℤ◌, ◌-ℤ◌, lookup, insert, delete, lookup-delete,
  length-insert, length-delete,
}
use secure_messager_erlang.Outcome.{err, already_processed}
use secure_messager_erlang.Crypt.Library.{Crypto, CryptoLaws}
use secure_messager_erlang.Ratchet.MessageRatchet.{
  SkippedKeys, MessageRatchet, ck_cycle, skip_keys, take_key, decrypt_new, decrypt,
  decrypt_with_key,
}
use secure_messager_erlang.Ratchet.MessageRatchet.KeySchedule.{HoldsOld}
use secure_messager_erlang.Ratchet.MessageRatchet.Receiving.{
  InSync, decrypt_old, decrypt_far, decrypt_negative, decrypt_fresh,
}

module _ (c : Crypto) (laws : CryptoLaws c) (root : Bytes) where
  pub HoldsOld-delete :
      {n : ℕ} {keys : SkippedKeys} (i : ℤ)
      → HoldsOld c root n keys
      → HoldsOld c root n (delete keys i)
  HoldsOld-delete {n} {keys} i h = record {
    old = λ j k e. h.old j k (ground (arith, lookup-delete keys i j));
  }

  pub decrypt_found :
      (keys : SkippedKeys) (m : MessageRatchet) (ct mac : Bytes) (i : ℤ) {k : Bytes}
      → lookup keys i ≡ some k
      → decrypt c keys m ct mac i ≡ (delete keys i, m, decrypt_with_key c ct mac k)
  unfolding decrypt
  decrypt_found keys m ct mac i e = rw (e, decrypt) refl

  -- The ways that a message can go.
  data Case (n : ℕ) (keys : SkippedKeys) : ℤ → Type 0 where
    stored : {i : ℤ} (k : Bytes) → lookup keys i ≡ some k → Case n keys i
    negative : (j : ℕ) → Case n keys (negsuc j)
    old : (j : ℕ) → j < n → lookup keys (pos j) ≡ none → Case n keys (pos j)
    fresh : (j : ℕ) → n ≤ j → j ≤ n + 100 → Case n keys (pos j)
    far : (j : ℕ) → n + 100 < j → Case n keys (pos j)

  cases : (n : ℕ) (keys : SkippedKeys) (i : ℤ) → Case n keys i
  cases n keys (negsuc j) = negative j
  cases n keys (pos j) = elim (Option-cases (lookup keys (pos j))) [
    | inr (k, e) ↦ stored k e
    | inl e ↦ elim (dec_lt j n) [
      | yes p ↦ old j p e
      | no p ↦ elim (dec_lt (n + 100) j) [
        | yes q ↦ far j q
        | no q ↦ fresh j (omega arith) (omega arith)
      ]
    ]
  ]

  -- A receiver in step with a root key (its chain follows the key, and each stored key is that of an
  -- earlier message) is in step after `Decrypt` of any message, at the same or a later step.
  pub decrypt-InSync :
      {n : ℕ} {keys : SkippedKeys} {m : MessageRatchet} (ct mac : Bytes) (i : ℤ)
      → InSync c root n keys m
      → (n' : ℕ) × (n ≤ n')
        × InSync c root n' (decrypt c keys m ct mac i).0 (decrypt c keys m ct mac i).1
  decrypt-InSync {n} {keys} {m} ct mac i sync = go i (cases n keys i)
    where
      go :
          (i : ℤ)
          → Case n keys i
          → (n' : ℕ) × (n ≤ n')
            × InSync c root n' (decrypt c keys m ct mac i).0 (decrypt c keys m ct mac i).1
      go i (stored k e) = (
        n,
        omega arith,
        rw (decrypt_found keys m ct mac i e)
            (record { follows = sync.follows; held = HoldsOld-delete i sync.held }),
      )
      go _ (negative j) = (n, omega arith, rw (decrypt_negative c laws root sync ct mac j) sync)
      go _ (old j p e) = (n, omega arith, rw (decrypt_old c laws root sync ct mac j p e) sync)
      go _ (far j p) = (n, omega arith, rw (decrypt_far c laws root sync ct mac j p) sync)
      go _ (fresh j lo hi) = (suc j, omega arith, (decrypt_fresh c laws root sync ct mac j lo hi).1)

  -- A receiver in step that has handled a message with an index at most 100 ahead, be it genuine or
  -- not, refuses any message with that index, and nothing changes.
  pub decrypt_no_replay :
      {n : ℕ} {keys : SkippedKeys} {m : MessageRatchet} (j : ℕ) (ct mac ct' mac' : Bytes)
      → InSync c root n keys m
      → j ≤ n + 100
      → decrypt c
          (decrypt c keys m ct mac (pos j)).0
          (decrypt c keys m ct mac (pos j)).1
          ct'
          mac'
          (pos j)
        ≡ (
          (decrypt c keys m ct mac (pos j)).0,
          (decrypt c keys m ct mac (pos j)).1,
          err already_processed,
        )
  decrypt_no_replay {n} {keys} {m} j ct mac ct' mac' sync hi =
      elim (Option-cases (lookup keys (pos j))) [
        | inr (k, e) ↦
            (let (i, same, lt, _) = sync.held.old (pos j) k e in
              rw (decrypt_found keys m ct mac (pos j) e) (
                decrypt_old c laws root
                  (record { follows = sync.follows; held = HoldsOld-delete (pos j) sync.held }) ct'
                  mac' j (ground arith) (ground (arith, lookup-delete keys (pos j) (pos j)))))
        | inl e ↦ elim (dec_lt j n) [
          | yes p ↦
              rw (decrypt_old c laws root sync ct mac j p e)
                (decrypt_old c laws root sync ct' mac' j p e)
          | no p ↦
              (let (_, sync', _, found) =
                  decrypt_fresh c laws root sync ct mac j (omega arith) hi in
                decrypt_old c laws root sync' ct' mac' j (omega arith)
                  (ground (arith, e, found (pos j))))
        ]
      ]

length-skip_keys :
    (c : Crypto) (r : ℕ) (i : ℤ) (keys : SkippedKeys) (m : MessageRatchet)
    → length (skip_keys c r i keys m).0 ≤ length keys + r
unfolding skip_keys
length-skip_keys c zero i keys m = omega arith
length-skip_keys c (suc r) i keys m = omega (
  arith,
  length-skip_keys c r (i +ℤ pos 1) (insert keys i (ck_cycle c m).1) (ck_cycle c m).0,
  length-insert keys i (ck_cycle c m).1,
)

-- One message makes the ratchet store at most `max_skip` keys more, whatever the state and message.
pub length-decrypt :
    (c : Crypto) (keys : SkippedKeys) (m : MessageRatchet) (ct mac : Bytes) (i : ℤ)
    → length (decrypt c keys m ct mac i).0 ≤ length keys + pos_part m.max_skip
unfolding decrypt decrypt_new take_key
length-decrypt c keys m ct mac i = ground (
  arith,
  length-delete keys i,
  length-skip_keys c (pos_part (i -ℤ (m.previous_index +ℤ pos 1))) (m.previous_index +ℤ pos 1) keys
      m,
)
