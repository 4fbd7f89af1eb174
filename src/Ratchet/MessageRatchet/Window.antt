-- ===== src/Ratchet/MessageRatchet/Window.antt =====
-- client/internal/contact/ratchet/mratchet.go: what a receiving ratchet promises, without keys. A
-- window knows the next new index and which earlier ones are missing; the ratchet refines it over
-- any sequence of messages.
pub mod AtMostOnce
use secure_messager_erlang.Prelude.{
  ℕ, zero, suc, ◌+◌, ◌-◌, ◌*◌, ◌/◌, ◌%◌, ◌^◌, ◌≤◌, ◌<◌, ◌≡◌, ◌≢◌, refl, sym, ap, ◌∙◌, ◌↔◌, ◌⊎◌, inl,
  inr, Bool, true, false, not, ◌&&◌, ◌||◌, List, [], ◌∷◌, ◌++◌, append_assoc, append-nil, arith,
  Option, none, some, Bytes, length, length-append, length-take, length-drop, take, drop,
  take-append, drop-append, take-append-drop, take_all, replicate, length-replicate, le→ltb, lt→ltb,
  ltb, leb, ◌==◌, ==_refl, if◌then◌else◌, Bool-cases, Option-cases, bytes_equal, bytes_equal_iff,
  bytes_equal_refl, ℤ, ℤ_eq, ℕ_eq, Bytes_eq, pos, negsuc, pos_part, neg_part, sub_ℕ, ◌+ℤ◌, ◌-ℤ◌,
  ◌≤ℤ◌, ltb_ℤ, eqb_ℤ, Eq, Assoc, lookup, insert, delete, lookup-insert, lookup-delete,
  length-insert, length-delete,
}
use secure_messager_erlang.Outcome.{
  Error, Outcome, ok, err, crash, ◌>>=◌, ◌>>◌, invalid_hash_length, insufficient_message_length,
  insufficient_message, failed_to_parse, invalid_message_key_index, too_many_skipped,
  already_processed, invalid_mac, no_matching_ratchet, packet_too_long, auth_not_set,
  invalid_packet_length, invalid_auth_token_length,
}
use secure_messager_erlang.Crypt.Library.{Crypto, CryptoLaws}
use secure_messager_erlang.Crypt.{
  KeyPair, key_length, encrypt_aes, decrypt_aes, generate_key_pair, generate_shared_secret,
  or_fatal,
}
use secure_messager_erlang.Ratchet.MessageRatchet.{
  SkippedKeys, MessageRatchet, chain_info, new_message_ratchet, initialize, ck_cycle, skip_keys,
  take_key, decrypt_new, decrypt, encrypt, encrypt_with_key, decrypt_with_key, max_message_skip,
  nonce_length, salt_length,
}
use secure_messager_erlang.Ratchet.MessageRatchet.KeySchedule.{
  key_material, chain_key_at, message_key_at, chain_input, Follows, HoldsOld, ck_cycle_lem,
}
use secure_messager_erlang.Ratchet.MessageRatchet.Receiving.{
  InSync, not_stored, decrypt_old, decrypt_far, decrypt_negative, decrypt_fresh,
}
use native.Mathlib.Decide.{dec_lt}
use secure_messager_erlang.Ratchet.MessageRatchet.Safety.{HoldsOld-delete, decrypt_found}
use secure_messager_erlang.Ratchet.MessageRatchet.Receiving.{not_stored_negative}

pub record Window : Type 0 where
  pub next : ℕ
  pub missing : ℕ → Bool

pub data Verdict : Type 0 where
  accepted duplicate too_far negative : Verdict

-- An index is accepted if it is missing, or new and at most 100 ahead; in the second case the ones
-- between are missing from then on.
unfoldable pub receive : Window → ℤ → Window × Verdict
receive w (negsuc j) = (w, negative)
receive w (pos j) =
    if w.missing j
    then (record w { missing = λ a. w.missing a && not (a == j) }, accepted)
    else if ltb j w.next
    then (w, duplicate)
    else if ltb (w.next + 100) j
    then (w, too_far)
    else (
      record { next = suc j; missing = λ a. (leb w.next a && ltb a j) || w.missing a },
      accepted,
    )

-- A message as it arrives: the encrypted text, the MAC and the index.
pub record Arrival : Type 0 where
  pub cipher_text : Bytes
  pub mac_hash : Bytes
  pub index : ℤ

-- What `Decrypt` gives for a verdict: an accepted message is opened under the key of its index.
unfoldable pub answer : Crypto → Bytes → Arrival → Verdict → Outcome Bytes
answer c root a accepted =
    decrypt_with_key c a.cipher_text a.mac_hash (message_key_at c root (pos_part a.index))
answer c root a duplicate = err already_processed
answer c root a too_far = err too_many_skipped
answer c root a negative = err invalid_message_key_index

-- The window's answers to a sequence of messages, and the ratchet's.
unfoldable pub window_run : Crypto → Bytes → Window → List Arrival → List (Outcome Bytes)
window_run c root w [] = []
window_run c root w (a ∷ arrivals) =
    answer c root a (receive w a.index).1 ∷ window_run c root (receive w a.index).0 arrivals

unfoldable pub ratchet_run :
    Crypto → SkippedKeys → MessageRatchet → List Arrival → List (Outcome Bytes)
ratchet_run c keys m [] = []
ratchet_run c keys m (a ∷ arrivals) =
    let (keys', m', result) = decrypt c keys m a.cipher_text a.mac_hash a.index in
    result ∷ ratchet_run c keys' m' arrivals

-- The ratchet is in step, and stores the keys of the missing messages and no other.
pub record Refines (c : Crypto) (root : Bytes) (w : Window) (keys : SkippedKeys)
    (m : MessageRatchet) : Type 0 where
  pub in_sync : InSync c root w.next keys m
  pub stored :
      (a : ℕ) → lookup keys (pos a) ≡ (if w.missing a then some (message_key_at c root a) else none)

module _ (c : Crypto) (laws : CryptoLaws c) (root : Bytes) where
  -- What one message does on both sides.
  abbrev Matches : Window → SkippedKeys → MessageRatchet → Bytes → Bytes → ℤ → Type 0
  Matches w keys m ct mac i =
      Refines c root (receive w i).0 (decrypt c keys m ct mac i).0 (decrypt c keys m ct mac i).1
      × ((decrypt c keys m ct mac i).2
          ≡ answer c root (record { cipher_text = ct; mac_hash = mac; index = i }) (receive w i).1)

  module _ {w : Window} {keys : SkippedKeys} {m : MessageRatchet} (ct mac : Bytes)
      (r : Refines c root w keys m) where
    Matches-negative : (j : ℕ) → Matches w keys m ct mac (negsuc j)
    unfolding receive answer
    Matches-negative j = rw (decrypt_negative c laws root r.in_sync ct mac j) (r, refl)

    receive_missing :
        (j : ℕ)
        → w.missing j ≡ true
        → receive w (pos j) ≡ (record w { missing = λ a. w.missing a && not (a == j) }, accepted)
    unfolding receive
    receive_missing j e = ground (arith, e)

    Matches-missing : (j : ℕ) → w.missing j ≡ true → Matches w keys m ct mac (pos j)
    unfolding answer
    Matches-missing j e =
        rw
          (
            decrypt_found c laws root keys m ct mac (pos j) {k = message_key_at c root j}
                (ground (arith, e, r.stored j)),
            receive_missing j e,
          )
          (
            record {
              in_sync = record {
                follows = r.in_sync.follows;
                held = HoldsOld-delete c laws root (pos j) r.in_sync.held;
              };
              stored = λ a. ground (arith, lookup-delete keys (pos j) (pos a), r.stored a);
            },
            refl,
          )

    receive_old : (j : ℕ) → w.missing j ≡ false → j < w.next → receive w (pos j) ≡ (w, duplicate)
    unfolding receive
    receive_old j e h = ground (arith, e)

    Matches-old : (j : ℕ) → w.missing j ≡ false → j < w.next → Matches w keys m ct mac (pos j)
    unfolding answer
    Matches-old j e h =
        rw
          (
            decrypt_old c laws root r.in_sync ct mac j h (ground (arith, e, r.stored j)),
            receive_old j e h,
          )
          (r, refl)

    receive_far :
        (j : ℕ) → w.missing j ≡ false → w.next + 100 < j → receive w (pos j) ≡ (w, too_far)
    unfolding receive
    receive_far j e h = ground (arith, e)

    Matches-far : (j : ℕ) → w.missing j ≡ false → w.next + 100 < j → Matches w keys m ct mac (pos j)
    unfolding answer
    Matches-far j e h =
        rw (decrypt_far c laws root r.in_sync ct mac j h, receive_far j e h) (r, refl)

    receive_fresh :
        (j : ℕ)
        → w.missing j ≡ false
        → w.next ≤ j
        → j ≤ w.next + 100
        → receive w (pos j) ≡ (
          record { next = suc j; missing = λ a. (leb w.next a && ltb a j) || w.missing a },
          accepted,
        )
    unfolding receive
    receive_fresh j e lo hi = ground (arith, e)

    Matches-fresh :
        (j : ℕ)
        → w.missing j ≡ false
        → w.next ≤ j
        → j ≤ w.next + 100
        → Matches w keys m ct mac (pos j)
    unfolding answer
    Matches-fresh j e lo hi =
        let (key, sync, _, found) = decrypt_fresh c laws root r.in_sync ct mac j lo hi in
        rw (receive_fresh j e lo hi)
          (record { in_sync = sync; stored = λ a. ground (arith, found (pos a), r.stored a) }, key)

    matches : (i : ℤ) → Matches w keys m ct mac i
    matches (negsuc j) = Matches-negative j
    matches (pos j) = elim (Bool-cases (w.missing j)) [
      | inl e ↦ Matches-missing j e
      | inr e ↦ elim (dec_lt j w.next) [
        | yes old ↦ Matches-old j e old
        | no new ↦ elim (dec_lt (w.next + 100) j) [
          | yes far ↦ Matches-far j e far
          | no near ↦ Matches-fresh j e (omega arith) (omega arith)
        ]
      ]
    ]

  -- If a ratchet is in step with a root key and stores the keys of its window's missing messages and
  -- no other, then over any sequence of messages, genuine or not, it gives the window's answers:
  -- it opens an accepted message under the key of its index, and refuses the others.
  pub ratchet_run-Refines :
      (w : Window) (keys : SkippedKeys) (m : MessageRatchet) (arrivals : List Arrival)
      → Refines c root w keys m
      → ratchet_run c keys m arrivals ≡ window_run c root w arrivals
  unfolding ratchet_run window_run
  ratchet_run-Refines w keys m [] r = refl
  ratchet_run-Refines w keys m (a ∷ arrivals) r =
      let (r', same) = matches a.cipher_text a.mac_hash r a.index in
      let (keys', m', _) = decrypt c keys m a.cipher_text a.mac_hash a.index in
      ap (λ (o : Outcome Bytes). o ∷ ratchet_run c keys' m' arrivals) same
      ∙ ap (λ (os : List (Outcome Bytes)). answer c root a (receive w a.index).1 ∷ os)
          (ratchet_run-Refines (receive w a.index).0 keys' m' arrivals r')
