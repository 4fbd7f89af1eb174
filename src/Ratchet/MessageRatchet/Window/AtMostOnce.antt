-- ===== src/Ratchet/MessageRatchet/Window/AtMostOnce.antt =====
-- client/internal/contact/ratchet/mratchet.go: over a whole sequence of messages, no index gives two
-- plaintexts.
use secure_messager_erlang.Prelude.{
  ℕ, suc, ◌≤◌, ◌<◌, ◌≡◌, refl, sym, ap, ◌∙◌, inl, inr, true, false, List, [], ◌∷◌, arith, Bytes,
  if◌then◌else◌, Bool-cases, ℤ, pos, negsuc, eqb_ℤ, eqb_ℤ_iff, ℤ_eq, ℕ_eq, Bytes_eq,
}
use secure_messager_erlang.Outcome.{Outcome, ok, err, crash, Outcome-cases}
use secure_messager_erlang.Crypt.Library.{Crypto, CryptoLaws}
use secure_messager_erlang.Ratchet.MessageRatchet.{SkippedKeys, MessageRatchet}
use secure_messager_erlang.Ratchet.MessageRatchet.KeySchedule.{message_key_at}
use secure_messager_erlang.Ratchet.MessageRatchet.Window.{
  Window, Verdict, accepted, duplicate, too_far, negative, Arrival, receive, answer, window_run,
  ratchet_run, Refines, ratchet_run-Refines,
}

-- How many messages with the index `j` were opened.
unfoldable pub opened : ℕ → List Arrival → List (Outcome Bytes) → ℕ
opened j [] results = 0
opened j (a ∷ arrivals) [] = 0
opened j (a ∷ arrivals) (result ∷ results) =
    let rest = opened j arrivals results in
    elim result [
      | ok _ ↦ if eqb_ℤ a.index (pos j) then suc rest else rest
      | err _ ↦ rest
      | crash ↦ rest
    ]

-- The index was accepted before.
abbrev IsUsed : Window → ℕ → Type 0
IsUsed w j = (j < w.next) × (w.missing j ≡ false)

abbrev IsBounded : Window → Type 0
IsBounded w = (a : ℕ) → w.missing a ≡ true → a < w.next

receive-IsBounded : (w : Window) (i : ℤ) → IsBounded w → IsBounded (receive w i).0
unfolding receive
receive-IsBounded w (negsuc k) h = h
receive-IsBounded w (pos k) h = λ a e. ground (arith, h a, e)

receive-IsUsed : (w : Window) (i : ℤ) (j : ℕ) → IsUsed w j → IsUsed (receive w i).0 j
unfolding receive
receive-IsUsed w (negsuc k) j h = h
receive-IsUsed w (pos k) j (lo, e) = ground (arith, lo, e)

-- An index is used once it is accepted, and was not before.
receive_accepted :
    (w : Window) (j : ℕ)
    → IsBounded w
    → (receive w (pos j)).1 ≡ accepted
    → IsUsed (receive w (pos j)).0 j × (IsUsed w j → ⊥)
unfolding receive
receive_accepted w j bounded h =
    (ground (arith, h, bounded j), λ u. ground (arith, h, u.0, u.1, bounded j))

module _ (c : Crypto) (root : Bytes) where
  answer_ok : (a : Arrival) (v : Verdict) {p : Bytes} → answer c root a v ≡ ok p → v ≡ accepted
  unfolding answer
  answer_ok a accepted h = refl
  answer_ok a duplicate h = cc
  answer_ok a too_far h = cc
  answer_ok a negative h = cc

  -- The two counts of the induction: at most one, and none if the index was used before.
  AtMost : Window → ℕ → List Arrival → Type 0
  AtMost w j arrivals =
      (opened j arrivals (window_run c root w arrivals) ≤ 1)
      × (IsUsed w j → opened j arrivals (window_run c root w arrivals) ≡ 0)

  opened_cons :
      (w : Window) (j : ℕ) (a : Arrival) (arrivals : List Arrival)
      → IsBounded w
      → AtMost (receive w a.index).0 j arrivals
      → AtMost w j (a ∷ arrivals)
  unfolding AtMost window_run opened
  opened_cons w j a arrivals bounded (le, zero_if) =
      let kept = receive-IsUsed w a.index j in
      elim (Outcome-cases (answer c root a (receive w a.index).1)) [
        | inr (inl (x, e)) ↦ (ground (arith, e, le), λ u. ground (arith, e, zero_if (kept u)))
        | inr (inr e) ↦ (ground (arith, e, le), λ u. ground (arith, e, zero_if (kept u)))
        | inl (p, e) ↦ elim (Bool-cases (eqb_ℤ a.index (pos j))) [
          | inr other ↦
              (ground (arith, e, other, le), λ u. ground (arith, e, other, zero_if (kept u)))
          | inl same ↦
              let at_j = (eqb_ℤ_iff a.index (pos j)).0 same in
              let taken : (receive w (pos j)).1 ≡ accepted =
                ap (λ (i : ℤ). (receive w i).1) (sym at_j) ∙ answer_ok a (receive w a.index).1 e in
              let (used, fresh) = receive_accepted w j bounded taken in
              let used' : IsUsed (receive w a.index).0 j = rw at_j used in
              (ground (arith, e, same, zero_if used'), λ u. absurd (fresh u))
        ]
      ]

  opened_window : (w : Window) (j : ℕ) (arrivals : List Arrival) → IsBounded w → AtMost w j arrivals
  opened_window w j [] bounded = unfold AtMost opened in (omega arith, λ u. refl)
  opened_window w j (a ∷ arrivals) bounded =
      opened_cons w j a arrivals bounded
        (opened_window (receive w a.index).0 j arrivals (receive-IsBounded w a.index bounded))

module _ (c : Crypto) (laws : CryptoLaws c) (root : Bytes) where
  Refines-IsBounded :
      {w : Window} {keys : SkippedKeys} {m : MessageRatchet} → Refines c root w keys m → IsBounded w
  Refines-IsBounded {w} r = λ a e.
      (let (i, same, old, _) =
          r.in_sync.held.old (pos a) (message_key_at c root a) (ground (arith, e, r.stored a)) in
        ground arith)

  -- At most one message with a given index is opened, in any sequence of messages, genuine or not,
  -- that reaches a ratchet in step that stores the keys of its window's missing messages only.
  pub opened-ratchet_run :
      (w : Window) (keys : SkippedKeys) (m : MessageRatchet) (j : ℕ) (arrivals : List Arrival)
      → Refines c root w keys m
      → opened j arrivals (ratchet_run c keys m arrivals) ≤ 1
  unfolding AtMost
  opened-ratchet_run w keys m j arrivals r =
      rw (ratchet_run-Refines c laws root w keys m arrivals r)
        (opened_window c root w j arrivals (Refines-IsBounded r)).0
