-- ===== src/Tcp/Server/Traffic/Handlers.antt =====
-- client/internal/tcpclient/tcpclient.go, client/client.go: the requests of handlers, which run in the
-- goroutine of the listener.
use secure_messager_erlang.Prelude.{
  ℕ, ◌≡◌, ◌≢◌, refl, arith, true, ◌⊎◌, inl, inr, ◌==◌, ==_iff, Bool-cases,
}
use secure_messager_erlang.Tcp.Server.Traffic.{
  answered, handling, Traffic, has_returned, Step, enters, writes, fails, drops, refuses, expires,
  gives_up, finds, hands_over, deletes, handles, asks_again, handled, new_traffic, Steps, none_yet,
  then_step,
}

-- A request of a handler runs while the listener waits for the handler, or has returned without an
-- answer.
abbrev OwnRequest : Traffic → ℕ → Type 0
OwnRequest s j =
    ((s.listener ≡ handling j) × (s.phase j ≢ answered))
    ⊎ ((has_returned (s.phase j) ≡ true) × (s.phase j ≢ answered))

Step-OwnRequest :
    {s t : Traffic}
    → Step s t
    → ((j : ℕ) → s.by_handler j ≡ true → OwnRequest s j)
    → (j : ℕ) → t.by_handler j ≡ true
    → OwnRequest t j
Step-OwnRequest (enters i f e) h j own = ground (arith, h j own, e)
Step-OwnRequest (writes i f e) h j own = ground (arith, h j own, e)
Step-OwnRequest (fails i f e) h j own = ground (arith, h j own, e)
Step-OwnRequest (drops i f e) h j own = ground (arith, h j own, e)
Step-OwnRequest (refuses i e) h j own = ground (arith, h j own, e)
Step-OwnRequest (expires i e) h j own = ground (arith, h j own, e)
Step-OwnRequest (gives_up i f e) h j own = ground (arith, h j own, e)
Step-OwnRequest (finds k l e) h j own = ground (arith, h j own, e, l)
Step-OwnRequest (hands_over k l e) h j own = ground (arith, h j own, e, l)
Step-OwnRequest (deletes k l) h j own = ground (arith, h j own, l)
Step-OwnRequest (handles i l e) h j own = elim (Bool-cases (i == j)) [
  | inl same ↦ let at = (==_iff i j).0 same in inl (rw at refl, ground (arith, at, e))
  | inr other ↦ ground (arith, other, h j, own, l)
]
Step-OwnRequest (asks_again k i l r e) h j own = elim (Bool-cases (i == j)) [
  | inl same ↦ let at = (==_iff i j).0 same in inl (rw at refl, ground (arith, at, e))
  | inr other ↦ ground (arith, other, h j, own, l, r)
]
Step-OwnRequest (handled i l e) h j own = ground (arith, h j own, l, e)

Steps-OwnRequest :
    {s : Traffic} → Steps new_traffic s → (j : ℕ) → s.by_handler j ≡ true → OwnRequest s j
Steps-OwnRequest none_yet j own = cc
Steps-OwnRequest (then_step h s) j own = Step-OwnRequest s (Steps-OwnRequest h) j own

-- A request that a handler makes, in the goroutine of the listener, is never answered: in every order
-- of steps, whatever the server sends.
pub by_handler_unanswered :
    {s : Traffic} (j : ℕ) → Steps new_traffic s → s.by_handler j ≡ true → s.phase j ≢ answered
by_handler_unanswered j h own = elim (Steps-OwnRequest h j own) [
  | inl (_, not_answered) ↦ not_answered
  | inr (_, not_answered) ↦ not_answered
]
