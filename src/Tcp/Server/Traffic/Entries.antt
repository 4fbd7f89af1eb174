-- ===== src/Tcp/Server/Traffic/Entries.antt =====
-- client/internal/tcpclient/tcpclient.go: the entries of `pendingResponses` in every interleaving.
use secure_messager_erlang.Prelude.{ℕ, ◌≡◌, refl, arith, true, false, if◌then◌else◌}
use secure_messager_erlang.Tcp.Server.Traffic.{
  answered, reading, handing, deleting, handling, Listener, Traffic, is_free, is_deleting,
  has_entry, Step, enters, writes, fails, drops, refuses, expires, gives_up, finds, hands_over,
  deletes, handles, asks_again, handled, new_traffic, Steps, none_yet, then_step,
}

-- The request whose entry the listener is about to delete has its answer.
Step-IsAnswered :
    {s t : Traffic}
    → Step s t
    → ((k : ℕ) → s.listener ≡ deleting k → s.phase k ≡ answered)
    → (k : ℕ) → t.listener ≡ deleting k
    → t.phase k ≡ answered
Step-IsAnswered (enters j f e) h k at = ground (arith, h k at, e)
Step-IsAnswered (writes j f e) h k at = ground (arith, h k at, e)
Step-IsAnswered (fails j f e) h k at = ground (arith, h k at, e)
Step-IsAnswered (drops j f e) h k at = ground (arith, h k at, e)
Step-IsAnswered (refuses j e) h k at = ground (arith, h k at, e)
Step-IsAnswered (expires j e) h k at = ground (arith, h k at, e)
Step-IsAnswered (gives_up j f e) h k at = ground (arith, h k at, e)
Step-IsAnswered (finds j l e) h k at = cc
Step-IsAnswered (hands_over j l e) h k at = ground (arith, at)
Step-IsAnswered (deletes j l) h k at = cc
Step-IsAnswered (handles j l e) h k at = cc
Step-IsAnswered (asks_again m j l r e) h k at = cc
Step-IsAnswered (handled j l e) h k at = cc

Steps-IsAnswered :
    {s : Traffic} → Steps new_traffic s → (k : ℕ) → s.listener ≡ deleting k → s.phase k ≡ answered
Steps-IsAnswered none_yet k at = cc
Steps-IsAnswered (then_step h s) k at = Step-IsAnswered s (Steps-IsAnswered h) k at

free_is_deleting : (l : Listener) (i : ℕ) → is_free l ≡ true → is_deleting l i ≡ false
free_is_deleting reading i f = refl
free_is_deleting (handing k) i f = refl
free_is_deleting (deleting k) i f = cc
free_is_deleting (handling k) i f = refl

Step-Tracks :
    {s t : Traffic}
    → Step s t
    → ((k : ℕ) → s.listener ≡ deleting k → s.phase k ≡ answered)
    → ((i : ℕ) → s.pending i ≡ (if has_entry (s.phase i) then true else is_deleting s.listener i))
    → (i : ℕ) → t.pending i ≡ (if has_entry (t.phase i) then true else is_deleting t.listener i)
Step-Tracks (enters j f e) d h i = ground (arith, h i, e)
Step-Tracks (writes j f e) d h i = ground (arith, h i, e)
Step-Tracks (fails j f e) d h i = ground (arith, h i, e)
Step-Tracks {s} (drops j f e) d h i = ground (arith, h i, e, free_is_deleting s.listener i f)
Step-Tracks (refuses j e) d h i = ground (arith, h i, e)
Step-Tracks (expires j e) d h i = ground (arith, h i, e)
Step-Tracks {s} (gives_up j f e) d h i = ground (arith, h i, e, free_is_deleting s.listener i f)
Step-Tracks (finds k l e) d h i = ground (arith, h i, l)
Step-Tracks (hands_over k l e) d h i = ground (arith, h i, e, l)
Step-Tracks (deletes k l) d h i = ground (arith, h i, d k l, l)
Step-Tracks (handles j l e) d h i = ground (arith, h i, l)
Step-Tracks (asks_again k j l r e) d h i = ground (arith, h i, l)
Step-Tracks (handled j l e) d h i = ground (arith, h i, l)

-- In every order of steps a request has its entry from its first section until it returns. After it
-- has returned it has one only while the listener, which has just handed it the answer, has not yet
-- deleted it; except that a refused frame leaves its entry for ever.
pub Steps-has_entry :
    {s : Traffic} (i : ℕ)
    → Steps new_traffic s
    → s.pending i ≡ (if has_entry (s.phase i) then true else is_deleting s.listener i)
Steps-has_entry i none_yet = refl
Steps-has_entry i (then_step h s) = Step-Tracks s (Steps-IsAnswered h) (λ j. Steps-has_entry j h) i
