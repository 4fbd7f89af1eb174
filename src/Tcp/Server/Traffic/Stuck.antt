-- ===== src/Tcp/Server/Traffic/Stuck.antt =====
-- client/internal/tcpclient/tcpclient.go: an answer that arrives while the time of its request ends.
use secure_messager_erlang.Prelude.{ℕ, ◌≡◌, refl, ◌∙◌, arith, ◌⊎◌, inl}
use secure_messager_erlang.Tcp.Server.Traffic.{
  fresh, expired, refused, handing, Traffic, has_locked, Step, enters, writes, fails, drops,
  refuses, expires, gives_up, finds, hands_over, deletes, handles, asks_again, handled, Steps,
  none_yet, then_step,
}

-- The listener holds the mutex and sends on a channel that nobody receives from any more.
abbrev pub IsStuck : ℕ → Traffic → Type 0
IsStuck k s = (s.listener ≡ handing k) × ((s.phase k ≡ expired) ⊎ (s.phase k ≡ refused))

Step-IsStuck : {s t : Traffic} (k : ℕ) → Step s t → IsStuck k s → IsStuck k t
Step-IsStuck k (enters i f e) (l, p) = ground (arith, l, f)
Step-IsStuck k (writes i f e) (l, p) = ground (arith, l, f)
Step-IsStuck k (fails i f e) (l, p) = ground (arith, l, f)
Step-IsStuck k (drops m f e) (l, p) = ground (arith, l, f)
Step-IsStuck k (refuses i e) (l, p) = (l, ground (arith, p, e))
Step-IsStuck k (expires i e) (l, p) = (l, ground (arith, p, e))
Step-IsStuck k (gives_up i f e) (l, p) = ground (arith, l, f)
Step-IsStuck k (finds i e _) (l, p) = cc
Step-IsStuck k (hands_over i e w) (l, p) = ground (arith, l, p, e, w)
Step-IsStuck k (deletes i e) (l, p) = cc
Step-IsStuck k (handles i e _) (l, p) = cc
Step-IsStuck k (asks_again m i e _ _) (l, p) = cc
Step-IsStuck k (handled i e _) (l, p) = cc

-- A step of a stuck system: who has not entered does not, and nobody returns by way of the mutex.
Step-stuck_phase :
    {s t : Traffic} (k i : ℕ)
    → Step s t
    → IsStuck k s
    → (has_locked (t.phase i) ≡ has_locked (s.phase i))
      × ((s.phase i ≡ fresh) → (t.phase i ≡ fresh))
Step-stuck_phase k i (enters j f e) (l, p) = ground (arith, l, f)
Step-stuck_phase k i (writes j f e) (l, p) = ground (arith, l, f)
Step-stuck_phase k i (fails j f e) (l, p) = ground (arith, l, f)
Step-stuck_phase k i (drops m f e) (l, p) = ground (arith, l, f)
Step-stuck_phase k i (refuses j e) (l, p) = (ground (arith, e), λ h. ground (arith, e, h))
Step-stuck_phase k i (expires j e) (l, p) = (ground (arith, e), λ h. ground (arith, e, h))
Step-stuck_phase k i (gives_up j f e) (l, p) = ground (arith, l, f)
Step-stuck_phase k i (finds j e _) (l, p) = (refl, λ h. h)
Step-stuck_phase k i (hands_over j e w) (l, p) = ground (arith, l, p, e, w)
Step-stuck_phase k i (deletes j e) (l, p) = cc
Step-stuck_phase k i (handles j e _) (l, p) = (refl, λ h. h)
Step-stuck_phase k i (asks_again m j e _ _) (l, p) = (refl, λ h. h)
Step-stuck_phase k i (handled j e _) (l, p) = (refl, λ h. h)

Steps-IsStuck : {s t : Traffic} (k : ℕ) → Steps s t → IsStuck k s → IsStuck k t
Steps-IsStuck k none_yet h = h
Steps-IsStuck k (then_step hs s) h = Step-IsStuck k s (Steps-IsStuck k hs h)

Steps-has_locked :
    {s t : Traffic} (k i : ℕ)
    → Steps s t
    → IsStuck k s
    → has_locked (t.phase i) ≡ has_locked (s.phase i)
Steps-has_locked k i none_yet h = refl
Steps-has_locked k i (then_step hs s) h =
    (Step-stuck_phase k i s (Steps-IsStuck k hs h)).0 ∙ Steps-has_locked k i hs h

Steps-fresh :
    {s t : Traffic} (k i : ℕ) → Steps s t → IsStuck k s → s.phase i ≡ fresh → t.phase i ≡ fresh
Steps-fresh k i none_yet h e = e
Steps-fresh k i (then_step hs s) h e =
    (Step-stuck_phase k i s (Steps-IsStuck k hs h)).1 (Steps-fresh k i hs h e)

-- One answer that arrives while its request's time ends stops the whole connection: from then on, in
-- every order of steps, the listener stays where it is, no request is answered, times out or fails
-- that had not done so, and none that had not begun begins.
pub Steps-stuck :
    {s t : Traffic} (k i j : ℕ)
    → Steps s t
    → s.listener ≡ handing k
    → s.phase k ≡ expired
    → s.phase j ≡ fresh
    → (t.listener ≡ handing k)
      × (has_locked (t.phase i) ≡ has_locked (s.phase i))
      × (t.phase j ≡ fresh)
Steps-stuck {s} k i j h l e f =
    let stuck : IsStuck k s = (l, inl e) in
    ((Steps-IsStuck k h stuck).0, Steps-has_locked k i h stuck, Steps-fresh k j h stuck f)
