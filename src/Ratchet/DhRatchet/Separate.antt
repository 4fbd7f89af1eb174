-- ===== src/Ratchet/DhRatchet/Separate.antt =====
-- client/internal/contact/ratchet/dhratchet.go: ratchets of which no two chains share a map of skipped
-- keys, and what a write to one map does to the others.
use secure_messager_erlang.Prelude.{
  ℕ, zero, suc, ◌+◌, ◌-◌, ◌<◌, ◌≤◌, ◌≡◌, ◌≢◌, sym, arith, true, Bytes, some, List, [], ◌∷◌, ◌++◌,
  All, All-append, All-drop, All-map, map_cong, length, drop, map, ltb, inl, inr, Bool-cases,
  bytes_equal,
}
use secure_messager_erlang.Ratchet.MessageRatchet.{MessageRatchet, SkippedKeys}
use secure_messager_erlang.Ratchet.DhRatchet.{
  DhRatchet, Maps, make_map, store_map, find_ratchet, limit_previous, prev_ratchet_limit,
  store_current,
}
use secure_messager_erlang.Ratchet.DhRatchet.Stored.{
  StoredChain, StoredRatchet, stored_chain, rebuild, allocate,
}

abbrev pub ref : MessageRatchet → ℕ
ref m = m.skipped_message_keys

-- No two chains refer to one map.
abbrev pub IsApart : List MessageRatchet → Type 0
IsApart [] = Unit
IsApart (m ∷ ms) = All (λ x. ref x ≢ ref m) ms × IsApart ms

pub record IsSeparate (r : DhRatchet) : Type 0 where
  pub allocated : All (λ m. ref m < r.maps.next) (r.current_mratchet ∷ r.previous_mratchets)
  pub apart : IsApart (r.current_mratchet ∷ r.previous_mratchets)

-- A ratchet that was decoded is separate.
allocate-above :
    (i j : ℕ) (chains : List StoredChain) → i < j → All (λ m. ref m ≢ i) (allocate j chains)
allocate-above i j [] h = tt
allocate-above i j (s ∷ chains) h =
    ((λ e. omega (arith, e, h)), allocate-above i (suc j) chains (omega (arith, h)))

allocate-IsApart : (i : ℕ) (chains : List StoredChain) → IsApart (allocate i chains)
allocate-IsApart i [] = tt
allocate-IsApart i (s ∷ chains) =
    (allocate-above i (suc i) chains (omega arith), allocate-IsApart (suc i) chains)

allocate-below :
    (i n : ℕ) (chains : List StoredChain)
    → i + length chains ≤ n
    → All (λ m. ref m < n) (allocate i chains)
allocate-below i n [] h = tt
allocate-below i n (s ∷ chains) h =
    (omega (arith, h), allocate-below (suc i) n chains (omega (arith, h)))

pub rebuild-IsSeparate : (x : StoredRatchet) → IsSeparate (rebuild x)
unfolding rebuild
rebuild-IsSeparate x = record {
  allocated = (
    omega arith,
    allocate-below 1 (suc (length x.previous_mratchets)) x.previous_mratchets (omega arith),
  );
  apart = (
    allocate-above 0 1 x.previous_mratchets (omega arith),
    allocate-IsApart 1 x.previous_mratchets,
  );
}

-- A write to one map is not seen through another reference, and neither is a new map.
pub stored-store_map :
    (h : Maps) (i : ℕ) (keys : SkippedKeys) (ms : List MessageRatchet)
    → All (λ m. ref m ≢ i) ms
    → map (stored_chain (store_map h i keys)) ms ≡ map (stored_chain h) ms
stored-store_map h i keys ms elsewhere =
    map_cong (stored_chain (store_map h i keys)) (stored_chain h) ms
      (All-map _ _ ms (λ m e. ground (arith, e)) elsewhere)

pub stored-make_map :
    (h : Maps) (ms : List MessageRatchet)
    → All (λ m. ref m < h.next) ms
    → map (stored_chain (make_map h)) ms ≡ map (stored_chain h) ms
stored-make_map h ms below =
    map_cong (stored_chain (make_map h)) (stored_chain h) ms
      (All-map _ _ ms (λ m e. ground (arith, e)) below)

-- What holds of every chain holds of those that the code takes out of the list.
pub find_ratchet-All {κ} :
    (P : MessageRatchet → Type κ) (ms : List MessageRatchet) (public_key : Bytes)
    {m : MessageRatchet}
    → All P ms
    → find_ratchet ms public_key ≡ some m
    → P m
unfolding find_ratchet
find_ratchet-All P [] public_key h e = cc
find_ratchet-All P (x ∷ ms) public_key {m} h e =
    elim (Bool-cases (bytes_equal x.foreign_public_key public_key)) [
      | inl same ↦ rw (← taken same) h.0
      | inr other ↦ find_ratchet-All P ms public_key h.1 (ground (arith, other, e))
    ]
  where
    taken : bytes_equal x.foreign_public_key public_key ≡ true → x ≡ m
    taken same = ground (arith, same, e)

IsApart-drop : (n : ℕ) (ms : List MessageRatchet) → IsApart ms → IsApart (drop n ms)
IsApart-drop zero ms h = h
IsApart-drop (suc n) [] h = h
IsApart-drop (suc n) (m ∷ ms) h = IsApart-drop n ms h.1

IsApart-append :
    (ms : List MessageRatchet) (m : MessageRatchet)
    → All (λ x. ref x ≢ ref m) ms
    → IsApart ms
    → IsApart (ms ++ (m ∷ []))
IsApart-append [] m new h = (tt, tt)
IsApart-append (x ∷ ms) m new h = (
  All-append (λ y. ref y ≢ ref x) ms (m ∷ []) h.0 ((λ e. new.0 (sym e)), tt),
  IsApart-append ms m new.1 h.1,
)

limit_previous-IsApart : (ms : List MessageRatchet) → IsApart ms → IsApart (limit_previous ms)
unfolding limit_previous
limit_previous-IsApart ms h = ground (arith, h, IsApart-drop (length ms - prev_ratchet_limit) ms h)

pub limit_previous-All {ℓ κ} :
    {A : Type ℓ} (P : A → Type κ) (ms : List A) → All P ms → All P (limit_previous ms)
unfolding limit_previous
limit_previous-All P ms h = elim (Bool-cases (ltb prev_ratchet_limit (length ms))) [
  | inl over ↦ rw over (All-drop P (length ms - prev_ratchet_limit) ms h)
  | inr under ↦ rw under h
]

-- The previous chains after the current one was stored among them.
pub store_current-IsApart :
    (r : DhRatchet) → IsSeparate r → IsApart (store_current r).previous_mratchets
unfolding store_current
store_current-IsApart r h = ground (
  arith,
  h.apart.1,
  limit_previous-IsApart (r.previous_mratchets ++ (r.current_mratchet ∷ []))
      (IsApart-append r.previous_mratchets r.current_mratchet h.apart.0 h.apart.1),
)

pub store_current-allocated :
    (r : DhRatchet)
    → IsSeparate r
    → All (λ m. ref m < r.maps.next) (store_current r).previous_mratchets
unfolding store_current
store_current-allocated r h = ground (
  arith,
  h.allocated.1,
  limit_previous-All (λ m. ref m < r.maps.next) (r.previous_mratchets ++ (r.current_mratchet ∷ []))
      (All-append (λ m. ref m < r.maps.next) r.previous_mratchets (r.current_mratchet ∷ [])
        h.allocated.1 (h.allocated.0, tt)),
)
