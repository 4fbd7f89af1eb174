-- ===== src/Ratchet/DhRatchet/ByValue.antt =====
-- client/internal/contact/ratchet/dhratchet.go: `RKCycle` of a ratchet whose chains have their maps of
-- skipped keys as values, which is how gob stores it. That `RKCycle` over shared maps does the same.
use secure_messager_erlang.Prelude.{
  suc, ◌*◌, ◌<◌, ◌≡◌, sym, ap, ◌∙◌, arith, Bytes, Option, none, some, List, [], ◌∷◌, ◌++◌, All,
  All-map, map, map-append, map-drop, length-map, length, drop, take, ltb, ◌-◌, if◌then◌else◌, inl,
  inr, negsuc,
}
use secure_messager_erlang.Outcome.{Outcome, Outcome-cases, ok, err, crash, ◌>>=◌}
use secure_messager_erlang.Crypt.Library.{Crypto, CryptoLaws}
use secure_messager_erlang.Crypt.{key_length, generate_shared_secret}
use secure_messager_erlang.Ratchet.Hkdf.{derive}
use secure_messager_erlang.Ratchet.MessageRatchet.{
  max_message_skip, initialize, new_message_ratchet,
}
use secure_messager_erlang.Ratchet.DhRatchet.{
  DhRatchet, ratchet_info, limit_previous, prev_ratchet_limit, store_current, start_chain, rk_cycle,
}
use secure_messager_erlang.Ratchet.DhRatchet.Cycle.{cycle_key, rk_cycle_step, root_material}
use secure_messager_erlang.Ratchet.DhRatchet.Stored.{StoredRatchet, stored_chain, flatten}
use secure_messager_erlang.Ratchet.DhRatchet.Separate.{
  IsApart, ref, IsSeparate, stored-make_map, store_current-allocated, store_current-IsApart,
}

-- The current chain is kept among the previous ones.
unfoldable pub keep_current : StoredRatchet → StoredRatchet
keep_current x =
    if ltb 0 (length x.current_mratchet.foreign_public_key)
    then record x {
      previous_mratchets = limit_previous (x.previous_mratchets ++ (x.current_mratchet ∷ []));
    }
    else x

-- A chain without a key yet, and without skipped keys.
unfoldable pub next_chain : StoredRatchet → Bytes → Bytes → StoredRatchet
next_chain x key_material foreign_public_key = record x {
  root_key = take key_length key_material;
  child_key = drop key_length key_material;
  current_mratchet = record {
    foreign_public_key = foreign_public_key;
    root_key = take key_length key_material;
    chain_key = none;
    skipped_message_keys = [];
    max_skip = max_message_skip;
    previous_index = negsuc 0;
  };
  ratchet_index = suc x.ratchet_index;
}

-- The end of the cycle, with the current chain kept.
unfoldable pub cycle_kept : Crypto → StoredRatchet → Bytes → Outcome StoredRatchet
cycle_kept c x foreign = elim (generate_shared_secret c x.keypair foreign) [
  | crash ↦ crash
  | err e ↦ ok x
  | ok dh_key ↦ elim (derive c x.root_key (some dh_key) ratchet_info (2 * key_length)) [
    | crash ↦ crash
    | err e ↦ ok x
    | ok key_material ↦ ok (next_chain x key_material foreign)
  ]
]

unfoldable pub cycle : Crypto → StoredRatchet → Option Bytes → Outcome StoredRatchet
cycle c x key =
    cycle_kept c (keep_current x)
      (elim key [ none ↦ x.current_mratchet.foreign_public_key | some k ↦ k ])

map-limit_previous {ℓ κ} :
    {A : Type ℓ} {B : Type κ} (f : A → B) (xs : List A)
    → map f (limit_previous xs) ≡ limit_previous (map f xs)
unfolding limit_previous
map-limit_previous f xs =
    ground (arith, length-map f xs, map-drop f (length xs - prev_ratchet_limit) xs)

flatten-store_current : (r : DhRatchet) → flatten (store_current r) ≡ keep_current (flatten r)
unfolding flatten keep_current store_current
flatten-store_current r =
    let f = stored_chain r.maps in
    ground (
      arith,
      map-limit_previous f (r.previous_mratchets ++ (r.current_mratchet ∷ [])),
      map-append f r.previous_mratchets (r.current_mratchet ∷ []),
    )

flatten-start_chain :
    (r : DhRatchet) (key_material foreign : Bytes)
    → All (λ m. ref m < r.maps.next) r.previous_mratchets
    → flatten (start_chain r key_material foreign) ≡ next_chain (flatten r) key_material foreign
unfolding flatten next_chain start_chain initialize new_message_ratchet
flatten-start_chain r key_material foreign below =
    ground (arith, stored-make_map r.maps r.previous_mratchets below)

start_chain-IsSeparate :
    (r : DhRatchet) (key_material foreign : Bytes)
    → All (λ m. ref m < r.maps.next) r.previous_mratchets
    → IsApart r.previous_mratchets
    → IsSeparate (start_chain r key_material foreign)
unfolding start_chain initialize new_message_ratchet
start_chain-IsSeparate r key_material foreign below apart = record {
  allocated = (omega arith, All-map _ _ r.previous_mratchets (λ m h. omega (arith, h)) below);
  apart = (All-map _ _ r.previous_mratchets (λ m h e. omega (arith, h, e)) below, apart);
}

store_current-maps : (r : DhRatchet) → (store_current r).maps ≡ r.maps
unfolding store_current
store_current-maps r = ground arith

cycle_kept-flatten :
    (c : Crypto) (r : DhRatchet) (key : Option Bytes)
    → IsSeparate r
    → cycle_kept c (flatten (store_current r)) (cycle_key r key)
      ≡ (rk_cycle c r key >>= λ r'. ok (flatten r'))
unfolding cycle_kept rk_cycle flatten
cycle_kept-flatten c r key h =
    let s = store_current r in
    let foreign = cycle_key r key in
    let below : All (λ m. ref m < s.maps.next) s.previous_mratchets =
      rw (store_current-maps r) (store_current-allocated r h) in
    elim (Outcome-cases (generate_shared_secret c s.keypair foreign)) [
      | inr (inr e) ↦ ground (arith, e)
      | inr (inl (x, e)) ↦ ground (arith, e)
      | inl (dh_key, e) ↦
          elim (Outcome-cases (derive c s.root_key (some dh_key) ratchet_info (2 * key_length))) [
            | inr (inr e') ↦ ground (arith, e, e')
            | inr (inl (x, e')) ↦ ground (arith, e, e')
            | inl (key_material, e') ↦
                ground (arith, e, e', flatten-start_chain s key_material foreign below)
          ]
    ]

-- `RKCycle` is `cycle` on what the references stand for.
pub rk_cycle-flatten :
    (c : Crypto) (r : DhRatchet) (key : Option Bytes)
    → IsSeparate r
    → cycle c (flatten r) key ≡ (rk_cycle c r key >>= λ r'. ok (flatten r'))
unfolding cycle flatten
rk_cycle-flatten c r key h =
    ap (λ x. cycle_kept c x (cycle_key r key)) (sym (flatten-store_current r))
    ∙ cycle_kept-flatten c r key h

-- A cycle whose secret can be computed gives a separate ratchet again. (One whose secret cannot be
-- computed leaves the current chain and its copy with one map.)
pub rk_cycle-IsSeparate :
    (c : Crypto) (laws : CryptoLaws c) (r : DhRatchet) (key : Option Bytes) {secret : Bytes}
    {r' : DhRatchet}
    → IsSeparate r
    → generate_shared_secret c r.keypair (cycle_key r key) ≡ ok secret
    → rk_cycle c r key ≡ ok r'
    → IsSeparate r'
rk_cycle-IsSeparate c laws r key {secret} {r'} h shared done =
    let s = store_current r in
    let key_material = root_material c r.root_key secret in
    let made = sym (rk_cycle_step c laws r key shared) ∙ done in
    let below : All (λ m. ref m < s.maps.next) s.previous_mratchets =
      rw (store_current-maps r) (store_current-allocated r h) in
    rw (← ap (or_else r') made)
      (start_chain-IsSeparate s key_material (cycle_key r key) below (store_current-IsApart r h))
  where
    or_else : DhRatchet → Outcome DhRatchet → DhRatchet
    or_else d (ok x) = x
    or_else d _ = d
