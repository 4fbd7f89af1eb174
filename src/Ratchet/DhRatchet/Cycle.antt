-- ===== src/Ratchet/DhRatchet/Cycle.antt =====
-- client/internal/contact/ratchet/dhratchet.go: what a cycle of the root key does, and that two
-- sides that make the same cycle get the same keys.
use secure_messager_erlang.Prelude.{
  suc, ◌-◌, ◌≤◌, ◌≡◌, refl, sym, ap, ◌∙◌, List, [], ◌∷◌, ◌++◌, arith, Option, none, some, Bytes,
  length, length-drop, take, ℤ_eq, ℕ_eq, Bytes_eq, lookup,
}
use secure_messager_erlang.Outcome.{Error, ok, err}
use secure_messager_erlang.Crypt.Library.{Crypto, CryptoLaws}
use secure_messager_erlang.Crypt.{generate_shared_secret}
use secure_messager_erlang.Ratchet.MessageRatchet.{MessageRatchet, new_message_ratchet, initialize}
use secure_messager_erlang.Ratchet.MessageRatchet.KeySchedule.{key_material, chain_key_at}
use secure_messager_erlang.Ratchet.MessageRatchet.Receiving.{InSync}
use secure_messager_erlang.Ratchet.Hkdf.{extract, derive}
use secure_messager_erlang.Ratchet.Hkdf.Rfc5869.{derive_one_block}
use secure_messager_erlang.Ratchet.DhRatchet.{
  DhRatchet, current_keys, store_current, start_chain, limit_previous, rk_cycle, ratchet_info,
  prev_ratchet_limit,
}

-- What the root key and a shared secret expand to: one block of HKDF.
unfoldable pub root_material : Crypto → Bytes → Bytes → Bytes
root_material c root secret = c.hmac_sha512 (c.hmac_sha512 secret root) (ratchet_info ++ (1 ∷ []))

unfoldable pub next_root : Crypto → Bytes → Bytes → Bytes
next_root c root secret = take 32 (root_material c root secret)

-- A new chain is in step with its root key from the first message on.
start_chain-InSync :
    (c : Crypto) (r : DhRatchet) (key_material foreign : Bytes)
    → InSync c
        (take 32 key_material)
        0
        (current_keys (start_chain r key_material foreign))
        (start_chain r key_material foreign).current_mratchet
unfolding start_chain initialize new_message_ratchet chain_key_at lookup
start_chain-InSync c r key_material foreign = record {
  follows = record { input = refl; index = refl; bound = refl };
  held = record { old = λ i k e. absurd (ground (arith, e)) };
}

-- The key that `RKCycle` takes: the one given, or that of the current chain.
abbrev pub cycle_key : DhRatchet → Option Bytes → Bytes
cycle_key r key = elim key [ none ↦ r.current_mratchet.foreign_public_key | some k ↦ k ]

store_current_keeps :
    (r : DhRatchet)
    → ((store_current r).keypair ≡ r.keypair)
      × ((store_current r).state ≡ r.state)
      × ((store_current r).ratchet_index ≡ r.ratchet_index)
unfolding store_current
store_current_keeps r = ground arith

-- What a ratchet is after a cycle that succeeds.
pub record Cycled (c : Crypto) (r : DhRatchet) (key secret : Bytes) (r' : DhRatchet) : Type 0 where
  pub root : r'.root_key ≡ next_root c r.root_key secret
  pub in_sync : InSync c (next_root c r.root_key secret) 0 (current_keys r') r'.current_mratchet
  pub foreign : r'.current_mratchet.foreign_public_key ≡ key
  pub keypair : r'.keypair ≡ r.keypair
  pub state : r'.state ≡ r.state
  pub index : r'.ratchet_index ≡ suc r.ratchet_index
  pub previous : r'.previous_mratchets ≡ (store_current r).previous_mratchets

module _ (c : Crypto) where
  -- A secret that cannot be computed is no failure of the cycle: the keys stay, and the current
  -- chain is stored among the previous ones, where it was not before.
  pub rk_cycle_no_secret :
      (r : DhRatchet) (key : Option Bytes) {e : Error}
      → generate_shared_secret c r.keypair (cycle_key r key) ≡ err e
      → rk_cycle c r key ≡ ok (store_current r)
  unfolding rk_cycle store_current
  rk_cycle_no_secret r key h = ground (arith, h)

module _ (c : Crypto) (laws : CryptoLaws c) where
  derive_root :
      (root secret : Bytes)
      → derive c root (some secret) ratchet_info 64 ≡ ok (root_material c root secret)
  unfolding root_material extract
  derive_root root secret = derive_one_block c laws root (some secret) ratchet_info

  pub rk_cycle_step :
      (r : DhRatchet) (key : Option Bytes) {secret : Bytes}
      → generate_shared_secret c r.keypair (cycle_key r key) ≡ ok secret
      → rk_cycle c r key
        ≡ ok (start_chain (store_current r) (root_material c r.root_key secret) (cycle_key r key))
  unfolding rk_cycle store_current
  rk_cycle_step r key {secret} h = ground (arith, h, derive_root r.root_key secret)

  -- If the shared secret can be computed, the cycle succeeds and starts a chain in step with the
  -- next root key.
  pub rk_cycle_lem :
      (r : DhRatchet) (key : Option Bytes) {secret : Bytes}
      → generate_shared_secret c r.keypair (cycle_key r key) ≡ ok secret
      → (r' : DhRatchet) × (rk_cycle c r key ≡ ok r') × Cycled c r (cycle_key r key) secret r'
  rk_cycle_lem r key {secret} h = (
    start_chain (store_current r) (root_material c r.root_key secret) (cycle_key r key),
    rk_cycle_step r key h,
    record {
      root = unfold next_root start_chain in refl;
      in_sync =
          unfold next_root in
          start_chain-InSync c (store_current r) (root_material c r.root_key secret)
            (cycle_key r key);
      foreign = unfold start_chain initialize in refl;
      keypair = unfold start_chain in (store_current_keeps r).0;
      state = unfold start_chain in (store_current_keeps r).1;
      index = unfold start_chain in ap suc (store_current_keeps r).2;
      previous = unfold start_chain in refl;
    },
  )

  -- Two sides with the same root key and genuine key pairs, whose shared secret can be computed, cycle
  -- with each other's public keys: both succeed, reach the same root key and start chains in step with
  -- that root key itself, not with the second output of the derivation, the child key.
  pub rk_cycle_agree :
      (a b : DhRatchet) {secret : Bytes}
      → a.root_key ≡ b.root_key
      → c.x25519 a.keypair.private_key c.basepoint ≡ ok a.keypair.public_key
      → c.x25519 b.keypair.private_key c.basepoint ≡ ok b.keypair.public_key
      → generate_shared_secret c a.keypair b.keypair.public_key ≡ ok secret
      → (a' : DhRatchet) × (b' : DhRatchet) × (rk_cycle c a (some b.keypair.public_key) ≡ ok a')
        × (rk_cycle c b (some a.keypair.public_key) ≡ ok b')
        × (a'.root_key ≡ b'.root_key)
        × InSync c a'.root_key 0 (current_keys a') a'.current_mratchet
        × InSync c a'.root_key 0 (current_keys b') b'.current_mratchet
  unfolding generate_shared_secret
  rk_cycle_agree a b {secret} same pub_a pub_b h =
      let (a', done_a, cycled_a) = rk_cycle_lem a (some b.keypair.public_key) h in
      let (b', done_b, cycled_b) =
        rk_cycle_lem b (some a.keypair.public_key)
          (rw (← laws.x25519_agree a.keypair.private_key b.keypair.private_key pub_a pub_b) h) in
      (
        a',
        b',
        done_a,
        done_b,
        cycled_a.root ∙ ap (λ (k : Bytes). next_root c k secret) same ∙ sym cycled_b.root,
        rw cycled_a.root cycled_a.in_sync,
        rw (cycled_a.root, same) cycled_b.in_sync,
      )

length-limit_previous : (ms : List MessageRatchet) → length (limit_previous ms) ≤ prev_ratchet_limit
unfolding limit_previous
length-limit_previous ms = ground (arith, length-drop (length ms - prev_ratchet_limit) ms)

-- A cycle never leaves more previous chains than the limit, whether or not the secret could be
-- computed.
pub rk_cycle-limit :
    (c : Crypto) (r : DhRatchet) (key : Option Bytes) {r' : DhRatchet}
    → length r.previous_mratchets ≤ prev_ratchet_limit
    → rk_cycle c r key ≡ ok r'
    → length r'.previous_mratchets ≤ prev_ratchet_limit
unfolding rk_cycle store_current start_chain
rk_cycle-limit c r key h e =
    ground (arith, e, length-limit_previous (r.previous_mratchets ++ (r.current_mratchet ∷ [])))
