-- ===== src/Message/Cipher/Refinement.antt =====
-- client/internal/contact/message/message.go: `Decrypt` over shared maps does what `open_message` does
-- over values.
use secure_messager_erlang.Prelude.{
  ℕ, bytes_equal, ◌≡◌, refl, sym, ap, ◌∙◌, arith, Bytes, Option-cases, none, some, true, false, inl,
  inr, Bool-cases, ◌⊎◌,
}
use secure_messager_erlang.Outcome.{Outcome, ok, err, crash}
use secure_messager_erlang.Crypt.Library.{Crypto, CryptoLaws}
use secure_messager_erlang.Crypt.{generate_shared_secret}
use secure_messager_erlang.Message.{Message, hash_to_bytes}
use secure_messager_erlang.Ratchet.MessageRatchet.{MessageRatchet, SkippedKeys}
use secure_messager_erlang.Ratchet.MessageRatchet.Reference.{decrypt-ref}
use secure_messager_erlang.Ratchet.DhRatchet.{
  DhRatchet, store_map, is_current_ratchet, get_prev_ratchet, receiving,
}
use secure_messager_erlang.Ratchet.DhRatchet.Cycle.{rk_cycle_lem}
use secure_messager_erlang.Ratchet.DhRatchet.Stored.{
  StoredChain, StoredRatchet, stored_chain, flatten,
}
use secure_messager_erlang.Ratchet.DhRatchet.Separate.{ref, IsSeparate}
use secure_messager_erlang.Ratchet.DhRatchet.ByValue.{cycle, rk_cycle-flatten, rk_cycle-IsSeparate}
use secure_messager_erlang.Message.Cipher.{set_plain, decrypt_current, decrypt_previous, decrypt}
use secure_messager_erlang.Message.Cipher.ByValue.{
  open_current, open_previous, open_message, flat, opened, find_chain, find_chain-stored,
  open_current-flatten, open_previous-flatten,
}

module _ (c : Crypto) where
  -- The two ways of a message: through the current chain, of the ratchet or of the ratchet after a
  -- cycle, or through a previous one.
  record Current (m : Message) (r r' : DhRatchet) : Type 0 where
    separate : IsSeparate r'
    keypair : r'.keypair ≡ r.keypair
    shared : decrypt c m r ≡ decrypt_current c m r'
    by_value : open_message c m (flatten r) ≡ open_current c m (flatten r')

  record Previous (m : Message) (r : DhRatchet) (prev : MessageRatchet) : Type 0 where
    found : get_prev_ratchet r m.header.public_key ≡ some prev
    shared : decrypt c m r ≡ decrypt_previous c m r prev
    by_value :
        open_message c m (flatten r) ≡ open_previous c m (flatten r) (stored_chain r.maps prev)

  pub set_plain_ratchet :
      {R : Type 0} (m : Message) (r : R) (plaintext : Outcome Bytes)
      → (set_plain c m r plaintext).1 ≡ r
  set_plain_ratchet m r (ok plaintext) = refl
  set_plain_ratchet m r (err e) = refl
  set_plain_ratchet m r crash = refl

  open_message-by_current :
      (m : Message) (x : StoredRatchet)
      → bytes_equal x.current_mratchet.foreign_public_key m.header.public_key ≡ true
      → open_message c m x ≡ open_current c m x
  unfolding open_message
  open_message-by_current m x same = ground (arith, same)

  open_message-by_previous :
      (m : Message) (x : StoredRatchet) {prev : StoredChain}
      → bytes_equal x.current_mratchet.foreign_public_key m.header.public_key ≡ false
      → find_chain x.previous_mratchets m.header.public_key ≡ some prev
      → open_message c m x ≡ open_previous c m x prev
  unfolding open_message
  open_message-by_previous m x other found = ground (arith, other, found)

  open_message-by_cycle :
      (m : Message) (x x1 : StoredRatchet)
      → bytes_equal x.current_mratchet.foreign_public_key m.header.public_key ≡ false
      → find_chain x.previous_mratchets m.header.public_key ≡ none
      → cycle c x (some m.header.public_key) ≡ ok x1
      → open_message c m x ≡ open_current c m (record x1 { state = receiving })
  unfolding open_message
  open_message-by_cycle m x x1 other absent done = ground (arith, other, absent, done)

module _ (c : Crypto) (laws : CryptoLaws c) where
  by_cycle :
      (m : Message) (r : DhRatchet) {secret : Bytes}
      → IsSeparate r
      → is_current_ratchet r m.header.public_key ≡ false
      → get_prev_ratchet r m.header.public_key ≡ none
      → generate_shared_secret c r.keypair m.header.public_key ≡ ok secret
      → (r' : DhRatchet) × Current c m r r'
  unfolding decrypt is_current_ratchet flatten get_prev_ratchet
  by_cycle m r h other absent secret_ok =
      let key = some m.header.public_key in
      let (r1, done, cycled) = rk_cycle_lem c laws r key secret_ok in
      let separate = rk_cycle-IsSeparate c laws r key h secret_ok done in
      let nowhere : find_chain (flatten r).previous_mratchets m.header.public_key ≡ none =
        ground (arith, absent, find_chain-stored r.maps r.previous_mratchets m.header.public_key) in
      let done' : cycle c (flatten r) key ≡ ok (flatten r1) =
        ground (arith, done, rk_cycle-flatten c r key h) in
      (
        record r1 { state = receiving },
        record {
          separate = record { allocated = separate.allocated; apart = separate.apart };
          keypair = cycled.keypair;
          shared = ground (arith, other, absent, done);
          by_value = open_message-by_cycle c m (flatten r) (flatten r1) other nowhere done';
        },
      )

  decrypt-Previous :
      (m : Message) (r : DhRatchet) {prev : MessageRatchet}
      → is_current_ratchet r m.header.public_key ≡ false
      → get_prev_ratchet r m.header.public_key ≡ some prev
      → Previous c m r prev
  unfolding decrypt is_current_ratchet flatten get_prev_ratchet
  decrypt-Previous m r {prev} other found =
      let there : find_chain (flatten r).previous_mratchets m.header.public_key
          ≡ some (stored_chain r.maps prev) =
        ground (arith, found, find_chain-stored r.maps r.previous_mratchets m.header.public_key) in
      record {
        found = found;
        shared = ground (arith, other, found);
        by_value = open_message-by_previous c m (flatten r) other there;
      }

  decrypt-ways :
      (m : Message) (r : DhRatchet) {secret : Bytes}
      → IsSeparate r
      → generate_shared_secret c r.keypair m.header.public_key ≡ ok secret
      → ((r' : DhRatchet) × Current c m r r') ⊎ ((prev : MessageRatchet) × Previous c m r prev)
  unfolding decrypt is_current_ratchet flatten
  decrypt-ways m r h secret_ok = elim (Bool-cases (is_current_ratchet r m.header.public_key)) [
    | inl same ↦ inl (
      r,
      record {
        separate = h;
        keypair = refl;
        shared = ground (arith, same);
        by_value = open_message-by_current c m (flatten r) same;
      },
    )
    | inr other ↦ elim (Option-cases (get_prev_ratchet r m.header.public_key)) [
      | inl absent ↦ inl (by_cycle m r h other absent secret_ok)
      | inr (prev, found) ↦ inr (prev, decrypt-Previous m r other found)
    ]
  ]

  -- `Decrypt` of a ratchet of which no two chains share a map, with a message whose public key gives a
  -- secret, makes of the message what `open_message` makes of it by value, with the same error, and
  -- leaves a ratchet that stands for what `open_message` leaves.
  pub decrypt-flatten :
      (m : Message) (r : DhRatchet) {secret : Bytes}
      → IsSeparate r
      → generate_shared_secret c r.keypair m.header.public_key ≡ ok secret
      → open_message c m (flatten r) ≡ flat (decrypt c m r)
  decrypt-flatten m r h secret_ok = elim (decrypt-ways m r h secret_ok) [
    | inl (r', way) ↦
        way.by_value ∙ open_current-flatten c m r' way.separate ∙ ap flat (sym way.shared)
    | inr (prev, way) ↦
        way.by_value ∙ open_previous-flatten c m r prev h way.found ∙ ap flat (sym way.shared)
  ]

  written-IsSeparate :
      (r : DhRatchet) (chain : MessageRatchet) (i : ℕ) (keys : SkippedKeys)
      → ref chain ≡ ref r.current_mratchet
      → IsSeparate r
      → IsSeparate (record r { current_mratchet = chain; maps = store_map r.maps i keys })
  written-IsSeparate r chain i keys same h = record {
    allocated = (rw same h.allocated.0, h.allocated.1);
    apart = (rw same h.apart.0, h.apart.1);
  }

  decrypt_current-IsSeparate :
      (m : Message) (r : DhRatchet)
      → IsSeparate r
      → IsSeparate (decrypt_current c m r).1 × ((decrypt_current c m r).1.keypair ≡ r.keypair)
  unfolding decrypt_current
  decrypt_current-IsSeparate m r h =
      let x = r.current_mratchet in
      let (keys, chain, plaintext) = opened c m r x in
      let same =
        decrypt-ref c (r.maps.cell (ref x)) x m.encrypted_message (hash_to_bytes m.hash)
          m.header.index in
      let r' = record r { current_mratchet = chain; maps = store_map r.maps (ref x) keys } in
      rw (set_plain_ratchet c m r' plaintext) (written-IsSeparate r chain (ref x) keys same h, refl)

  decrypt_previous-IsSeparate :
      (m : Message) (r : DhRatchet) (prev : MessageRatchet)
      → IsSeparate r
      → IsSeparate (decrypt_previous c m r prev).1
        × ((decrypt_previous c m r prev).1.keypair ≡ r.keypair)
  unfolding decrypt_previous
  decrypt_previous-IsSeparate m r prev h =
      let (keys, chain, plaintext) = opened c m r prev in
      let r' = record r { maps = store_map r.maps (ref prev) keys } in
      rw (set_plain_ratchet c m r' plaintext)
        (written-IsSeparate r r.current_mratchet (ref prev) keys refl h, refl)

  -- Such a ratchet stays one of which no two chains share a map, with its key pair.
  pub decrypt-IsSeparate :
      (m : Message) (r : DhRatchet) {secret : Bytes}
      → IsSeparate r
      → generate_shared_secret c r.keypair m.header.public_key ≡ ok secret
      → IsSeparate (decrypt c m r).1 × ((decrypt c m r).1.keypair ≡ r.keypair)
  decrypt-IsSeparate m r h secret_ok = elim (decrypt-ways m r h secret_ok) [
    | inl (r', way) ↦ rw (way.shared, ← way.keypair) (decrypt_current-IsSeparate m r' way.separate)
    | inr (prev, way) ↦ rw way.shared (decrypt_previous-IsSeparate m r prev h)
  ]
