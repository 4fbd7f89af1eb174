-- ===== src/Message/Cipher/Sealing.antt =====
-- client/internal/contact/message/message.go: `Encrypt` over shared maps does what `seal_message` does
-- over values.
use secure_messager_erlang.Prelude.{◌≡◌, arith, Bytes, none, inl, inr, ◌⊎◌, ℤ}
use secure_messager_erlang.Outcome.{Outcome, Outcome-cases, ok, err, crash, ◌>>=◌}
use secure_messager_erlang.Crypt.Library.{Crypto, CryptoLaws}
use secure_messager_erlang.Crypt.{KeyPair, generate_shared_secret, generate_key_pair, or_fatal}
use secure_messager_erlang.Message.{Message, bytes_to_hash}
use secure_messager_erlang.Ratchet.MessageRatchet
use secure_messager_erlang.Ratchet.MessageRatchet.{MessageRatchet, SkippedKeys}
use secure_messager_erlang.Ratchet.MessageRatchet.Reference.{encrypt-at_ref, encrypt-ref}
use secure_messager_erlang.Ratchet.DhRatchet.{DhRatchet, sending, receiving}
use secure_messager_erlang.Ratchet.DhRatchet.Cycle.{rk_cycle_lem}
use secure_messager_erlang.Ratchet.DhRatchet.Stored.{StoredRatchet, with_map, with_ref, flatten}
use secure_messager_erlang.Ratchet.DhRatchet.Separate.{IsSeparate}
use secure_messager_erlang.Ratchet.DhRatchet.ByValue.{cycle, rk_cycle-flatten, rk_cycle-IsSeparate}
use secure_messager_erlang.Message.Cipher.{Draws, turn_to_sending, encrypt_current, encrypt}
use secure_messager_erlang.Message.Cipher.ByValue.{flat}

module _ (c : Crypto) where
  unfoldable pub turn : StoredRatchet → Outcome Bytes → Outcome StoredRatchet
  turn x private_key = elim x.state [
    | sending ↦ ok x
    | receiving ↦ or_fatal (generate_key_pair c private_key) >>= λ new_key_pair.
        cycle c (record x { state = sending; keypair = new_key_pair }) none
  ]

  abbrev pub fill :
      Message → StoredRatchet → Bytes × Bytes × ℤ → Message × StoredRatchet × Outcome (Unit {0})
  fill m x (encrypted_message, hash_bytes, idx) = elim (bytes_to_hash hash_bytes) [
    | ok hash ↦ (
      record m {
        encrypted_message = encrypted_message;
        hash = hash;
        header = record m.header { index = idx; public_key = x.keypair.public_key };
      },
      x,
      ok tt,
    )
    | err e ↦ (m, x, err e)
    | crash ↦ (m, x, crash)
  ]

  -- The text under the next key of the current chain.
  unfoldable pub seal :
      Message → StoredRatchet → Outcome Bytes → Message × StoredRatchet × Outcome (Unit {0})
  seal m x nonce =
      let (chain, sealed) =
        MessageRatchet.encrypt c (with_ref 0 x.current_mratchet) m.plain_message nonce in
      let x1 = record x {
        current_mratchet = with_map x.current_mratchet.skipped_message_keys chain;
      } in
      elim sealed [ ok s ↦ fill m x1 s | err e ↦ (m, x1, err e) | crash ↦ (m, x1, crash) ]

  unfoldable pub seal_message :
      Message → StoredRatchet → Draws → Message × StoredRatchet × Outcome (Unit {0})
  seal_message m x draws = elim (turn x draws.private_key) [
    | err e ↦ (m, x, err e)
    | crash ↦ (m, x, crash)
    | ok x1 ↦ seal m x1 draws.nonce
  ]

  -- The ratchet needs no turn, or its turn succeeds.
  abbrev pub CanTurn : StoredRatchet → Outcome Bytes → Type 0
  CanTurn x private_key =
      (x.state ≡ sending)
      ⊎ ((keypair : KeyPair) × (secret : Bytes) × (x.state ≡ receiving)
          × (generate_key_pair c private_key ≡ ok keypair)
          × (generate_shared_secret c keypair x.current_mratchet.foreign_public_key ≡ ok secret))

  seal-flatten :
      (m : Message) (r : DhRatchet) (nonce : Outcome Bytes)
      → seal m (flatten r) nonce ≡ flat (encrypt_current c m r nonce)
  unfolding seal flatten
  seal-flatten m r nonce =
      let x = r.current_mratchet in
      let moved = encrypt-at_ref c 0 x m.plain_message nonce in
      let same = encrypt-ref c x m.plain_message nonce in
      elim (Outcome-cases (MessageRatchet.encrypt c x m.plain_message nonce).1) [
        | inl ((encrypted_message, hash_bytes, idx), e) ↦
            elim (Outcome-cases (bytes_to_hash hash_bytes)) [
              | inl (hash, e') ↦ ground (arith, moved, same, e, e')
              | inr (inl (y, e')) ↦ ground (arith, moved, same, e, e')
              | inr (inr e') ↦ ground (arith, moved, same, e, e')
            ]
        | inr (inl (y, e)) ↦ ground (arith, moved, same, e)
        | inr (inr e) ↦ ground (arith, moved, same, e)
      ]

module _ (c : Crypto) (laws : CryptoLaws c) where
  -- The ratchet that `Encrypt` goes on with.
  record Turned (r : DhRatchet) (private_key : Outcome Bytes) (r' : DhRatchet) : Type 0 where
    separate : IsSeparate r'
    shared : turn_to_sending c r private_key ≡ ok r'
    by_value : turn c (flatten r) private_key ≡ ok (flatten r')

  turn-flatten :
      (r : DhRatchet) (private_key : Outcome Bytes)
      → IsSeparate r
      → CanTurn c (flatten r) private_key
      → (r' : DhRatchet) × Turned r private_key r'
  unfolding turn turn_to_sending flatten or_fatal
  turn-flatten r private_key h (inl is_sending) = (
    r,
    record {
      separate = h;
      shared = ground (arith, is_sending);
      by_value = ground (arith, is_sending);
    },
  )
  turn-flatten r private_key h (inr (keypair, secret, is_receiving, made, secret_ok)) =
      let s = record r { state = sending; keypair = keypair } in
      let s_separate : IsSeparate s = record { allocated = h.allocated; apart = h.apart } in
      let (r', done, cycled) = rk_cycle_lem c laws s none secret_ok in
      let done' : cycle c (flatten s) none ≡ ok (flatten r') =
        ground (arith, done, rk_cycle-flatten c s none s_separate) in
      (
        r',
        record {
          separate = rk_cycle-IsSeparate c laws s none s_separate secret_ok done;
          shared = ground (arith, is_receiving, made, done);
          by_value = ground (arith, is_receiving, made, done');
        },
      )

  -- `Encrypt` of a ratchet of which no two chains share a map, and which needs no turn or can turn,
  -- makes of the message what `seal_message` makes of it by value, with the same error, and leaves a
  -- ratchet that stands for what `seal_message` leaves.
  pub encrypt-flatten :
      (m : Message) (r : DhRatchet) (draws : Draws)
      → IsSeparate r
      → CanTurn c (flatten r) draws.private_key
      → seal_message c m (flatten r) draws ≡ flat (encrypt c m r draws)
  unfolding seal_message encrypt
  encrypt-flatten m r draws h can =
      let (r', turned) = turn-flatten r draws.private_key h can in
      ground (arith, turned.by_value, turned.shared, seal-flatten c m r' draws.nonce)

  encrypt_current-IsSeparate :
      (m : Message) (r : DhRatchet) (nonce : Outcome Bytes)
      → IsSeparate r
      → IsSeparate (encrypt_current c m r nonce).1
  encrypt_current-IsSeparate m r nonce h =
      let x = r.current_mratchet in
      let chain = (MessageRatchet.encrypt c x m.plain_message nonce).0 in
      let same = encrypt-ref c x m.plain_message nonce in
      let kept : IsSeparate (record r { current_mratchet = chain }) = record {
        allocated = (rw same h.allocated.0, h.allocated.1);
        apart = (rw same h.apart.0, h.apart.1);
      } in
      rw left kept
    where
      left : (encrypt_current c m r nonce).1 ≡ record r {
        current_mratchet = (MessageRatchet.encrypt c r.current_mratchet m.plain_message nonce).0;
      }
      left =
          elim (Outcome-cases
            (MessageRatchet.encrypt c r.current_mratchet m.plain_message nonce).1) [
              | inl ((encrypted_message, hash_bytes, idx), e) ↦
                  elim (Outcome-cases (bytes_to_hash hash_bytes)) [
                    | inl (hash, e') ↦ ground (arith, e, e')
                    | inr (inl (y, e')) ↦ ground (arith, e, e')
                    | inr (inr e') ↦ ground (arith, e, e')
                  ]
              | inr (inl (y, e)) ↦ ground (arith, e)
              | inr (inr e) ↦ ground (arith, e)
            ]

  pub encrypt-IsSeparate :
      (m : Message) (r : DhRatchet) (draws : Draws)
      → IsSeparate r
      → CanTurn c (flatten r) draws.private_key
      → IsSeparate (encrypt c m r draws).1
  unfolding encrypt
  encrypt-IsSeparate m r draws h can =
      let (r', turned) = turn-flatten r draws.private_key h can in
      ground (arith, turned.shared, encrypt_current-IsSeparate m r' draws.nonce turned.separate)
