-- ===== src/Message/Cipher/Restart.antt =====
-- client/internal/contact/ratchet/dhratchet.go, contact/message/message.go: a ratchet that is stored by
-- `Marshal` and read by `Unmarshal` when the client starts again, and used on.
use secure_messager_erlang.Prelude.{◌≡◌, refl, ap, arith, Bytes, List, [], ◌∷◌, inl, inr}
use secure_messager_erlang.Outcome.{Outcome, Outcome-cases, ok}
use secure_messager_erlang.Crypt.Library.{Crypto, CryptoLaws}
use secure_messager_erlang.Crypt.{KeyPair, generate_shared_secret, or_fatal}
use secure_messager_erlang.Message.{Message}
use secure_messager_erlang.Ratchet.DhRatchet.{DhRatchet, RatchetState, new_dh_ratchet}
use secure_messager_erlang.Ratchet.MessageRatchet.{initialize, new_message_ratchet}
use secure_messager_erlang.Ratchet.DhRatchet.Stored.{
  StoredRatchet, Gob, GobLaws, IsEncodable, flatten, rebuild, marshal, unmarshal-rebuild, unmarshal,
  flatten-rebuild, unmarshal-rebuild,
}
use secure_messager_erlang.Ratchet.DhRatchet.Separate.{IsSeparate, rebuild-IsSeparate}
use secure_messager_erlang.Message.Cipher.{Draws, encrypt, decrypt}
use secure_messager_erlang.Message.Cipher.ByValue.{open_message}
use secure_messager_erlang.Message.Cipher.Refinement.{decrypt-flatten, decrypt-IsSeparate}
use secure_messager_erlang.Message.Cipher.Encodable.{
  open_message-IsEncodable, seal_message-IsEncodable,
}
use secure_messager_erlang.Message.Cipher.Sealing.{
  seal_message, CanTurn, encrypt-flatten, encrypt-IsSeparate,
}

-- The client encrypts a message, or decrypts one.
pub data Use : Type 0 where
  writes : Message → Draws → Use
  reads : Message → Use

-- What the calls make of the messages, with their errors.
abbrev pub Results : Type 0
Results = List (Message × Outcome (Unit {0}))

module _ (c : Crypto) where
  unfoldable pub use_all : List Use → DhRatchet → Results × DhRatchet
  use_all [] r = ([], r)
  use_all (writes m draws ∷ uses) r =
      let (m1, r1, done) = encrypt c m r draws in
      let (results, r2) = use_all uses r1 in ((m1, done) ∷ results, r2)
  use_all (reads m ∷ uses) r =
      let (m1, r1, done) = decrypt c m r in
      let (results, r2) = use_all uses r1 in ((m1, done) ∷ results, r2)

  -- The same by value.
  unfoldable pub use_values : List Use → StoredRatchet → Results × StoredRatchet
  use_values [] x = ([], x)
  use_values (writes m draws ∷ uses) x =
      let (m1, x1, done) = seal_message c m x draws in
      let (results, x2) = use_values uses x1 in ((m1, done) ∷ results, x2)
  use_values (reads m ∷ uses) x =
      let (m1, x1, done) = open_message c m x in
      let (results, x2) = use_values uses x1 in ((m1, done) ∷ results, x2)

  -- Every secret that the uses need can be computed.
  abbrev pub CanUse : List Use → StoredRatchet → Type 0
  CanUse [] x = Unit
  CanUse (writes m draws ∷ uses) x =
      CanTurn c x draws.private_key × CanUse uses (seal_message c m x draws).1
  CanUse (reads m ∷ uses) x =
      ((secret : Bytes) × (generate_shared_secret c x.keypair m.header.public_key ≡ ok secret))
      × CanUse uses (open_message c m x).1

-- What a use leaves.
left : {x y : Message × StoredRatchet × Outcome (Unit {0})} → x ≡ y → x.1 ≡ y.1
left same = ap (λ (o : Message × StoredRatchet × Outcome (Unit {0})). o.1) same

-- A new ratchet has no chain that shares a map, and gob can keep it.
pub new_dh_ratchet-IsSeparate :
    (c : Crypto) (keypair : KeyPair) (foreign : Bytes) (state : RatchetState) {r : DhRatchet}
    → new_dh_ratchet c keypair foreign state ≡ ok r
    → IsSeparate r × IsEncodable (flatten r)
unfolding new_dh_ratchet or_fatal flatten initialize new_message_ratchet
new_dh_ratchet-IsSeparate c keypair foreign state {r} made =
    elim (Outcome-cases (generate_shared_secret c keypair foreign)) [
      | inr (inr e) ↦ ground (arith, e, made)
      | inr (inl (x, e)) ↦ ground (arith, e, made)
      | inl (root_key, e) ↦
          let is : new root_key ≡ r = ground (arith, e, made) in
          rw (← is)
            (record { allocated = (omega arith, tt); apart = (tt, tt) }, ((λ none_yet. cc), tt))
    ]
  where
    new : Bytes → DhRatchet
    new root_key = record {
      keypair = keypair;
      root_key = root_key;
      child_key = [];
      current_mratchet = initialize (new_message_ratchet 0) root_key foreign;
      previous_mratchets = [];
      ratchet_index = 0;
      state = state;
      maps = record { next = 1; cell = λ _. [] };
    }

module _ (c : Crypto) (laws : CryptoLaws c) where
  use_all-flatten :
      (uses : List Use) (r : DhRatchet)
      → IsSeparate r
      → CanUse c uses (flatten r)
      → use_values c uses (flatten r) ≡ ((use_all c uses r).0, flatten (use_all c uses r).1)
  unfolding use_all use_values flatten
  use_all-flatten [] r h can = refl
  use_all-flatten (writes m draws ∷ uses) r h can =
      let same = encrypt-flatten c laws m r draws h can.0 in
      let separate = encrypt-IsSeparate c laws m r draws h can.0 in
      ground (
        arith,
        same,
        use_all-flatten uses (encrypt c m r draws).1 separate (rw (← left same) can.1),
      )
  use_all-flatten (reads m ∷ uses) r h can =
      let same = decrypt-flatten c laws m r h can.0.1 in
      let separate = (decrypt-IsSeparate c laws m r h can.0.1).0 in
      ground (arith, same, use_all-flatten uses (decrypt c m r).1 separate (rw (← left same) can.1))

  use_all-IsSeparate :
      (uses : List Use) (r : DhRatchet)
      → IsSeparate r
      → CanUse c uses (flatten r)
      → IsSeparate (use_all c uses r).1
  unfolding use_all flatten
  use_all-IsSeparate [] r h can = h
  use_all-IsSeparate (writes m draws ∷ uses) r h can =
      use_all-IsSeparate uses (encrypt c m r draws).1 (encrypt-IsSeparate c laws m r draws h can.0)
        (rw (← left (encrypt-flatten c laws m r draws h can.0)) can.1)
  use_all-IsSeparate (reads m ∷ uses) r h can =
      use_all-IsSeparate uses (decrypt c m r).1 (decrypt-IsSeparate c laws m r h can.0.1).0
        (rw (← left (decrypt-flatten c laws m r h can.0.1)) can.1)

  -- Two ratchets that stand for the same values do the same.
  use_all-same :
      (uses : List Use) (r s : DhRatchet)
      → IsSeparate r
      → IsSeparate s
      → flatten s ≡ flatten r
      → CanUse c uses (flatten r)
      → (use_all c uses s).0 ≡ (use_all c uses r).0
  use_all-same uses r s hr hs same can =
      ground (arith, same, use_all-flatten uses r hr can, use_all-flatten uses s hs (rw same can))

  use_values-IsEncodable :
      (uses : List Use) (x : StoredRatchet) → IsEncodable x → IsEncodable (use_values c uses x).1
  unfolding use_values
  use_values-IsEncodable [] x h = h
  use_values-IsEncodable (writes m draws ∷ uses) x h =
      use_values-IsEncodable uses (seal_message c m x draws).1
        (seal_message-IsEncodable c laws m x draws h)
  use_values-IsEncodable (reads m ∷ uses) x h =
      use_values-IsEncodable uses (open_message c m x).1 (open_message-IsEncodable c laws m x h)

  use_all-IsEncodable :
      (uses : List Use) (r : DhRatchet)
      → IsSeparate r
      → IsEncodable (flatten r)
      → CanUse c uses (flatten r)
      → IsEncodable (flatten (use_all c uses r).1)
  use_all-IsEncodable uses r h e can =
      let same = ap (λ (o : Results × StoredRatchet). o.1) (use_all-flatten uses r h can) in
      rw (← same) (use_values-IsEncodable uses (flatten r) e)

  -- Take a ratchet of which no two chains share a map and that gob can keep, and use it so that the
  -- secrets that the uses need can be computed. When it is then stored, and gob keeps what it encodes,
  -- it can be read again, and every further use with secrets that can be computed gives the messages
  -- and the errors that it would have given without the restart.
  pub use_all-restarted :
      (g : Gob) (laws_g : GobLaws g) (before after : List Use) (r : DhRatchet) {b : Bytes}
      → IsSeparate r
      → IsEncodable (flatten r)
      → CanUse c before (flatten r)
      → CanUse c after (flatten (use_all c before r).1)
      → marshal g (use_all c before r).1 ≡ ok b
      → (r' : DhRatchet) × (unmarshal g b ≡ ok r')
        × ((use_all c after r').0 ≡ (use_all c after (use_all c before r).1).0)
  use_all-restarted g laws_g before after r {b} h e can can' stored =
      let x = flatten (use_all c before r).1 in
      let encodable = use_all-IsEncodable before r h e can in
      (
        rebuild x,
        unmarshal-rebuild g laws_g (use_all c before r).1 encodable stored,
        use_all-same after (use_all c before r).1 (rebuild x) (use_all-IsSeparate before r h can)
            (rebuild-IsSeparate x) (flatten-rebuild x) can',
      )
