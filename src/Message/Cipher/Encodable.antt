-- ===== src/Message/Cipher/Encodable.antt =====
-- client/internal/contact/message/message.go: what gob can store stays so under `Decrypt` and `Encrypt`.
use secure_messager_erlang.Prelude.{
  ◌≡◌, ◌≢◌, refl, arith, Bytes, Option, Option-cases, none, some, List, [], ◌∷◌, ◌++◌, All,
  All-append, ◌*◌, inl, inr, Bool-cases, bytes_equal, length, ltb,
}
use secure_messager_erlang.Outcome.{Outcome, Outcome-cases, ok, err, crash}
use secure_messager_erlang.Crypt.Library.{Crypto, CryptoLaws}
use secure_messager_erlang.Crypt.{key_length, generate_shared_secret, generate_key_pair, or_fatal}
use secure_messager_erlang.Ratchet.Hkdf.{derive}
use secure_messager_erlang.Message.{Message, hash_to_bytes, bytes_to_hash}
use secure_messager_erlang.Ratchet.MessageRatchet
use secure_messager_erlang.Ratchet.MessageRatchet.{SkippedKeys}
use secure_messager_erlang.Ratchet.MessageRatchet.Encodable.{decrypt-HasKey, encrypt-HasKey}
use secure_messager_erlang.Ratchet.DhRatchet.{ratchet_info, sending, receiving, RatchetState}
use secure_messager_erlang.Ratchet.DhRatchet.Stored.{
  StoredChain, StoredRatchet, IsEncodable, with_ref, with_map,
}
use secure_messager_erlang.Ratchet.DhRatchet.ByValue.{keep_current, next_chain, cycle_kept, cycle}
use secure_messager_erlang.Ratchet.DhRatchet.Separate.{limit_previous-All}
use secure_messager_erlang.Message.Cipher.Refinement.{set_plain_ratchet}
use secure_messager_erlang.Message.Cipher.{Draws}
use secure_messager_erlang.Message.Cipher.ByValue.{
  put_keys, find_chain, open_chain, open_current, open_previous, open_message,
}
use secure_messager_erlang.Message.Cipher.Sealing.{turn, seal, seal_message}

abbrev Kept : StoredChain → Type 0
Kept s = s.chain_key ≢ some []

keep_current-IsEncodable : (x : StoredRatchet) → IsEncodable x → IsEncodable (keep_current x)
unfolding keep_current
keep_current-IsEncodable x h =
    let all = x.previous_mratchets ++ (x.current_mratchet ∷ []) in
    let kept = All-append Kept x.previous_mratchets (x.current_mratchet ∷ []) h.1 (h.0, tt) in
    elim (Bool-cases (ltb 0 (length x.current_mratchet.foreign_public_key))) [
      | inl begun ↦ rw begun (h.0, limit_previous-All Kept all kept)
      | inr empty ↦ rw empty h
    ]

next_chain-IsEncodable :
    (x : StoredRatchet) (key_material foreign : Bytes)
    → IsEncodable x
    → IsEncodable (next_chain x key_material foreign)
unfolding next_chain
next_chain-IsEncodable x key_material foreign h = ((λ e. cc), h.1)

-- The ratchet of a result, if there is one.
abbrev IsEncodableIn : Outcome StoredRatchet → Type 0
IsEncodableIn (ok x) = IsEncodable x
IsEncodableIn (err e) = Unit
IsEncodableIn crash = Unit

cycle_kept-IsEncodable :
    (c : Crypto) (x : StoredRatchet) (foreign : Bytes)
    → IsEncodable x
    → IsEncodableIn (cycle_kept c x foreign)
unfolding cycle_kept
cycle_kept-IsEncodable c x foreign h =
    elim (Outcome-cases (generate_shared_secret c x.keypair foreign)) [
      | inr (inr e) ↦ rw (e, cycle_kept) tt
      | inr (inl (y, e)) ↦ rw (e, cycle_kept) h
      | inl (dh_key, e) ↦
          elim (Outcome-cases (derive c x.root_key (some dh_key) ratchet_info (2 * key_length))) [
            | inr (inr e') ↦ rw (e, e', cycle_kept) tt
            | inr (inl (y, e')) ↦ rw (e, e', cycle_kept) h
            | inl (key_material, e') ↦
                rw (e, e', cycle_kept) (next_chain-IsEncodable x key_material foreign h)
          ]
    ]

cycle-IsEncodable :
    (c : Crypto) (x : StoredRatchet) (key : Option Bytes)
    → IsEncodable x
    → IsEncodableIn (cycle c x key)
unfolding cycle
cycle-IsEncodable c x key h =
    cycle_kept-IsEncodable c (keep_current x)
      (elim key [ none ↦ x.current_mratchet.foreign_public_key | some k ↦ k ])
      (keep_current-IsEncodable x h)

put_keys-Kept :
    (chains : List StoredChain) (public_key : Bytes) (keys : SkippedKeys)
    → All Kept chains
    → All Kept (put_keys chains public_key keys)
unfolding put_keys
put_keys-Kept [] public_key keys h = h
put_keys-Kept (s ∷ chains) public_key keys h =
    ground (arith, h, put_keys-Kept chains public_key keys h.1)

module _ (c : Crypto) (laws : CryptoLaws c) where
  open_chain-Kept : (m : Message) (s : StoredChain) → Kept s → Kept (open_chain c m s).0
  unfolding open_chain
  open_chain-Kept m s h =
      decrypt-HasKey c laws s.skipped_message_keys (with_ref 0 s) m.encrypted_message
        (hash_to_bytes m.hash) m.header.index h

  open_current-IsEncodable :
      (m : Message) (x : StoredRatchet) → IsEncodable x → IsEncodable (open_current c m x).1
  unfolding open_current
  open_current-IsEncodable m x h =
      let s = (open_chain c m x.current_mratchet).0 in
      rw
        (set_plain_ratchet c m (record x { current_mratchet = s })
          (open_chain c m x.current_mratchet).1)
        (open_chain-Kept m x.current_mratchet h.0, h.1)

  open_previous-IsEncodable :
      (m : Message) (x : StoredRatchet) (prev : StoredChain)
      → IsEncodable x
      → IsEncodable (open_previous c m x prev).1
  unfolding open_previous
  open_previous-IsEncodable m x prev h =
      let keys = (open_chain c m prev).0.skipped_message_keys in
      let chains = put_keys x.previous_mratchets m.header.public_key keys in
      rw (set_plain_ratchet c m (record x { previous_mratchets = chains }) (open_chain c m prev).1)
        (h.0, put_keys-Kept x.previous_mratchets m.header.public_key keys h.1)

  pub open_message-IsEncodable :
      (m : Message) (x : StoredRatchet) → IsEncodable x → IsEncodable (open_message c m x).1
  unfolding open_message
  open_message-IsEncodable m x h =
      let key = some m.header.public_key in
      let turned = cycle-IsEncodable c x key h in
      elim (Bool-cases (bytes_equal x.current_mratchet.foreign_public_key m.header.public_key)) [
        | inl same ↦ rw same (open_current-IsEncodable m x h)
        | inr other ↦ elim (Option-cases (find_chain x.previous_mratchets m.header.public_key)) [
          | inr (prev, found) ↦ rw (other, found) (open_previous-IsEncodable m x prev h)
          | inl absent ↦ elim (Outcome-cases (cycle c x key)) [
            | inr (inr e) ↦ rw (other, absent, e) h
            | inr (inl (y, e)) ↦ rw (other, absent, e) h
            | inl (x1, e) ↦
                let h1 : IsEncodable x1 = rw e at turned in
                rw (other, absent, e)
                  (open_current-IsEncodable m (record x1 { state = receiving }) h1)
          ]
        ]
      ]

  turn-IsEncodable :
      (x : StoredRatchet) (private_key : Outcome Bytes)
      → IsEncodable x
      → IsEncodableIn (turn c x private_key)
  unfolding turn
  turn-IsEncodable x private_key h = go x.state refl
    where
      go : (s : RatchetState) → x.state ≡ s → IsEncodableIn (turn c x private_key)
      go sending e = rw (e, turn) h
      go receiving e = elim (Outcome-cases (or_fatal (generate_key_pair c private_key))) [
        | inr (inr e') ↦ rw (e, e', turn) tt
        | inr (inl (y, e')) ↦ rw (e, e', turn) tt
        | inl (new_key_pair, e') ↦
            rw (e, e', turn)
              (cycle-IsEncodable c (record x { state = sending; keypair = new_key_pair }) none h)
      ]

  -- The ratchet that `seal` leaves, on every path.
  seal_left :
      (m : Message) (x : StoredRatchet) (nonce : Outcome Bytes)
      → (seal c m x nonce).1 ≡ record x {
        current_mratchet =
            with_map x.current_mratchet.skipped_message_keys
              (MessageRatchet.encrypt c (with_ref 0 x.current_mratchet) m.plain_message nonce).0;
      }
  unfolding seal
  seal_left m x nonce =
      elim (Outcome-cases
        (MessageRatchet.encrypt c (with_ref 0 x.current_mratchet) m.plain_message nonce).1) [
          | inl ((encrypted_message, hash_bytes, idx), e) ↦
              elim (Outcome-cases (bytes_to_hash hash_bytes)) [
                | inl (hash, e') ↦ ground (arith, e, e')
                | inr (inl (y, e')) ↦ ground (arith, e, e')
                | inr (inr e') ↦ ground (arith, e, e')
              ]
          | inr (inl (y, e)) ↦ ground (arith, e)
          | inr (inr e) ↦ ground (arith, e)
        ]

  seal-IsEncodable :
      (m : Message) (x : StoredRatchet) (nonce : Outcome Bytes)
      → IsEncodable x
      → IsEncodable (seal c m x nonce).1
  seal-IsEncodable m x nonce h =
      rw (seal_left m x nonce)
        (encrypt-HasKey c laws (with_ref 0 x.current_mratchet) m.plain_message nonce, h.1)

  pub seal_message-IsEncodable :
      (m : Message) (x : StoredRatchet) (draws : Draws)
      → IsEncodable x
      → IsEncodable (seal_message c m x draws).1
  unfolding seal_message
  seal_message-IsEncodable m x draws h =
      let turned = turn-IsEncodable x draws.private_key h in
      elim (Outcome-cases (turn c x draws.private_key)) [
        | inr (inr e) ↦ rw (e, seal_message) h
        | inr (inl (y, e)) ↦ rw (e, seal_message) h
        | inl (x1, e) ↦
            let h1 : IsEncodable x1 = rw e at turned in
            rw (e, seal_message) (seal-IsEncodable m x1 draws.nonce h1)
      ]
