-- ===== src/Message/Cipher/ByValue.antt =====
-- client/internal/contact/message/message.go: `Decrypt` and `Encrypt` by a ratchet whose chains have
-- their maps of skipped keys as values. That the methods over shared maps do the same.
use secure_messager_erlang.Prelude.{
  ℕ, ◌≡◌, ◌≢◌, refl, sym, ap, ◌∙◌, arith, Bytes, Option, none, some, List, [], ◌∷◌, All, map, true,
  bytes_equal, if◌then◌else◌, inl, inr, Bool-cases,
}
use secure_messager_erlang.Outcome.{Outcome, ok, err, crash}
use secure_messager_erlang.Crypt.Library.{Crypto}
use secure_messager_erlang.Message.{Message, hash_to_bytes}
use secure_messager_erlang.Ratchet.MessageRatchet
use secure_messager_erlang.Ratchet.MessageRatchet.{MessageRatchet, SkippedKeys}
use secure_messager_erlang.Ratchet.MessageRatchet.Reference.{decrypt-at_ref, decrypt-ref}
use secure_messager_erlang.Ratchet.DhRatchet.{
  DhRatchet, Maps, store_map, find_ratchet, get_prev_ratchet, receiving,
}
use secure_messager_erlang.Ratchet.DhRatchet.Stored.{
  StoredChain, StoredRatchet, stored_chain, with_map, with_ref, flatten,
}
use secure_messager_erlang.Ratchet.DhRatchet.Separate.{
  ref, IsApart, IsSeparate, stored-store_map, find_ratchet-All,
}
use secure_messager_erlang.Ratchet.DhRatchet.ByValue.{cycle}
use secure_messager_erlang.Message.Cipher.{Result, set_plain, decrypt_current, decrypt_previous}

unfoldable pub find_chain : List StoredChain → Bytes → Option StoredChain
find_chain [] public_key = none
find_chain (s ∷ chains) public_key =
    if bytes_equal s.foreign_public_key public_key then some s else find_chain chains public_key

-- The skipped keys of the chain that `find_chain` finds.
unfoldable pub put_keys : List StoredChain → Bytes → SkippedKeys → List StoredChain
put_keys [] public_key keys = []
put_keys (s ∷ chains) public_key keys =
    if bytes_equal s.foreign_public_key public_key
    then record s { skipped_message_keys = keys } ∷ chains
    else s ∷ put_keys chains public_key keys

module _ (c : Crypto) where
  unfoldable pub open_chain : Message → StoredChain → StoredChain × Outcome Bytes
  open_chain m s =
      let (keys, chain, plaintext) =
        MessageRatchet.decrypt c s.skipped_message_keys (with_ref 0 s) m.encrypted_message
          (hash_to_bytes m.hash) m.header.index in
      (with_map keys chain, plaintext)

  unfoldable pub open_current :
      Message → StoredRatchet → Message × StoredRatchet × Outcome (Unit {0})
  open_current m x =
      let (s, plaintext) = open_chain m x.current_mratchet in
      set_plain c m (record x { current_mratchet = s }) plaintext

  -- Of a previous chain only the skipped keys change.
  unfoldable pub open_previous :
      Message → StoredRatchet → StoredChain → Message × StoredRatchet × Outcome (Unit {0})
  open_previous m x prev =
      let (s, plaintext) = open_chain m prev in
      set_plain c m
        (record x {
          previous_mratchets =
              put_keys x.previous_mratchets m.header.public_key s.skipped_message_keys;
        })
        plaintext

  unfoldable pub open_message :
      Message → StoredRatchet → Message × StoredRatchet × Outcome (Unit {0})
  open_message m x =
      if bytes_equal x.current_mratchet.foreign_public_key m.header.public_key
      then open_current m x
      else elim (find_chain x.previous_mratchets m.header.public_key) [
        | some prev ↦ open_previous m x prev
        | none ↦ elim (cycle c x (some m.header.public_key)) [
          | ok x1 ↦ open_current m (record x1 { state = receiving })
          | err e ↦ (m, x, err e)
          | crash ↦ (m, x, crash)
        ]
      ]

-- A result with what the references stand for.
abbrev pub flat : Result → Message × StoredRatchet × Outcome (Unit {0})
flat (m, r, done) = (m, flatten r, done)

pub find_chain-stored :
    (h : Maps) (ms : List MessageRatchet) (public_key : Bytes)
    → find_chain (map (stored_chain h) ms) public_key
      ≡ (elim (find_ratchet ms public_key) [ none ↦ none | some m ↦ some (stored_chain h m) ])
unfolding find_chain find_ratchet
find_chain-stored h [] public_key = refl
find_chain-stored h (m ∷ ms) public_key = ground (arith, find_chain-stored h ms public_key)

stored-put_keys_head :
    (h : Maps) (keys : SkippedKeys) (m : MessageRatchet) (ms : List MessageRatchet) (i : ℕ)
    → ref m ≡ i
    → All (λ x. ref x ≢ i) ms
    → map (stored_chain (store_map h i keys)) (m ∷ ms) ≡ with_map keys m ∷ map (stored_chain h) ms
stored-put_keys_head h keys m ms i here elsewhere =
    ground (arith, here, stored-store_map h i keys ms elsewhere)

stored-put_keys :
    (h : Maps) (keys : SkippedKeys) (ms : List MessageRatchet) (public_key : Bytes)
    {prev : MessageRatchet}
    → IsApart ms
    → find_ratchet ms public_key ≡ some prev
    → map (stored_chain (store_map h (ref prev) keys)) ms
      ≡ put_keys (map (stored_chain h) ms) public_key keys
unfolding put_keys find_ratchet
stored-put_keys h keys [] public_key apart found = cc
stored-put_keys h keys (m ∷ ms) public_key {prev} apart found =
    elim (Bool-cases (bytes_equal m.foreign_public_key public_key)) [
      | inl same ↦
          let here = ap ref (taken same) in
          let elsewhere : All (λ x. ref x ≢ ref prev) ms = rw (← here) apart.0 in
          ground (arith, same, stored-put_keys_head h keys m ms (ref prev) here elsewhere)
      | inr other ↦
          let later : find_ratchet ms public_key ≡ some prev = ground (arith, other, found) in
          let elsewhere = find_ratchet-All (λ x. ref x ≢ ref m) ms public_key apart.0 later in
          ground (
            arith,
            other,
            elsewhere,
            stored-put_keys h keys ms public_key {prev = prev} apart.1 later,
          )
    ]
  where
    taken : bytes_equal m.foreign_public_key public_key ≡ true → m ≡ prev
    taken same = ground (arith, same, found)

module _ (c : Crypto) where
  open_chain-stored :
      (m : Message) (h : Maps) (x : MessageRatchet)
      → open_chain c m (stored_chain h x) ≡ (
          let (keys, chain, plaintext) =
            MessageRatchet.decrypt c
              (h.cell (ref x))
              x
              m.encrypted_message
              (hash_to_bytes m.hash)
              m.header.index in
          (with_map keys chain, plaintext))
  unfolding open_chain
  open_chain-stored m h x =
      rw
        (decrypt-at_ref c 0 (h.cell (ref x)) x m.encrypted_message (hash_to_bytes m.hash)
          m.header.index)
        refl

  set_plain-flat :
      (m : Message) (r : DhRatchet) (plaintext : Outcome Bytes)
      → set_plain c m (flatten r) plaintext ≡ flat (set_plain c m r plaintext)
  set_plain-flat m r (ok plaintext) = refl
  set_plain-flat m r (err e) = refl
  set_plain-flat m r crash = refl

  -- What `MessageRatchet.decrypt` makes of a chain with its map.
  abbrev pub opened :
      Message → DhRatchet → MessageRatchet → SkippedKeys × MessageRatchet × Outcome Bytes
  opened m r x =
      MessageRatchet.decrypt c (r.maps.cell (ref x)) x m.encrypted_message (hash_to_bytes m.hash)
        m.header.index

  flatten-written :
      (r : DhRatchet) (chain : MessageRatchet) (keys : SkippedKeys) (i : ℕ)
      → ref chain ≡ i
      → All (λ x. ref x ≢ i) r.previous_mratchets
      → flatten (record r { current_mratchet = chain; maps = store_map r.maps i keys })
        ≡ record (flatten r) { current_mratchet = with_map keys chain }
  unfolding flatten
  flatten-written r chain keys i here elsewhere =
      ground (arith, here, stored-store_map r.maps i keys r.previous_mratchets elsewhere)

  pub open_current-flatten :
      (m : Message) (r : DhRatchet)
      → IsSeparate r
      → open_current c m (flatten r) ≡ flat (decrypt_current c m r)
  unfolding open_current decrypt_current flatten
  open_current-flatten m r h =
      let x = r.current_mratchet in
      let (keys, chain, plaintext) = opened m r x in
      let here =
        decrypt-ref c (r.maps.cell (ref x)) x m.encrypted_message (hash_to_bytes m.hash)
          m.header.index in
      let r' = record r { current_mratchet = chain; maps = store_map r.maps (ref x) keys } in
      ap
        (λ (o : StoredChain × Outcome Bytes).
          set_plain c m (record (flatten r) { current_mratchet = o.0 }) o.1)
        (open_chain-stored m r.maps x)
      ∙ ap (λ y. set_plain c m y plaintext)
          (sym (flatten-written r chain keys (ref x) here h.apart.0))
      ∙ set_plain-flat m r' plaintext

  flatten-put_keys :
      (r : DhRatchet) (public_key : Bytes) (keys : SkippedKeys) {prev : MessageRatchet}
      → IsSeparate r
      → get_prev_ratchet r public_key ≡ some prev
      → flatten (record r { maps = store_map r.maps (ref prev) keys }) ≡ record (flatten r) {
        previous_mratchets = put_keys (flatten r).previous_mratchets public_key keys;
      }
  unfolding flatten get_prev_ratchet
  flatten-put_keys r public_key keys {prev} h found =
      let elsewhere =
        find_ratchet-All (λ x. ref x ≢ ref r.current_mratchet) r.previous_mratchets public_key
          h.apart.0 found in
      ground (
        arith,
        elsewhere,
        stored-put_keys r.maps keys r.previous_mratchets public_key {prev = prev} h.apart.1 found,
      )

  pub open_previous-flatten :
      (m : Message) (r : DhRatchet) (prev : MessageRatchet)
      → IsSeparate r
      → get_prev_ratchet r m.header.public_key ≡ some prev
      → open_previous c m (flatten r) (stored_chain r.maps prev)
        ≡ flat (decrypt_previous c m r prev)
  unfolding open_previous decrypt_previous flatten
  open_previous-flatten m r prev h found =
      let (keys, chain, plaintext) = opened m r prev in
      let r' = record r { maps = store_map r.maps (ref prev) keys } in
      ap
        (λ (o : StoredChain × Outcome Bytes).
          set_plain c m
            (record (flatten r) {
              previous_mratchets =
                  put_keys (flatten r).previous_mratchets m.header.public_key
                    o.0.skipped_message_keys;
            })
            o.1)
        (open_chain-stored m r.maps prev)
      ∙ ap (λ y. set_plain c m y plaintext)
          (sym (flatten-put_keys r m.header.public_key keys h found))
      ∙ set_plain-flat m r' plaintext
