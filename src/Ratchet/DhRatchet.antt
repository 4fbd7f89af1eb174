-- ===== src/Ratchet/DhRatchet.antt =====
-- client/internal/contact/ratchet/dhratchet.go: the ratchet over the chains of message keys. The
-- maps of skipped keys that its message ratchets refer to stand in `maps`; no other ratchet refers
-- to them. Gob's `Marshal` and `Unmarshal` are a parameter of the modules that store ratchets.
pub mod Cycle
pub mod Stored
pub mod Separate
pub mod ByValue
use secure_messager_erlang.Prelude.{
  ℕ, zero, suc, ◌+◌, ◌-◌, ◌*◌, ◌/◌, ◌%◌, ◌^◌, ◌≤◌, ◌<◌, ◌≡◌, ◌≢◌, refl, sym, ap, ◌∙◌, ◌↔◌, ◌⊎◌, inl,
  inr, Bool, true, false, not, ◌&&◌, ◌||◌, List, [], ◌∷◌, ◌++◌, append_assoc, append-nil, arith,
  Option, none, some, Bytes, length, length-append, length-take, length-drop, take, drop,
  take-append, drop-append, take-append-drop, take_all, replicate, length-replicate, le→ltb, lt→ltb,
  ltb, leb, ◌==◌, ==_refl, if◌then◌else◌, Bool-cases, Option-cases, bytes_equal, bytes_equal_iff,
  bytes_equal_refl, ℤ, ℤ_eq, ℕ_eq, Bytes_eq, pos, negsuc, pos_part, neg_part, sub_ℕ, ◌+ℤ◌, ◌-ℤ◌,
  ◌≤ℤ◌, ltb_ℤ, eqb_ℤ, Eq, Assoc, lookup, insert, delete, lookup-insert, lookup-delete,
  length-insert, length-delete,
}
use secure_messager_erlang.Outcome.{
  Error, Outcome, ok, err, crash, ◌>>=◌, ◌>>◌, invalid_hash_length, insufficient_message_length,
  insufficient_message, failed_to_parse, invalid_message_key_index, too_many_skipped,
  already_processed, invalid_mac, no_matching_ratchet, packet_too_long, auth_not_set,
  invalid_packet_length, invalid_auth_token_length,
}
use secure_messager_erlang.Crypt.Library.{Crypto, CryptoLaws}
use secure_messager_erlang.Crypt.{
  KeyPair, key_length, encrypt_aes, decrypt_aes, generate_key_pair, generate_shared_secret,
  or_fatal,
}
use secure_messager_erlang.Ratchet.MessageRatchet.{
  SkippedKeys, MessageRatchet, chain_info, new_message_ratchet, initialize, ck_cycle, skip_keys,
  take_key, decrypt_new, decrypt, encrypt, encrypt_with_key, decrypt_with_key, max_message_skip,
  nonce_length, salt_length,
}
use secure_messager_erlang.Ratchet.Hkdf.{derive}

pub data RatchetState : Type 0 where
  sending receiving : RatchetState

abbrev pub prev_ratchet_limit : ℕ
prev_ratchet_limit = 10

-- The Go maps that have been allocated: those below `next`.
pub record Maps : Type 0 where
  pub next : ℕ
  pub cell : ℕ → SkippedKeys

-- make(map[int][]byte)
abbrev pub make_map : Maps → Maps
make_map h = record { next = suc h.next; cell = λ i. if i == h.next then [] else h.cell i }

abbrev pub store_map : Maps → ℕ → SkippedKeys → Maps
store_map h ref keys = record h { cell = λ i. if i == ref then keys else h.cell i }

-- A nil `child_key` is the empty slice.
pub record DhRatchet : Type 0 where
  pub keypair : KeyPair
  pub root_key : Bytes
  pub child_key : Bytes
  pub current_mratchet : MessageRatchet
  pub previous_mratchets : List MessageRatchet
  pub ratchet_index : ℕ
  pub state : RatchetState
  pub maps : Maps

-- []byte("Ratchet")
abbrev pub ratchet_info : Bytes
ratchet_info = b'R' ∷ b'a' ∷ b't' ∷ b'c' ∷ b'h' ∷ b'e' ∷ b't' ∷ []

-- The skipped keys of the current chain.
abbrev pub current_keys : DhRatchet → SkippedKeys
current_keys r = r.maps.cell r.current_mratchet.skipped_message_keys

unfoldable pub is_current_ratchet : DhRatchet → Bytes → Bool
is_current_ratchet r public_key = bytes_equal r.current_mratchet.foreign_public_key public_key

unfoldable pub find_ratchet : List MessageRatchet → Bytes → Option MessageRatchet
find_ratchet [] public_key = none
find_ratchet (m ∷ ms) public_key =
    if bytes_equal m.foreign_public_key public_key then some m else find_ratchet ms public_key

-- The pointer returned is to a copy of the entry, which refers to the same map of skipped keys.
unfoldable pub get_prev_ratchet : DhRatchet → Bytes → Option MessageRatchet
unfolding find_ratchet
get_prev_ratchet r public_key = find_ratchet r.previous_mratchets public_key

-- The last entries, as many as the limit allows.
unfoldable pub limit_previous {ℓ} : {A : Type ℓ} → List A → List A
limit_previous ms =
    if ltb prev_ratchet_limit (length ms) then drop (length ms - prev_ratchet_limit) ms else ms

-- "Store current ratchet before creating a new one".
unfoldable pub store_current : DhRatchet → DhRatchet
store_current r =
    if ltb 0 (length r.current_mratchet.foreign_public_key)
    then record r {
      previous_mratchets = limit_previous (r.previous_mratchets ++ (r.current_mratchet ∷ []));
    }
    else r

-- The end of `RKCycle`, with the two halves of the key material.
unfoldable pub start_chain : DhRatchet → Bytes → Bytes → DhRatchet
start_chain r key_material foreign_public_key =
    let root_key = take key_length key_material in
    record r {
      root_key = root_key;
      child_key = drop key_length key_material;
      maps = make_map r.maps;
      current_mratchet = initialize (new_message_ratchet r.maps.next) root_key foreign_public_key;
      ratchet_index = suc r.ratchet_index;
    }

module _ (c : Crypto) where
  unfoldable pub new_dh_ratchet : KeyPair → Bytes → RatchetState → Outcome DhRatchet
  new_dh_ratchet keypair foreign_public_key init_state = do
    root_key ← or_fatal (generate_shared_secret c keypair foreign_public_key)
    ok (record {
      keypair = keypair;
      root_key = root_key;
      child_key = [];
      current_mratchet = initialize (new_message_ratchet 0) root_key foreign_public_key;
      previous_mratchets = [];
      ratchet_index = 0;
      state = init_state;
      maps = record { next = 1; cell = λ _. [] };
    })

  -- `none` is the nil key: the foreign key of the current chain. An error is logged and leaves the
  -- ratchet as it is by then, with the current chain stored among the previous ones too.
  unfoldable pub rk_cycle : DhRatchet → Option Bytes → Outcome DhRatchet
  rk_cycle r key =
      let foreign_public_key : Bytes = elim key [
        | none ↦ r.current_mratchet.foreign_public_key
        | some k ↦ k
      ] in
      let stored = store_current r in
      elim (generate_shared_secret c stored.keypair foreign_public_key) [
        | crash ↦ crash
        | err e ↦ ok stored
        | ok dh_key ↦ elim (derive c stored.root_key (some dh_key) ratchet_info (2 * key_length)) [
          | crash ↦ crash
          | err e ↦ ok stored
          | ok key_material ↦ ok (start_chain stored key_material foreign_public_key)
        ]
      ]
