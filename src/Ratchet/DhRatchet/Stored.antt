-- ===== src/Ratchet/DhRatchet/Stored.antt =====
-- client/internal/contact/ratchet/dhratchet.go: `Marshal` and `Unmarshal`. Encoding/gob is the
-- parameter `Gob` over what the encoder finds behind the pointers and the maps, where each chain has
-- its own map of skipped keys.
use secure_messager_erlang.Prelude.{
  ℕ, zero, suc, ◌+◌, ◌≡◌, refl, ap, ◌∙◌, arith, Bytes, ℤ, Option, some, List, [], ◌∷◌, All, length,
  map, ◌≢◌,
}
use secure_messager_erlang.Outcome.{Outcome, ok, ◌>>=◌}
use secure_messager_erlang.Crypt.{KeyPair}
use secure_messager_erlang.Ratchet.MessageRatchet.{MessageRatchet, SkippedKeys}
use secure_messager_erlang.Ratchet.DhRatchet.{DhRatchet, RatchetState, Maps}

pub record StoredChain : Type 0 where
  pub foreign_public_key : Bytes
  pub root_key : Bytes
  pub chain_key : Option Bytes
  pub skipped_message_keys : SkippedKeys
  pub max_skip : ℤ
  pub previous_index : ℤ

pub record StoredRatchet : Type 0 where
  pub keypair : KeyPair
  pub root_key : Bytes
  pub child_key : Bytes
  pub current_mratchet : StoredChain
  pub previous_mratchets : List StoredChain
  pub ratchet_index : ℕ
  pub state : RatchetState

-- encoder.Encode and decoder.Decode, into a ratchet without any content.
pub record Gob : Type 0 where
  pub encode : StoredRatchet → Outcome Bytes
  pub decode : Bytes → Outcome StoredRatchet

-- A slice of length 0 is left out by the encoder, and is nil after decoding; `CKCycle` asks whether
-- the chain key is nil.
abbrev pub IsEncodable : StoredRatchet → Type 0
IsEncodable x = All (λ s. s.chain_key ≢ some []) (x.current_mratchet ∷ x.previous_mratchets)

-- What was encoded is decoded.
pub record GobLaws (g : Gob) : Type 0 where
  pub decode-encode :
      (x : StoredRatchet) {b : Bytes} → IsEncodable x → g.encode x ≡ ok b → g.decode b ≡ ok x

-- A chain with its map, and a chain with its map at a reference.
abbrev pub with_map : SkippedKeys → MessageRatchet → StoredChain
with_map keys m = record {
  foreign_public_key = m.foreign_public_key;
  root_key = m.root_key;
  chain_key = m.chain_key;
  skipped_message_keys = keys;
  max_skip = m.max_skip;
  previous_index = m.previous_index;
}

abbrev pub with_ref : ℕ → StoredChain → MessageRatchet
with_ref i s = record {
  foreign_public_key = s.foreign_public_key;
  root_key = s.root_key;
  chain_key = s.chain_key;
  skipped_message_keys = i;
  max_skip = s.max_skip;
  previous_index = s.previous_index;
}

abbrev pub stored_chain : Maps → MessageRatchet → StoredChain
stored_chain h m = with_map (h.cell m.skipped_message_keys) m

-- What the encoder finds.
unfoldable pub flatten : DhRatchet → StoredRatchet
flatten r = record {
  keypair = r.keypair;
  root_key = r.root_key;
  child_key = r.child_key;
  current_mratchet = stored_chain r.maps r.current_mratchet;
  previous_mratchets = map (stored_chain r.maps) r.previous_mratchets;
  ratchet_index = r.ratchet_index;
  state = r.state;
}

-- Maps for the chains, one after the other.
abbrev pub allocate : ℕ → List StoredChain → List MessageRatchet
allocate i [] = []
allocate i (s ∷ chains) = with_ref i s ∷ allocate (suc i) chains

abbrev pub cells : List StoredChain → ℕ → SkippedKeys
cells [] i = []
cells (s ∷ chains) zero = s.skipped_message_keys
cells (s ∷ chains) (suc i) = cells chains i

-- What the decoder makes, with a new map for each chain.
unfoldable pub rebuild : StoredRatchet → DhRatchet
rebuild x = record {
  keypair = x.keypair;
  root_key = x.root_key;
  child_key = x.child_key;
  current_mratchet = with_ref 0 x.current_mratchet;
  previous_mratchets = allocate 1 x.previous_mratchets;
  ratchet_index = x.ratchet_index;
  state = x.state;
  maps = record {
    next = suc (length x.previous_mratchets);
    cell = cells (x.current_mratchet ∷ x.previous_mratchets);
  };
}

unfoldable pub marshal : Gob → DhRatchet → Outcome Bytes
marshal g r = g.encode (flatten r)

unfoldable pub unmarshal : Gob → Bytes → Outcome DhRatchet
unmarshal g bytes = g.decode bytes >>= λ x. ok (rebuild x)

map-allocate :
    (h : Maps) (i : ℕ) (chains : List StoredChain)
    → ((k : ℕ) → h.cell (k + i) ≡ cells chains k)
    → map (stored_chain h) (allocate i chains) ≡ chains
map-allocate h i [] at = refl
map-allocate h i (s ∷ chains) at =
    let next : (k : ℕ) → k + suc i ≡ suc k + i = λ k. omega arith in
    let here : i ≡ 0 + i = omega arith in
    let rest = map-allocate h (suc i) chains (λ k. ap h.cell (next k) ∙ at (suc k)) in
    ap (λ k. with_map k (with_ref i s) ∷ map (stored_chain h) (allocate (suc i) chains))
      (ap h.cell here ∙ at 0)
    ∙ ap (λ l. s ∷ l) rest

-- What the decoder makes holds what was decoded.
pub flatten-rebuild : (x : StoredRatchet) → flatten (rebuild x) ≡ x
unfolding flatten rebuild
flatten-rebuild x =
    ap (λ l. record x { previous_mratchets = l })
      (map-allocate (rebuild x).maps 1 x.previous_mratchets (λ k. ap all_cells (one_more k)))
  where
    all_cells : ℕ → SkippedKeys
    all_cells = cells (x.current_mratchet ∷ x.previous_mratchets)

    one_more : (k : ℕ) → k + 1 ≡ suc k
    one_more k = omega arith

-- What `Unmarshal` makes of the bytes of a ratchet that gob can keep.
pub unmarshal-rebuild :
    (g : Gob) (laws : GobLaws g) (r : DhRatchet) {b : Bytes}
    → IsEncodable (flatten r)
    → marshal g r ≡ ok b
    → unmarshal g b ≡ ok (rebuild (flatten r))
unfolding marshal unmarshal
unmarshal-rebuild g laws r encodable stored =
    ap (λ (x : Outcome StoredRatchet). x >>= λ y. ok (rebuild y))
      (laws.decode-encode (flatten r) encodable stored)
