-- ===== src/Ratchet/Hkdf/Rfc5869.antt =====
-- client/internal/contact/ratchet/hkdf.go against RFC 5869.
use secure_messager_erlang.Prelude.{
  ℕ, zero, suc, ◌+◌, ◌-◌, ◌*◌, ◌/◌, ◌%◌, ◌≤◌, ◌≡◌, refl, sym, ap, ◌∙◌, [], ◌∷◌, ◌++◌, append_assoc,
  append-nil, arith, Option, none, some, replicate, Bytes, length, length-append, length-take, take,
  take_all, le→ltb,
}
use secure_messager_erlang.Outcome.{ok}
use secure_messager_erlang.Crypt.Library.{Crypto, CryptoLaws}
use secure_messager_erlang.Ratchet.Hkdf.{hash_size, extract, expand_loop, expand, derive}

module _ (c : Crypto) (prk info : Bytes) where
  -- T(i) of RFC 5869, section 2.3: T(0) is empty, T(i) = HMAC(PRK, T(i - 1) | info | i).
  pub block : ℕ → Bytes
  block zero = []
  block (suc i) = c.hmac_sha512 prk (block i ++ (info ++ ((suc i % 256) ∷ [])))

  -- T(first + 1) | T(first + 2) | … , for a number of blocks.
  pub blocks : ℕ → ℕ → Bytes
  unfolding block
  blocks first zero = []
  blocks first (suc n) = block (suc first) ++ blocks (suc first) n

  expand_loop-blocks :
      (n i : ℕ) (okm : Bytes) → expand_loop c prk info n (suc i) (block i) okm ≡ okm ++ blocks i n
  unfolding expand_loop blocks block
  expand_loop-blocks zero i okm = sym (append-nil okm)
  expand_loop-blocks (suc n) i okm =
      ap (λ (j : ℕ). expand_loop c prk info n j (block (suc i)) (okm ++ block (suc i)))
        (omega arith)
      ∙ expand_loop-blocks n (suc i) (okm ++ block (suc i))
      ∙ append_assoc okm (block (suc i)) (blocks (suc i) n)

  expand_loop_lem : (n : ℕ) → expand_loop c prk info n 1 [] [] ≡ blocks 0 n
  unfolding block
  expand_loop_lem n = expand_loop-blocks n 0 []

  module _ (laws : CryptoLaws c) where
    length-blocks : (first n : ℕ) → length (blocks first n) ≡ n * hash_size
    unfolding blocks block
    length-blocks first zero = refl
    length-blocks first (suc n) = omega (
      arith,
      length-append (block (suc first)) (blocks (suc first) n),
      laws.length-hmac_sha512 prk (block first ++ (info ++ ((suc first % 256) ∷ []))),
      length-blocks (suc first) n,
    )

    pub blocks_suffice : (len : ℕ) → len ≤ length (blocks 0 ((len + hash_size - 1) / hash_size))
    blocks_suffice len = rw length-blocks (omega arith)

    -- Expansion never runs short: it returns the first bytes of T(1) | T(2) | …, as many as asked.
    pub expand-blocks :
        (len : ℕ)
        → expand c prk info len ≡ ok (take len (blocks 0 ((len + hash_size - 1) / hash_size)))
    unfolding expand
    expand-blocks len = rw (expand_loop_lem ((len + hash_size - 1) / hash_size)) (
        rw (le→ltb (length (blocks 0 ((len + hash_size - 1) / hash_size))) len (blocks_suffice len))
          refl)

-- Section 2.2: PRK = HMAC-Hash(salt, IKM), keyed with the salt; one that is not given is HashLen zeros.
abbrev pub pseudorandom_key : Crypto → Option Bytes → Bytes → Bytes
pseudorandom_key c none ikm = c.hmac_sha512 (replicate 64 0) ikm
pseudorandom_key c (some salt) ikm = c.hmac_sha512 salt ikm

extract-pseudorandom_key :
    (c : Crypto) (salt : Option Bytes) (input : Bytes)
    → extract c input salt ≡ pseudorandom_key c salt input
unfolding extract
extract-pseudorandom_key c none input = refl
extract-pseudorandom_key c (some salt) input = refl

-- For a length of at most 255 blocks, derive returns the output key material of RFC 5869 over
-- HMAC-SHA-512, of the length asked, and no error: the pseudorandom key is the HMAC of the input under
-- the salt as the key (64 zeros if there is none), and the output the first bytes of T(1) | T(2) | …
-- under the pseudorandom key.
pub derive-rfc5869 :
    (c : Crypto) (laws : CryptoLaws c) (input : Bytes) (salt : Option Bytes) (info : Bytes)
    (len : ℕ)
    → len ≤ 255 * hash_size
    → (okm : Bytes) × (derive c input salt info len ≡ ok okm)
      × (length okm ≡ len)
      × (okm
          ≡ take len
              (blocks c (pseudorandom_key c salt input) info 0 ((len + hash_size - 1) / hash_size)))
unfolding derive
derive-rfc5869 c laws input salt info len bound =
    let prk = extract c input salt in
    let okm = take len (blocks c prk info 0 ((len + hash_size - 1) / hash_size)) in
    (
      okm,
      rw (expand-blocks c prk info laws len) refl,
      omega (
        arith,
        length-take len (blocks c prk info 0 ((len + hash_size - 1) / hash_size)),
        blocks_suffice c prk info laws len,
      ),
      ap (λ (key : Bytes). take len (blocks c key info 0 ((len + hash_size - 1) / hash_size)))
          (extract-pseudorandom_key c salt input),
    )

-- 64 bytes are one block.
pub derive_one_block :
    (c : Crypto) (laws : CryptoLaws c) (input : Bytes) (salt : Option Bytes) (info : Bytes)
    → derive c input salt info 64 ≡ ok (c.hmac_sha512 (extract c input salt) (info ++ (1 ∷ [])))
unfolding derive
derive_one_block c laws input salt info =
    let b = c.hmac_sha512 (extract c input salt) (info ++ (1 ∷ [])) in
    let n = laws.length-hmac_sha512 (extract c input salt) (info ++ (1 ∷ [])) in
    ground (arith, n, take_all 64 b (omega (arith, n)))
