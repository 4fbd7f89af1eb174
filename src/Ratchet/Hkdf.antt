-- ===== src/Ratchet/Hkdf.antt =====
-- client/internal/contact/ratchet/hkdf.go: HKDF over HMAC-SHA-512.
pub mod Rfc5869
use secure_messager_erlang.Prelude.{
  ℕ, zero, suc, ◌+◌, ◌-◌, ◌/◌, ◌%◌, [], ◌∷◌, ◌++◌, Option, none, some, Bytes, length, take,
  replicate, ltb, if◌then◌else◌,
}
use secure_messager_erlang.Outcome.{Outcome, ok, err, short_buffer, ◌>>=◌}
use secure_messager_erlang.Crypt.Library.{Crypto}

-- sha512.Size
abbrev pub hash_size : ℕ
hash_size = 64

module _ (c : Crypto) where
  -- `none` is the nil salt.
  unfoldable pub extract : Bytes → Option Bytes → Bytes
  extract input none = c.hmac_sha512 (replicate hash_size 0) input
  extract input (some salt) = c.hmac_sha512 salt input

  -- The loop `for i := 1; i <= n; i++`, with the rounds that are left.
  expand_loop : Bytes → Bytes → ℕ → ℕ → Bytes → Bytes → Bytes
  expand_loop prk info zero i previous_block okm = okm
  expand_loop prk info (suc rounds) i previous_block okm =
      let block = c.hmac_sha512 prk (previous_block ++ (info ++ ((i % 256) ∷ []))) in
      expand_loop prk info rounds (i + 1) block (okm ++ block)

  unfoldable pub expand : Bytes → Bytes → ℕ → Outcome Bytes
  unfolding expand_loop
  expand prk info len =
      let n = (len + hash_size - 1) / hash_size in
      let okm = expand_loop prk info n 1 [] [] in
      if ltb (length okm) len then err short_buffer else ok (take len okm)

  unfoldable pub derive : Bytes → Option Bytes → Bytes → ℕ → Outcome Bytes
  unfolding extract expand
  derive input salt info len = let prk = extract input salt in do okm ← expand prk info len; ok okm
