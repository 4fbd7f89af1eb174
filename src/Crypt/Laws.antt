-- ===== src/Crypt/Laws.antt =====
-- client/internal/crypt: sealing and opening under one key, and Diffie-Hellman on two sides.
use secure_messager_erlang.Prelude.{◌≡◌, ◌≢◌, ap, arith, Bytes, length, ℤ_eq, ℕ_eq, Bytes_eq}
use secure_messager_erlang.Outcome.{Outcome, ok, err, ◌>>=◌, key_must_be_32_bytes}
use secure_messager_erlang.Crypt.Library.{Crypto, CryptoLaws}
use secure_messager_erlang.Crypt.{
  KeyPair, encrypt_aes, decrypt_aes, generate_key_pair, generate_shared_secret,
}

module _ (c : Crypto) (laws : CryptoLaws c) where
  -- With a key of 32 bytes and a nonce of 12, `EncryptAES` succeeds and `DecryptAES` gives the
  -- plaintext back.
  pub decrypt_aes-encrypt_aes :
      (key plaintext nonce : Bytes)
      → length key ≡ 32
      → length nonce ≡ 12
      → (ct : Bytes) × (encrypt_aes c key plaintext nonce ≡ ok ct)
        × (decrypt_aes c key ct nonce ≡ ok plaintext)
  unfolding encrypt_aes decrypt_aes
  decrypt_aes-encrypt_aes key plaintext nonce hk hn =
      let (ct, sealed, opened) = laws.open_gcm-seal key nonce plaintext hk hn in
      (
        ct,
        ground (arith, hk, laws.new_cipher-ok key hk, laws.new_gcm-ok key hk, sealed),
        ground (arith, hk, laws.new_cipher-ok key hk, laws.new_gcm-ok key hk, opened),
      )

  -- A key that is not 32 bytes long is refused on both sides, before the cipher is made.
  pub encrypt_aes_key :
      (key plaintext nonce : Bytes)
      → length key ≢ 32
      → (encrypt_aes c key plaintext nonce ≡ err key_must_be_32_bytes)
        × (decrypt_aes c key plaintext nonce ≡ err key_must_be_32_bytes)
  unfolding encrypt_aes decrypt_aes
  encrypt_aes_key key plaintext nonce h = ground arith

  -- A generated public key is the base point, times the private key.
  pub generate_key_pair_public :
      (draw : Outcome Bytes) {k : KeyPair}
      → generate_key_pair c draw ≡ ok k
      → c.x25519 k.private_key c.basepoint ≡ ok k.public_key
  unfolding generate_key_pair
  generate_key_pair_public draw h = ground arith

  -- Two key pairs share their secret: each side computes the same result.
  pub generate_shared_secret_agree :
      (a b : KeyPair)
      → c.x25519 a.private_key c.basepoint ≡ ok a.public_key
      → c.x25519 b.private_key c.basepoint ≡ ok b.public_key
      → generate_shared_secret c a b.public_key ≡ generate_shared_secret c b a.public_key
  unfolding generate_shared_secret
  generate_shared_secret_agree a b ha hb =
      ap (λ (r : Outcome Bytes). r >>= λ s. ok s)
        (laws.x25519_agree a.private_key b.private_key ha hb)
