-- ===== src/Crypt/Library.antt =====
-- The packages that client/internal calls for cryptography: crypto/aes, crypto/cipher, crypto/hmac,
-- crypto/sha256, crypto/sha512, crypto/md5 and golang.org/x/crypto/curve25519. Their operations are
-- a parameter of the model, and `CryptoLaws` states what their documentation promises.
use secure_messager_erlang.Prelude.{◌≡◌, Bytes, length}
use secure_messager_erlang.Outcome.{Outcome, ok}

pub record Crypto : Type 0 where
  -- curve25519.X25519(scalar, point) and curve25519.Basepoint
  pub x25519 : Bytes → Bytes → Outcome Bytes
  pub basepoint : Bytes
  -- hmac.New(sha512.New, key), Write(message), Sum(nil); the same over SHA-256
  pub hmac_sha512 : Bytes → Bytes → Bytes
  pub hmac_sha256 : Bytes → Bytes → Bytes
  -- md5.Sum
  pub md5 : Bytes → Bytes
  -- aes.NewCipher(key) and cipher.NewGCM(block). The block and the AEAD are determined by the key,
  -- so only the errors are kept.
  pub new_cipher : Bytes → Outcome (Unit {0})
  pub new_gcm : Bytes → Outcome (Unit {0})
  -- aesGCM.Seal(nil, nonce, plaintext, nil) and aesGCM.Open(nil, nonce, ciphertext, nil), on the
  -- AEAD of a key. Both panic on a nonce of the wrong length.
  pub seal : Bytes → Bytes → Bytes → Outcome Bytes
  pub open_gcm : Bytes → Bytes → Bytes → Outcome Bytes

pub record CryptoLaws (c : Crypto) : Type 0 where
  pub length-hmac_sha512 : (key message : Bytes) → length (c.hmac_sha512 key message) ≡ 64
  pub length-hmac_sha256 : (key message : Bytes) → length (c.hmac_sha256 key message) ≡ 32
  pub length-md5 : (b : Bytes) → length (c.md5 b) ≡ 16
  pub new_cipher-ok : (key : Bytes) → length key ≡ 32 → c.new_cipher key ≡ ok tt
  pub new_gcm-ok : (key : Bytes) → length key ≡ 32 → c.new_gcm key ≡ ok tt
  -- What is sealed opens under the same key and nonce.
  pub open_gcm-seal :
      (key nonce plaintext : Bytes)
      → length key ≡ 32
      → length nonce ≡ 12
      → (ct : Bytes) × (c.seal key nonce plaintext ≡ ok ct)
        × (c.open_gcm key nonce ct ≡ ok plaintext)
  pub length-x25519 :
      (scalar point : Bytes) {secret : Bytes}
      → c.x25519 scalar point ≡ ok secret
      → length secret ≡ 32
  -- Diffie-Hellman: both sides get the same secret, or the same error.
  pub x25519_agree :
      (a b : Bytes) {pub_a pub_b : Bytes}
      → c.x25519 a c.basepoint ≡ ok pub_a
      → c.x25519 b c.basepoint ≡ ok pub_b
      → c.x25519 a pub_b ≡ c.x25519 b pub_a
