-- ===== src/Crypt.antt =====
-- client/internal/crypt: key pairs (keys.go) and AES-GCM (aes.go), over the packages crypto/* and
-- curve25519, which are a parameter.
pub mod Library
pub mod Laws
use secure_messager_erlang.Prelude.{
  ℕ, Bool, true, false, ◌||◌, not, Bytes, length, ◌==◌, if◌then◌else◌,
}
use secure_messager_erlang.Outcome.{Outcome, ok, err, crash, key_must_be_32_bytes, ◌>>=◌, ◌>>◌}
use secure_messager_erlang.Crypt.Library.{Crypto}

abbrev pub key_length : ℕ
key_length = 32

pub record KeyPair : Type 0 where
  pub public_key : Bytes
  pub private_key : Bytes

unfoldable pub is_valid : KeyPair → Bool
is_valid k =
    if not (length k.public_key == key_length) || not (length k.private_key == key_length)
    then false
    else true

-- `if err != nil { log.Fatalf(…) }`
unfoldable pub or_fatal {ℓ} : {A : Type ℓ} → Outcome A → Outcome A
or_fatal (ok a) = ok a
or_fatal (err e) = crash
or_fatal crash = crash

module _ (c : Crypto) where
  -- `priv` is what `rand.Read` fills in, or its error.
  unfoldable pub generate_key_pair : Outcome Bytes → Outcome KeyPair
  unfolding or_fatal
  generate_key_pair priv = do
    private_key ← or_fatal priv
    public_key ← or_fatal (c.x25519 private_key c.basepoint)
    ok (record { public_key = public_key; private_key = private_key })

  unfoldable pub generate_shared_secret : KeyPair → Bytes → Outcome Bytes
  generate_shared_secret keypair public_key = do
    shared_secret ← c.x25519 keypair.private_key public_key
    ok shared_secret

  unfoldable pub encrypt_aes : Bytes → Bytes → Bytes → Outcome Bytes
  encrypt_aes key plaintext nonce =
      if not (length key == key_length)
      then err key_must_be_32_bytes
      else do c.new_cipher key; c.new_gcm key; c.seal key nonce plaintext

  unfoldable pub decrypt_aes : Bytes → Bytes → Bytes → Outcome Bytes
  decrypt_aes key ciphertext nonce =
      if not (length key == key_length)
      then err key_must_be_32_bytes
      else do c.new_cipher key; c.new_gcm key; c.open_gcm key nonce ciphertext
