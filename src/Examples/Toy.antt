-- ===== src/Examples/Toy.antt =====
-- A toy implementation of the cryptographic packages: small sums in place of hashes, the identity in
-- place of the cipher. It meets `CryptoLaws`, so that those can hold.
use secure_messager_erlang.Prelude.{
  ℕ, ◌+◌, ◌*◌, ◌%◌, ◌≡◌, refl, sym, ap, [], ◌∷◌, arith, Bytes, length, replicate,
}
use secure_messager_erlang.Outcome.{Outcome, ok, err, crash}
use secure_messager_erlang.Crypt.Library.{Crypto, CryptoLaws}

abbrev weigh : ℕ → Bytes → ℕ
weigh acc [] = acc
weigh acc (b ∷ bs) = weigh ((acc * 31 + b + 1) % 256) bs

abbrev first : Bytes → ℕ
first [] = 0
first (b ∷ bs) = b

-- The bytes of a result.
abbrev bytes_of : Outcome Bytes → Bytes
bytes_of (ok b) = b
bytes_of (err e) = []
bytes_of crash = []

abbrev pub toy : Crypto
toy = record {
  x25519 = λ scalar point. ok (replicate 32 ((first scalar + first point) % 256));
  basepoint = replicate 32 9;
  hmac_sha512 = λ key message. replicate 64 (weigh (weigh 5 key) message);
  hmac_sha256 = λ key message. replicate 32 (weigh (weigh 7 key) message);
  md5 = λ b. replicate 16 (weigh 11 b);
  new_cipher = λ key. ok tt;
  new_gcm = λ key. ok tt;
  seal = λ key nonce plaintext. ok plaintext;
  open_gcm = λ key nonce ciphertext. ok ciphertext;
}

toy_agree :
    (a b : ℕ) (pub_a pub_b : Bytes)
    → (a + 9) % 256 ≡ first pub_a
    → (b + 9) % 256 ≡ first pub_b
    → (a + first pub_b) % 256 ≡ (b + first pub_a) % 256
toy_agree a b pub_a pub_b ha hb = omega arith

pub toy_laws : CryptoLaws toy
toy_laws = record {
  length-hmac_sha512 = λ key message. refl;
  length-hmac_sha256 = λ key message. refl;
  length-md5 = λ b. refl;
  new_cipher-ok = λ key h. refl;
  new_gcm-ok = λ key h. refl;
  open_gcm-seal = λ key nonce plaintext hk hn. (plaintext, refl, refl);
  length-x25519 = λ scalar point h. sym (ap (λ (r : Outcome Bytes). length (bytes_of r)) h);
  x25519_agree = λ a b {pub_a} {pub_b} ha hb.
      ap (λ (v : ℕ). ok (replicate 32 v))
        (toy_agree (first a) (first b) pub_a pub_b
          (ap (λ (r : Outcome Bytes). first (bytes_of r)) ha)
          (ap (λ (r : Outcome Bytes). first (bytes_of r)) hb));
}
