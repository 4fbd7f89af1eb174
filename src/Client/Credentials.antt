-- ===== src/Client/Credentials.antt =====
-- client/internal/client/client.go: the keys and the credentials that a client has once it has
-- loaded its key pair or logged in.
use secure_messager_erlang.Prelude.{◌≡◌, inl, inr, true, Bytes, length, arith, Bool-cases}
use secure_messager_erlang.Outcome.{Outcome, ok, Outcome-cases}
use secure_messager_erlang.Crypt.Library.{Crypto, CryptoLaws}
use secure_messager_erlang.Crypt.{KeyPair, is_valid, generate_key_pair, or_fatal}
use secure_messager_erlang.Tcp.Packet.{MessageType, bytes_to_auth_token}
use secure_messager_erlang.Tcp.Server.{set_auth_token, set_auth_id}
use secure_messager_erlang.Client.{Client, Environment, request, random}
use secure_messager_erlang.Client.Account.{authenticate, load_key_pair, renew_key_pair}
use secure_messager_erlang.Sqlite

bytes_to_auth_token-length : (b : Bytes) {t : Bytes} → bytes_to_auth_token b ≡ ok t → length t ≡ 32
unfolding bytes_to_auth_token
bytes_to_auth_token-length b h = ground (arith, h)

module _ {D W : Type 0} (env : Environment D W) where
  -- A client that could authenticate is known to the connection by the hash of the user's name, and
  -- has a token of 32 bytes; the hash is also what it compares senders with.
  pub authenticate-ok :
      (t : MessageType) (user_id password : Bytes) (f : Client D W → Bytes) (c : Client D W)
      → (authenticate env t user_id password f c).1 ≡ ok tt
      → ((authenticate env t user_id password f c).0.id_hash ≡ env.crypto.md5 user_id)
        × ((authenticate env t user_id password f c).0.tcp_server.auth_id ≡ env.crypto.md5 user_id)
        × (length (authenticate env t user_id password f c).0.tcp_server.auth_token ≡ 32)
  unfolding authenticate request random set_auth_id set_auth_token bytes_to_auth_token
  authenticate-ok t user_id password f c h = ground (arith, h)

generate_key_pair-is_valid :
    (c : Crypto) (laws : CryptoLaws c) (draw : Outcome Bytes) {k : KeyPair}
    → ((b : Bytes) → draw ≡ ok b → length b ≡ 32)
    → generate_key_pair c draw ≡ ok k
    → is_valid k ≡ true
unfolding generate_key_pair is_valid or_fatal
generate_key_pair-is_valid c laws draw {k} full h = elim (Outcome-cases draw) [
  | inr (inl (x, e)) ↦ ground (arith, e, h)
  | inr (inr e) ↦ ground (arith, e, h)
  | inl (b, e) ↦ elim (Outcome-cases (c.x25519 b c.basepoint)) [
    | inr (inl (x, e')) ↦ ground (arith, e, e', h)
    | inr (inr e') ↦ ground (arith, e, e', h)
    | inl (p, e') ↦ ground (arith, e, e', h, full b e, laws.length-x25519 b c.basepoint e')
  ]
]

module _ {D W : Type 0} (env : Environment D W) (laws : CryptoLaws env.crypto)
    (full : (w : W) (b : Bytes) → (env.network.random w 32).1 ≡ ok b → length b ≡ 32) where
  renew_key_pair-is_valid :
      (c : Client D W)
      → (renew_key_pair env c).1 ≡ ok tt
      → is_valid (renew_key_pair env c).0.keypair ≡ true
  unfolding renew_key_pair
  renew_key_pair-is_valid c h =
      let drawn = (env.network.random c.world 32).1 in
      elim (Outcome-cases (generate_key_pair env.crypto drawn)) [
        | inl (k, e) ↦
            ground (
              arith,
              e,
              h,
              generate_key_pair-is_valid env.crypto laws drawn {k = k} (full c.world) e,
            )
        | inr (inl (x, e)) ↦ ground (arith, e, h)
        | inr (inr e) ↦ ground (arith, e, h)
      ]

  -- If the random source gives 32 bytes when asked for them, a client that has loaded its key pair
  -- without an error has one of two keys of 32 bytes, whatever the database held.
  pub load_key_pair-is_valid :
      (c : Client D W)
      → (load_key_pair env c).1 ≡ ok tt
      → is_valid (load_key_pair env c).0.keypair ≡ true
  unfolding load_key_pair
  load_key_pair-is_valid c h = elim (Outcome-cases (Sqlite.get_user_key_pair env.storage c.db)) [
    | inl (k, e) ↦ elim (Bool-cases (is_valid k)) [
      | inl v ↦ ground (arith, e, v, h)
      | inr v ↦ ground (arith, e, v, h, renew_key_pair-is_valid c)
    ]
    | inr (inl (x, e)) ↦ ground (arith, e, h, renew_key_pair-is_valid c)
    | inr (inr e) ↦ ground (arith, e, h)
  ]
