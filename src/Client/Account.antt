-- ===== src/Client/Account.antt =====
-- client/internal/client/client.go: the user's keys, signing up and logging in.
use secure_messager_erlang.Prelude.{not, [], ◌++◌, none, Bytes, length, ◌==◌, if◌then◌else◌, pos}
use secure_messager_erlang.Outcome.{ok, err, crash, user_id_empty, password_empty}
use secure_messager_erlang.Crypt.{KeyPair, is_valid, generate_key_pair, encrypt_aes}
use secure_messager_erlang.Sqlite
use secure_messager_erlang.Tcp.Packet.{
  MessageType, req_key, req_login, req_signup, bytes_to_auth_token,
}
use secure_messager_erlang.Tcp.Server.{TcpServer, set_auth_token, set_auth_id}
use secure_messager_erlang.Client.{
  Client, Environment, Handler, Action, ◌>>=◌, ◌>>◌, give, store, request, random,
}
use secure_messager_erlang.Client.Contacts.{load_contacts}
use secure_messager_erlang.Client.Messages.{request_messages}

-- A client of a server that was made, before anything is loaded.
unfoldable pub new_client : {D W : Type 0} → TcpServer Handler → D → W → Client D W
new_client server db world = record {
  id_hash = [];
  tcp_server = server;
  db = db;
  keypair = record { public_key = []; private_key = [] };
  contacts = [];
  last_polled_timestamp = pos 0;
  world = world;
}

module _ {D W : Type 0} (env : Environment D W) where
  abbrev pub set_keypair : KeyPair → Action D W (Unit {0})
  set_keypair k c = (record c { keypair = k }, ok tt)

  -- c.IDHash = userIDHash[:]
  abbrev pub set_id_hash : Bytes → Action D W (Unit {0})
  set_id_hash h c = (record c { id_hash = h }, ok tt)

  -- SetAuthToken and SetAuthID
  abbrev pub set_credentials : Bytes → Bytes → Action D W (Unit {0})
  set_credentials auth_token auth_id c = (
    record c { tcp_server = set_auth_id (set_auth_token c.tcp_server auth_token) auth_id },
    ok tt,
  )

  -- A new key pair is made, stored and used.
  unfoldable pub renew_key_pair : Action D W (Unit {0})
  renew_key_pair = do
    keypair ← λ (c : Client D W).
        (let (w, drawn) = env.network.random c.world 32 in
          (record c { world = w }, generate_key_pair env.crypto drawn))
    store (λ d. Sqlite.set_user_key_pair env.storage d keypair)
    set_keypair keypair

  unfoldable pub load_key_pair : Action D W (Unit {0})
  load_key_pair c = elim (Sqlite.get_user_key_pair env.storage c.db) [
    | crash ↦ (c, crash)
    | err _ ↦ renew_key_pair c
    | ok keypair ↦ if not (is_valid keypair) then renew_key_pair c else set_keypair keypair c
  ]

  unfoldable pub load_client_data : Action D W (Unit {0})
  load_client_data = do load_key_pair; load_contacts env

  -- The common part of `Login` and `Signup`, with the fields that stand between the user's hash and
  -- the nonce: the key is asked for, the password is sent under it, the token is stored.
  unfoldable pub authenticate :
      MessageType → Bytes → Bytes → (Client D W → Bytes) → Action D W (Unit {0})
  authenticate message_type user_id password public_part = do
    set_id_hash (env.crypto.md5 user_id)
    response ← request env req_key (env.crypto.md5 user_id)
    nonce ← random env 12
    encrypted_password ← give (encrypt_aes env.crypto response.bytes password nonce)
    answer ← λ (c : Client D W).
        request env message_type (c.id_hash ++ (public_part c ++ (nonce ++ encrypted_password))) c
    auth_token ← give (bytes_to_auth_token answer.bytes)
    set_credentials auth_token (env.crypto.md5 user_id)
    store (λ d. Sqlite.set_login_data env.storage d user_id password)

  unfoldable pub login : Bytes → Bytes → Action D W (Unit {0})
  login user_id password c =
      if length user_id == 0
      then (c, err user_id_empty)
      else if length password == 0
      then (c, err password_empty)
      else let (c1, done) = authenticate req_login user_id password (λ _. []) c in
        elim done [
          | crash ↦ (c1, crash)
          | err e ↦ (c1, err e)
          | ok _ ↦
              let (c2, received) = request_messages env none c1 in
              elim received [ crash ↦ (c2, crash) | err _ ↦ (c2, ok tt) | ok _ ↦ (c2, ok tt) ]
        ]

  unfoldable pub signup : Bytes → Bytes → Action D W (Unit {0})
  signup user_id password c =
      if length user_id == 0
      then (c, err user_id_empty)
      else if length password == 0
      then (c, err password_empty)
      else authenticate req_signup user_id password (λ (x : Client D W). x.keypair.public_key) c
