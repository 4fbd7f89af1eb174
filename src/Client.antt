-- ===== src/Client.antt =====
-- client/internal/client/client.go: what a client knows, and the parts that its operations use. An
-- operation takes the client and gives it back as it is when the call returns, with the call's
-- result. `D` is the content of the database, `W` the world behind the network, the random numbers
-- and the clock.
pub mod Contacts
pub mod Messages
pub mod Sharing
pub mod Account
pub mod Invariant
pub mod History
pub mod Operations
pub mod Persistence
pub mod Stored
pub mod Reading
pub mod Conversation
pub mod Credentials
use secure_messager_erlang.Prelude.{
  Option, none, some, ℕ, List, [], ◌∷◌, ◌++◌, Bytes, ℤ, pos, map, eqb_ℤ, if◌then◌else◌,
}
use secure_messager_erlang.Outcome.{Error, Outcome, ok, err, crash}
use secure_messager_erlang.Crypt.Library.{Crypto}
use secure_messager_erlang.Crypt.{KeyPair}
use secure_messager_erlang.Ratchet.DhRatchet.{RatchetState, sending, receiving}
use secure_messager_erlang.Contact.{Contact}
use secure_messager_erlang.Message.Cipher.{Draws}
use secure_messager_erlang.Sqlite.{Storage}
use secure_messager_erlang.Utils.{int_to_bytes}
use secure_messager_erlang.Tcp.Packet.{MessageType, Packet}
use secure_messager_erlang.Tcp.Server.{Network, TcpServer, send_receive}

-- The closure that `ListenIncomingMessages` registers.
pub data Handler : Type 0 where
  incoming_messages : Handler

pub record Client (D W : Type 0) : Type 0 where
  pub id_hash : Bytes
  pub tcp_server : TcpServer Handler
  pub db : D
  pub keypair : KeyPair
  pub contacts : List Contact
  pub last_polled_timestamp : ℤ
  pub world : W

-- The packages and systems that the client calls.
pub record Environment (D W : Type 0) : Type 0 where
  pub crypto : Crypto
  pub storage : Storage D
  pub network : Network W

-- An operation of the client, and what it gives.
abbrev pub Action {ℓ} : Type 0 → Type 0 → Type ℓ → Type ℓ
Action D W A = Client D W → Client D W × Outcome A

infixl 5 ◌>>◌ ◌>>=◌
abbrev pub ◌>>=◌ {α β} :
    {D W : Type 0} {X : Type α} {Y : Type β} → Action D W X → (X → Action D W Y) → Action D W Y
(m >>= next) c =
    let (c1, r) = m c in elim r [ ok x ↦ next x c1 | err e ↦ (c1, err e) | crash ↦ (c1, crash) ]

abbrev pub ◌>>◌ {α β} :
    {D W : Type 0} {X : Type α} {Y : Type β} → Action D W X → Action D W Y → Action D W Y
first >> second = first >>= λ _. second

abbrev pub give {ℓ} : {D W : Type 0} {A : Type ℓ} → Outcome A → Action D W A
give r c = (c, r)

-- A call that changes the database, and one that reads it.
abbrev pub store : {D W : Type 0} → (D → D × Outcome (Unit {0})) → Action D W (Unit {0})
store f c = let (d, r) = f c.db in (record c { db = d }, r)

abbrev pub read {ℓ} : {D W : Type 0} {A : Type ℓ} → (D → Outcome A) → Action D W A
read f c = (c, f c.db)

-- The call's error is ignored.
abbrev pub ignoring : {D W : Type 0} → Action D W (Unit {0}) → Action D W (Unit {0})
ignoring m c =
    let (c1, r) = m c in elim r [ ok _ ↦ (c1, ok tt) | err _ ↦ (c1, ok tt) | crash ↦ (c1, crash) ]

module _ {D W : Type 0} (env : Environment D W) where
  -- c.TCPServer.SendReceive
  unfoldable pub request : MessageType → Bytes → Action D W Packet
  request message_type bytes c =
      let (s, w, r) = send_receive env.network c.tcp_server c.world message_type bytes in
      (record c { tcp_server = s; world = w }, r)

  -- rand.Read into `n` bytes.
  unfoldable pub random : ℕ → Action D W Bytes
  random n c = let (w, r) = env.network.random c.world n in (record c { world = w }, r)

  -- What the `rand.Read` calls of one `Encrypt` give: a private key, if the ratchet was last used
  -- for receiving, and a nonce. A ratchet that is sending has no use for the first field.
  unfoldable pub draw : RatchetState → W → W × Draws
  draw receiving w =
      let (w1, private_key) = env.network.random w 32 in
      let (w2, nonce) = env.network.random w1 12 in
      (w2, record { private_key = private_key; nonce = nonce })
  draw sending w =
      let (w1, nonce) = env.network.random w 12 in
      (w1, record { private_key = nonce; nonce = nonce })

-- A nil `ContactIDHash` is `none`.
pub record ReceiveMessagePayload : Type 0 where
  pub contact_id_hash : Option Bytes
  pub starting_timestamp : ℤ

unfoldable pub payload : ReceiveMessagePayload → Bytes
payload m = elim m.contact_id_hash [
  | none ↦ if eqb_ℤ m.starting_timestamp (pos 0) then [] else int_to_bytes m.starting_timestamp
  | some h ↦ h ++ int_to_bytes m.starting_timestamp
]

unfoldable pub get_contact_ids : {D W : Type 0} → Client D W → List Bytes
get_contact_ids c = map (λ (x : Contact). x.id_hash) c.contacts
