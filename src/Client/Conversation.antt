-- ===== src/Client/Conversation.antt =====
-- client/internal/client/client.go over the tables of the schema: a message from the sender's ratchet
-- to the receiver's chat history.
use secure_messager_erlang.Prelude.{
  ℕ, ◌<◌, ◌^◌, ◌≡◌, ap, ◌∙◌, false, List, [], ◌∷◌, ◌++◌, some, Bytes, length, bytes_equal,
}
use secure_messager_erlang.Outcome.{Outcome, ok}
use secure_messager_erlang.Crypt.Library.{Crypto, CryptoLaws}
use secure_messager_erlang.Contact.{Contact, get_contact_by_id_hash}
use secure_messager_erlang.Ratchet.DhRatchet.{DhRatchet, sending, current_keys}
use secure_messager_erlang.Ratchet.MessageRatchet.KeySchedule.{Follows}
use secure_messager_erlang.Ratchet.MessageRatchet.Receiving.{InSync}
use secure_messager_erlang.Ratchet.MessageRatchet.Delivery.{IsDecryptable}
use secure_messager_erlang.Message.{Message, new_plain_message}
use secure_messager_erlang.Message.Cipher
use secure_messager_erlang.Message.Cipher.{Draws}
use secure_messager_erlang.Message.Cipher.Delivery.{
  decrypt-encrypt_same_chain, encrypt_same_chain-HasWireSizes,
}
use secure_messager_erlang.Message.Wire
use secure_messager_erlang.Message.Wire.Format.{delivered, parse_message_data-payload}
use secure_messager_erlang.Sqlite.Schema.{Tables}
use secure_messager_erlang.Tcp.Packet.{Packet}
use secure_messager_erlang.Tcp.Server.{Network}
use secure_messager_erlang.Client.{Client, draw}
use secure_messager_erlang.Client.Contacts.{get_contact_chat_history}
use secure_messager_erlang.Client.Messages.{incoming}
use secure_messager_erlang.Client.Persistence.{over_schema, sealed}
use secure_messager_erlang.Client.Reading.{incoming-history}
use secure_messager_erlang.Sqlite.Schema.Messages.{stored_message}
use secure_messager_erlang.Client.{Environment}
use secure_messager_erlang.Message.Cipher.{Draws, Result}
use secure_messager_erlang.Message.Wire.Format.{HasWireSizes}
use secure_messager_erlang.Crypt.{KeyPair, generate_key_pair, generate_shared_secret}
use secure_messager_erlang.Ratchet.DhRatchet.{receiving, is_current_ratchet, get_prev_ratchet}
use secure_messager_erlang.Message.Cipher.Delivery.{decrypt-encrypt_turn, encrypt_turn-HasWireSizes}
use secure_messager_erlang.Prelude.{none}

module _ {V W : Type 0} (crypto : Crypto) (laws : CryptoLaws crypto) (network_a : Network V)
    (network_b : Network W) (marshal : DhRatchet → Outcome Bytes)
    (unmarshal : Bytes → Outcome DhRatchet) where
  -- The receiver's engine, the message as the sender leaves it, and what the sender draws for it.
  abbrev pub receiver : Environment Tables W
  receiver = over_schema crypto network_b marshal unmarshal

  abbrev pub sent : Client Tables V → Contact → Bytes → Message
  sent a x text = (sealed crypto network_a marshal unmarshal x text a).0

  abbrev pub drawn : Client Tables V → Contact → Draws
  drawn a x = (draw (over_schema crypto network_a marshal unmarshal) x.dh_ratchet.state a.world).1

  -- What the receiver makes of the message.
  abbrev pub opened : Client Tables V → Contact → Bytes → Client Tables W → Contact → Result
  opened a x text b y =
      Cipher.decrypt crypto (delivered b.id_hash a.id_hash (sent a x text)) y.dh_ratchet

  -- The handler reports no error, and `text` is the last message of the history with `a`.
  abbrev pub HasArrived : Client Tables V → Bytes → Packet → Client Tables W → Type 0
  HasArrived a text packet b =
      ((incoming receiver packet b).1 ≡ ok tt)
      × ((old : List Message) × ((get_contact_chat_history receiver a.id_hash
              (incoming receiver packet b).0).1
            ≡ ok (old ++ (stored_message a.id_hash text ∷ []))))

  HasArrived-opened :
      (a : Client Tables V) (x : Contact) (text : Bytes) (packet : Packet) (b : Client Tables W)
      (y : Contact) {bytes : Bytes}
      → length a.id_hash ≡ 16
      → bytes_equal a.id_hash b.id_hash ≡ false
      → get_contact_by_id_hash b.contacts a.id_hash ≡ some y
      → packet.bytes ≡ a.id_hash ++ Wire.payload (sent a x text)
      → HasWireSizes (sent a x text)
      → (opened a x text b y).2 ≡ ok tt
      → (opened a x text b y).0.plain_message ≡ text
      → marshal (opened a x text b y).1 ≡ ok bytes
      → HasArrived a text packet b
  HasArrived-opened a x text packet b y {bytes} named apart found arrived sizes done plain written =
      let parsed =
        ap (Wire.parse_message_data b.id_hash) arrived
        ∙ parse_message_data-payload b.id_hash a.id_hash (sent a x text) named sizes in
      let (handled, (old, history)) =
        incoming-history crypto network_b marshal unmarshal packet b (sent a x text) y a.id_hash
          {bytes = bytes} named apart parsed found done written in
      (
        handled,
        (old, history ∙ ap (λ (t : Bytes). ok (old ++ (stored_message a.id_hash t ∷ []))) plain),
      )

  -- From one client to the other. `a` sends `text` to its contact `x` within a chain, at message `j`
  -- below 2^63, with a public key of 32 bytes and a nonce of 12. `b` is another user and finds its
  -- contact `y` by `a`'s hash of 16 bytes; `y` knows `a`'s public key, is in step with the root key of
  -- `a`'s chain, and has handled `n` messages of it. The packet holds `a`'s hash and the sealed
  -- message. If index `j` is at most 100 ahead of `n` or its key is stored, and `b`'s new ratchet can
  -- be encoded, then `b`'s handler reports no error, and the last message of `b`'s history with `a` is
  -- `text`.
  pub incoming-sealed :
      (root : Bytes) (n j : ℕ) (a : Client Tables V) (x : Contact) (text nonce : Bytes)
      (packet : Packet) (b : Client Tables W) (y : Contact) {bytes : Bytes}
      → x.dh_ratchet.state ≡ sending
      → Follows crypto root j x.dh_ratchet.current_mratchet
      → InSync crypto root n (current_keys y.dh_ratchet) y.dh_ratchet.current_mratchet
      → y.dh_ratchet.current_mratchet.foreign_public_key ≡ x.dh_ratchet.keypair.public_key
      → IsDecryptable n j (current_keys y.dh_ratchet)
      → (drawn a x).nonce ≡ ok nonce
      → length nonce ≡ 12
      → length x.dh_ratchet.keypair.public_key ≡ 32
      → j < 2 ^ 63
      → length a.id_hash ≡ 16
      → bytes_equal a.id_hash b.id_hash ≡ false
      → get_contact_by_id_hash b.contacts a.id_hash ≡ some y
      → packet.bytes ≡ a.id_hash ++ Wire.payload (sent a x text)
      → marshal (opened a x text b y).1 ≡ ok bytes
      → HasArrived a text packet b
  unfolding new_plain_message
  incoming-sealed root n j a x text nonce packet b y {bytes} is_sending follows sync known reach hn
        len key fits named apart found arrived written =
      let m = new_plain_message a.id_hash x.id_hash text in
      let sizes =
        encrypt_same_chain-HasWireSizes crypto laws root j m x.dh_ratchet (drawn a x) nonce
          is_sending follows hn len key fits in
      let (_, done, plain) =
        decrypt-encrypt_same_chain crypto laws root n j m x.dh_ratchet y.dh_ratchet (drawn a x)
          b.id_hash a.id_hash nonce is_sending follows sync known reach hn len in
      HasArrived-opened a x text packet b y {bytes = bytes} named apart found arrived sizes done
        plain written

  -- An answer from one client to the other. `a` was receiving from its contact `x` and draws a new key
  -- pair `fresh`, with a public key of 32 bytes that `b`'s contact `y` for `a` has not seen, and a nonce
  -- of 12. Both sides have the same root key, `a`'s chain was made with `y`'s key pair, and the secret
  -- that they share can be computed. `b` is another user and finds `y` by `a`'s hash of 16 bytes; the
  -- packet holds that hash and the sealed message. If `b`'s new ratchet can be encoded, then `b`'s
  -- handler reports no error, and the last message of `b`'s history with `a` is `text`.
  pub incoming-sealed_turn :
      (a : Client Tables V) (x : Contact) (text nonce : Bytes) (packet : Packet)
      (b : Client Tables W) (y : Contact) {fresh : KeyPair} {secret bytes : Bytes}
      → x.dh_ratchet.state ≡ receiving
      → x.dh_ratchet.root_key ≡ y.dh_ratchet.root_key
      → generate_key_pair crypto (drawn a x).private_key ≡ ok fresh
      → crypto.x25519 y.dh_ratchet.keypair.private_key crypto.basepoint
        ≡ ok y.dh_ratchet.keypair.public_key
      → x.dh_ratchet.current_mratchet.foreign_public_key ≡ y.dh_ratchet.keypair.public_key
      → generate_shared_secret crypto fresh y.dh_ratchet.keypair.public_key ≡ ok secret
      → is_current_ratchet y.dh_ratchet fresh.public_key ≡ false
      → get_prev_ratchet y.dh_ratchet fresh.public_key ≡ none
      → (drawn a x).nonce ≡ ok nonce
      → length nonce ≡ 12
      → length fresh.public_key ≡ 32
      → length a.id_hash ≡ 16
      → bytes_equal a.id_hash b.id_hash ≡ false
      → get_contact_by_id_hash b.contacts a.id_hash ≡ some y
      → packet.bytes ≡ a.id_hash ++ Wire.payload (sent a x text)
      → marshal (opened a x text b y).1 ≡ ok bytes
      → HasArrived a text packet b
  unfolding new_plain_message
  incoming-sealed_turn a x text nonce packet b y {fresh} {secret} {bytes} is_receiving same_root
        drawn_key genuine known shared new unseen hn len key named apart found arrived written =
      let m = new_plain_message a.id_hash x.id_hash text in
      let sizes =
        encrypt_turn-HasWireSizes crypto laws m x.dh_ratchet (drawn a x) nonce {fresh = fresh}
          {secret = secret} is_receiving drawn_key
          (ap (λ (k : Bytes). generate_shared_secret crypto fresh k) known ∙ shared) hn len key in
      let (_, done, plain) =
        decrypt-encrypt_turn crypto laws m x.dh_ratchet y.dh_ratchet (drawn a x) b.id_hash a.id_hash
          nonce {fresh = fresh} {secret = secret} is_receiving same_root drawn_key genuine known
          shared new unseen hn len in
      HasArrived-opened a x text packet b y {bytes = bytes} named apart found arrived sizes done
        plain written
