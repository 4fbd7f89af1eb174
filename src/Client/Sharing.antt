-- ===== src/Client/Sharing.antt =====
-- client/internal/client/client.go: `SendMessage` with the memory behind the slice of the hash. In
-- `append(contactIDHash[:], message.Payload()...)` Go writes in place when the slice has room: the hash
-- of a contact that was received is a part of the buffer that its packet was read into, and hashes and
-- public keys of other contacts can lie behind it. Where slices lie is a matter of the runtime, so it
-- is the parameter `Memory`.
use secure_messager_erlang.Prelude.{
  ◌+◌, ◌<◌, ◌≡◌, arith, ◌++◌, map, none, some, Bytes, ℕ, length, leb, ◌==◌, if◌then◌else◌,
  Option-cases, inl, inr, false, true, ◌≢◌, length-append,
}
use secure_messager_erlang.Outcome.{
  Outcome, Outcome-cases, ok, err, crash, contact_id_empty, plain_message_empty, contact_not_found,
}
use secure_messager_erlang.Contact.{Contact, get_contact_by_id_hash, put_ratchet}
use secure_messager_erlang.Ratchet.DhRatchet.{DhRatchet}
use secure_messager_erlang.Message.{Message, new_plain_message, hash_to_bytes}
use secure_messager_erlang.Message.Cipher
use secure_messager_erlang.Message.Wire
use secure_messager_erlang.Utils.{int_to_bytes}
use secure_messager_erlang.Utils.RoundTrip.{length-int_to_bytes}
use secure_messager_erlang.Client.{Client, Environment, Action, draw, request}
use secure_messager_erlang.Client.Messages.{send_payload, send_to, send_plain_message}

-- `cap` of a slice, and what becomes of a contact when bytes are written behind a slice, in its array.
pub record Memory (W : Type 0) : Type 0 where
  pub capacity : W → Bytes → ℕ
  pub overwritten : W → Bytes → Bytes → Contact → Contact

-- No room is behind the slice, as for the array of a hash that was computed (`md5.Sum`).
abbrev pub HasNoRoom : {W : Type 0} → Memory W → Bytes → Type 0
HasNoRoom {W} memory h = (w : W) → memory.capacity w h ≡ length h

module _ {D W : Type 0} (env : Environment D W) (memory : Memory W) where
  -- With the contact found. What is sent stands in the array of the hash, or in a new one; in the first
  -- case the contacts, the found one included, and the message's pointer to its receiver's hash see
  -- what was written.
  unfoldable pub send_in_memory : Contact → Bytes → Bytes → Action D W (Unit {0})
  send_in_memory x contact_id_hash plain_message c =
      let (w, draws) = draw env x.dh_ratchet.state c.world in
      let (m, r, encrypted) =
        Cipher.encrypt env.crypto (new_plain_message c.id_hash x.id_hash plain_message) x.dh_ratchet
          draws in
      let c1 = record c { world = w; contacts = put_ratchet c.contacts x.id_hash r } in
      let x1 = record x { dh_ratchet = r } in
      let bytes = Wire.payload m in
      let behind = memory.overwritten w contact_id_hash bytes in
      let rest =
        if leb (length contact_id_hash + length bytes) (memory.capacity w contact_id_hash)
        then send_payload env (contact_id_hash ++ bytes)
            (record m { receiver_id_hash = (behind x1).id_hash }) (behind x1)
            (record c1 { contacts = map behind c1.contacts })
        else send_payload env (contact_id_hash ++ bytes) m x1 c1 in
      elim encrypted [ crash ↦ (c1, crash) | err _ ↦ rest | ok _ ↦ rest ]

  unfoldable pub send_message_in_memory : Bytes → Bytes → Action D W (Unit {0})
  send_message_in_memory contact_id_hash plain_message c =
      if length contact_id_hash == 0
      then (c, err contact_id_empty)
      else if length plain_message == 0
      then (c, err plain_message_empty)
      else elim (get_contact_by_id_hash c.contacts contact_id_hash) [
        | none ↦ (c, err contact_not_found)
        | some x ↦ send_in_memory x contact_id_hash plain_message c
      ]

  payload_not_empty : (m : Message) → 0 < length (Wire.payload m)
  unfolding Wire.payload
  payload_not_empty m =
      let index = int_to_bytes m.header.index in
      let tail = m.encrypted_message ++ hash_to_bytes m.hash in
      omega (
        arith,
        length-append m.header.public_key (index ++ tail),
        length-append index tail,
        length-int_to_bytes m.header.index,
      )

  send_in_memory-copies :
      (x : Contact) (h text : Bytes) (c : Client D W)
      → HasNoRoom memory h
      → send_in_memory x h text c ≡ send_to env x h text c
  unfolding send_in_memory send_to
  send_in_memory-copies x h text c no_room =
      let (w, draws) = draw env x.dh_ratchet.state c.world in
      let sealed =
        Cipher.encrypt env.crypto (new_plain_message c.id_hash x.id_hash text) x.dh_ratchet draws in
      let m = sealed.0 in
      let full : leb (length h + length (Wire.payload m)) (memory.capacity w h) ≡ false =
        ground (arith, no_room w, payload_not_empty m) in
      elim (Outcome-cases sealed.2) [
        | inl (u, e) ↦ ground (arith, e, full)
        | inr (inl (y, e)) ↦ ground (arith, e, full)
        | inr (inr e) ↦ ground (arith, e)
      ]

  -- Without room the `append` copies: `SendMessage` is then what it is without the memory.
  pub send_message_in_memory-copies :
      (h text : Bytes) (c : Client D W)
      → HasNoRoom memory h
      → send_message_in_memory h text c ≡ send_plain_message env h text c
  unfolding send_message_in_memory send_plain_message
  send_message_in_memory-copies h text c no_room =
      elim (Option-cases (get_contact_by_id_hash c.contacts h)) [
        | inl e ↦ ground (arith, e)
        | inr (x, e) ↦ ground (arith, e, send_in_memory-copies x h text c no_room)
      ]

  -- With room the contacts are what was written leaves of them, whatever the server answers, unless
  -- `Encrypt` panics.
  pub send_in_memory-in_place :
      (x : Contact) (h text : Bytes) (c : Client D W) {m : Message} {r : DhRatchet}
      {done : Outcome (Unit {0})}
      → Cipher.encrypt env.crypto
          (new_plain_message c.id_hash x.id_hash text)
          x.dh_ratchet
          (draw env x.dh_ratchet.state c.world).1
        ≡ (m, r, done)
      → done ≢ crash
      → leb
          (length h + length (Wire.payload m))
          (memory.capacity (draw env x.dh_ratchet.state c.world).0 h)
        ≡ true
      → (send_in_memory x h text c).0.contacts
        ≡ map
            (memory.overwritten (draw env x.dh_ratchet.state c.world).0 h (Wire.payload m))
            (put_ratchet c.contacts x.id_hash r)
  unfolding send_in_memory request
  send_in_memory-in_place x h text c {m} {r} {done} sealed on room =
      ground (arith, sealed, on, room)
