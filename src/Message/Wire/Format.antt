-- ===== src/Message/Wire/Format.antt =====
-- client/internal/contact/message/message.go: a message is read back as it was written, and what
-- happens to other bytes.
use secure_messager_erlang.Prelude.{
  ℕ, ◌+◌, ◌-◌, ◌≤◌, ◌<◌, ◌≡◌, refl, sym, ap, ◌∙◌, ◌⊎◌, inl, inr, ◌&&◌, [], ◌++◌, append_assoc,
  append-nil, arith, Bytes, length, length-append, length-take, length-drop, take, drop,
  take-append, drop-append, leb, Bool-cases, ℤ, ℤ_eq, ℕ_eq, Bytes_eq, pos,
}
use secure_messager_erlang.Outcome.{ok, crash}
use secure_messager_erlang.Utils.{int_to_bytes, bytes_to_int}
use secure_messager_erlang.Utils.RoundTrip.{length-int_to_bytes, bytes_to_int-int_to_bytes}
use secure_messager_erlang.Outcome.{slice}
use secure_messager_erlang.Prelude.{IsInt64}
use secure_messager_erlang.Message.{Message, bytes_to_hash, hash_to_bytes}
use secure_messager_erlang.Message.Wire.{payload, parse_message_data}

slice_middle :
    (w xs ys zs : Bytes) (lo hi : ℕ)
    → w ≡ xs ++ (ys ++ zs)
    → length xs ≡ lo
    → length ys + lo ≡ hi
    → slice w lo hi ≡ ok ys
unfolding slice
slice_middle w xs ys zs lo hi split hx hy = rw split (
    ground (
      arith,
      drop-append lo xs (ys ++ zs) hx,
      take-append (hi - lo) ys zs (omega arith),
      length-append xs (ys ++ zs),
      length-append ys zs,
    ))

-- The message that the five slices make.
abbrev from_slices : Bytes → Bytes → Bytes → Bytes → Bytes → Bytes → Message
from_slices receiver sender public_key index enc hash = record {
  header = record { public_key = public_key; index = bytes_to_int index; prev_count = pos 0 };
  encrypted_message = enc;
  plain_message = [];
  hash = hash;
  sender_id_hash = sender;
  receiver_id_hash = receiver;
}

parse_slices :
    (receiver w sender public_key index enc hash : Bytes)
    → slice w 0 16 ≡ ok sender
    → slice w 16 48 ≡ ok public_key
    → slice w 48 56 ≡ ok index
    → slice w 56 (length w - 32) ≡ ok enc
    → slice w (length w - 32) (length w) ≡ ok hash
    → length hash ≡ 32
    → parse_message_data receiver w ≡ ok (from_slices receiver sender public_key index enc hash)
unfolding parse_message_data bytes_to_hash
parse_slices receiver w sender public_key index enc hash s0 s1 s2 s3 s4 hh = ground arith

parse_fields :
    (receiver sender public_key index enc hash : Bytes)
    → length sender ≡ 16
    → length public_key ≡ 32
    → length index ≡ 8
    → length hash ≡ 32
    → parse_message_data receiver (sender ++ (public_key ++ (index ++ (enc ++ hash))))
      ≡ ok (from_slices receiver sender public_key index enc hash)
parse_fields receiver sender public_key index enc hash hs hp hi hh =
    let w = sender ++ (public_key ++ (index ++ (enc ++ hash))) in
    let front = (sender ++ public_key) ++ index in
    let split2 : w ≡ (sender ++ public_key) ++ (index ++ (enc ++ hash)) =
      sym (append_assoc sender public_key (index ++ (enc ++ hash))) in
    let split3 : w ≡ front ++ (enc ++ hash) =
      split2 ∙ sym (append_assoc (sender ++ public_key) index (enc ++ hash)) in
    let split4 : w ≡ (front ++ enc) ++ (hash ++ []) =
      split3
      ∙ sym (append_assoc front enc hash)
      ∙ ap (λ (t : Bytes). (front ++ enc) ++ t) (sym (append-nil hash)) in
    let len2 : length (sender ++ public_key) ≡ 48 =
      omega (arith, length-append sender public_key) in
    let len3 : length front ≡ 56 = omega (arith, length-append (sender ++ public_key) index) in
    let len4 : length (front ++ enc) ≡ 56 + length enc = omega (arith, length-append front enc) in
    let len : length w ≡ 88 + length enc =
      ap length split4
      ∙ omega (arith, length-append (front ++ enc) (hash ++ []), length-append hash []) in
    let len' : length w - 32 ≡ 56 + length enc = omega (arith, len) in
    parse_slices receiver w sender public_key index enc hash
      (slice_middle w [] sender (public_key ++ (index ++ (enc ++ hash))) 0 16 refl refl
        (omega arith))
      (slice_middle w sender public_key (index ++ (enc ++ hash)) 16 48 refl hs (omega arith))
      (slice_middle w (sender ++ public_key) index (enc ++ hash) 48 56 split2 len2 (omega arith))
      (slice_middle w front enc hash 56 (length w - 32) split3 len3 (omega arith))
      (slice_middle w (front ++ enc) hash [] (length w - 32) (length w) split4 (omega arith)
        (omega arith))
      hh

-- The fields that have a place on the wire fit it.
pub record HasWireSizes (m : Message) : Type 0 where
  pub public_key : length m.header.public_key ≡ 32
  pub index : IsInt64 m.header.index
  pub hash : length m.hash ≡ 32

-- What the receiver makes of a message that `sender` sent.
abbrev pub delivered : Bytes → Bytes → Message → Message
delivered receiver sender m = record {
  header = record { public_key = m.header.public_key; index = m.header.index; prev_count = pos 0 };
  encrypted_message = m.encrypted_message;
  plain_message = [];
  hash = m.hash;
  sender_id_hash = sender;
  receiver_id_hash = receiver;
}

-- `ParseMessageData` reads back what `Payload` wrote, behind 16 bytes of sender: with a public key and
-- a hash of 32 bytes and an index that fits int64, every field that has a place on the wire returns.
pub parse_message_data-payload :
    (receiver sender : Bytes) (m : Message)
    → length sender ≡ 16
    → HasWireSizes m
    → parse_message_data receiver (sender ++ payload m) ≡ ok (delivered receiver sender m)
unfolding payload hash_to_bytes
parse_message_data-payload receiver sender m hs h =
    parse_fields receiver sender m.header.public_key (int_to_bytes m.header.index)
      m.encrypted_message m.hash hs h.public_key (length-int_to_bytes m.header.index) h.hash
    ∙ ap
        (λ (i : ℤ). ok (record (delivered receiver sender m) {
          header = record { public_key = m.header.public_key; index = i; prev_count = pos 0 };
        }))
        (bytes_to_int-int_to_bytes m.header.index h.index)

slice_ok :
    (b : Bytes) (lo hi : ℕ)
    → lo ≤ hi
    → hi ≤ length b
    → slice b lo hi ≡ ok (take (hi - lo) (drop lo b))
unfolding slice
slice_ok b lo hi p q = ground arith

length_slice :
    (b : Bytes) (lo hi : ℕ)
    → lo ≤ hi
    → hi ≤ length b
    → length (take (hi - lo) (drop lo b)) ≡ hi - lo
length_slice b lo hi p q = omega (arith, length-take (hi - lo) (drop lo b), length-drop lo b)

slice_cases :
    (b : Bytes) (lo hi : ℕ) → ((x : Bytes) × (slice b lo hi ≡ ok x)) ⊎ (slice b lo hi ≡ crash)
unfolding slice
slice_cases b lo hi = elim (Bool-cases (leb lo hi && leb hi (length b))) [
  | inl e ↦ inl (take (hi - lo) (drop lo b), rw e refl)
  | inr e ↦ inr (rw e refl)
]

slice_out : (b : Bytes) (lo hi : ℕ) → hi < lo → slice b lo hi ≡ crash
unfolding slice
slice_out b lo hi h = ground arith

-- A message of fewer than 88 bytes ends the process: it is no error that the caller could handle.
pub parse_message_data-crash :
    (receiver bytes : Bytes) → length bytes < 88 → parse_message_data receiver bytes ≡ crash
unfolding parse_message_data
parse_message_data-crash receiver bytes h = ground (
  arith,
  slice_cases bytes 0 16,
  slice_cases bytes 16 48,
  slice_cases bytes 48 56,
  slice_out bytes 56 (length bytes - 32) (omega arith),
)

-- With 88 bytes or more every input is a message, whose text is what is not head or hash.
pub parse_message_data-ok :
    (receiver bytes : Bytes)
    → 88 ≤ length bytes
    → (m : Message) × (parse_message_data receiver bytes ≡ ok m)
      × (length m.encrypted_message + 88 ≡ length bytes)
parse_message_data-ok receiver bytes h =
    let at = λ (lo hi : ℕ). take (hi - lo) (drop lo bytes) in
    let len = length bytes in
    (
      from_slices receiver (at 0 16) (at 16 48) (at 48 56) (at 56 (len - 32)) (at (len - 32) len),
      parse_slices receiver bytes (at 0 16) (at 16 48) (at 48 56) (at 56 (len - 32))
          (at (len - 32) len) (slice_ok bytes 0 16 (omega arith) (omega arith))
          (slice_ok bytes 16 48 (omega arith) (omega arith))
          (slice_ok bytes 48 56 (omega arith) (omega arith))
          (slice_ok bytes 56 (len - 32) (omega arith) (omega arith))
          (slice_ok bytes (len - 32) len (omega arith) (omega arith))
          (length_slice bytes (len - 32) len (omega arith) (omega arith) ∙ omega arith),
      omega (arith, length_slice bytes 56 (len - 32) (omega arith) (omega arith)),
    )
