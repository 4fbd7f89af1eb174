-- ===== src/Message/Wire/Frames.antt =====
-- client/internal/contact/message/message.go: `ParseMessagesData` on any bytes, and on what the
-- server sends for a list of messages.
use secure_messager_erlang.Prelude.{
  ℕ, zero, suc, ◌+◌, ◌^◌, ◌≤◌, ◌<◌, ◌≡◌, ◌≢◌, refl, ap, ◌∙◌, inl, inr, List, [], ◌∷◌, ◌++◌,
  append_assoc, append-nil, arith, none, some, Bytes, length, length-append, length-drop, take,
  drop, take-append, drop-append, Option-cases, ℤ, ℤ_eq, ℕ_eq, Bytes_eq, pos, negsuc,
}
use secure_messager_erlang.Outcome.{ok}
use secure_messager_erlang.Utils.{int_to_bytes, bytes_to_int}
use secure_messager_erlang.Utils.RoundTrip.{length-int_to_bytes, bytes_to_int-int_to_bytes}
use secure_messager_erlang.Prelude.{All, map}
use secure_messager_erlang.Message.{Message}
use secure_messager_erlang.Message.Wire.{
  payload, Parsed, parse_one, parse_messages_loop, parse_messages_data, or_crash,
}
use secure_messager_erlang.Outcome.{Outcome-cases}
use secure_messager_erlang.Message.Wire.Format.{HasWireSizes, delivered, parse_message_data-payload}

module _ (receiver : Bytes) where
  -- A round leaves no more than it was given.
  parse_one-shorter :
      (rest : Bytes) (l : ℤ) (i : ℕ) (messages : List Message) (failed : List ℕ) {rest' : Bytes}
      {messages' : List Message} {failed' : List ℕ}
      → parse_one receiver rest l i messages failed ≡ ok (rest', messages', failed')
      → length rest' ≤ length rest
  unfolding parse_one
  parse_one-shorter rest (pos n) i messages failed e = ground (arith, length-drop n rest)
  parse_one-shorter rest (negsuc n) i messages failed e = cc

  -- With as much fuel as there are bytes the loop ends.
  parse_messages_loop-ne-none :
      (fuel : ℕ) (bytes : Bytes) (i : ℕ) (messages : List Message) (failed : List ℕ)
      → length bytes ≤ fuel
      → parse_messages_loop receiver fuel bytes i messages failed ≢ none
  unfolding parse_messages_loop
  parse_messages_loop-ne-none fuel [] i messages failed h = λ e. cc
  parse_messages_loop-ne-none zero (b ∷ bs) i messages failed h = absurd (omega arith)
  parse_messages_loop-ne-none (suc fuel) (b ∷ bs) i messages failed h =
      let l = bytes_to_int (take 8 (b ∷ bs)) in
      elim (Outcome-cases (parse_one receiver (drop 7 bs) l i messages failed)) [
        | inl ((rest', messages', failed'), e) ↦ ground (
          arith,
          e,
          parse_messages_loop-ne-none fuel rest' (i + 1) messages' failed' (
              omega (arith, parse_one-shorter (drop 7 bs) l i messages failed e, length-drop 7 bs)),
        )
        | inr (inl (x, e)) ↦ ground (arith, e)
        | inr (inr e) ↦ ground (arith, e)
      ]

  -- `ParseMessagesData` ends on all bytes: its result is that of the loop, run to its end.
  pub parse_messages_data-ends :
      (bytes : Bytes)
      → (p : Parsed) × (parse_messages_loop receiver (length bytes) bytes 0 [] [] ≡ some p)
        × (parse_messages_data receiver bytes ≡ p)
  unfolding parse_messages_data
  parse_messages_data-ends bytes =
      elim (Option-cases (parse_messages_loop receiver (length bytes) bytes 0 [] [])) [
        | inl e ↦ absurd (parse_messages_loop-ne-none (length bytes) bytes 0 [] [] (omega arith) e)
        | inr (p, e) ↦ (p, e, rw e refl)
      ]

-- What the server writes for one message: the length, the sender, the message (the sender's
-- `Payload`), as in server/lib/tcp_server/data_handler.ex.
unfoldable pub frame : Bytes × Message → Bytes
frame (sender, m) = int_to_bytes (pos (length (sender ++ payload m))) ++ (sender ++ payload m)

unfoldable pub frames : List (Bytes × Message) → Bytes
unfolding frame
frames [] = []
frames (f ∷ fs) = frame f ++ frames fs

frames_cons :
    (sender : Bytes) (m : Message) (fs : List (Bytes × Message))
    → frames ((sender, m) ∷ fs)
      ≡ int_to_bytes (pos (length (sender ++ payload m))) ++ ((sender ++ payload m) ++ frames fs)
unfolding frames
frames_cons sender m fs =
    append_assoc (int_to_bytes (pos (length (sender ++ payload m)))) (sender ++ payload m)
      (frames fs)

length-frames :
    (sender : Bytes) (m : Message) (fs : List (Bytes × Message))
    → length (frames fs) + 8 ≤ length (frames ((sender, m) ∷ fs))
length-frames sender m fs =
    let body = sender ++ payload m in
    let prefix = int_to_bytes (pos (length body)) in
    rw (frames_cons sender m fs) (
      omega (
        arith,
        length-append prefix (body ++ frames fs),
        length-append body (frames fs),
        length-int_to_bytes (pos (length body)),
      ))

-- A sender has 16 bytes, the message fits its places, and its length fits an int64.
abbrev pub IsSendable : Bytes × Message → Type 0
IsSendable (sender, m) =
    (length sender ≡ 16) × HasWireSizes m × (length (sender ++ payload m) < 2 ^ 63)

module _ (receiver : Bytes) where
  parse_one_frame :
      (sender : Bytes) (m : Message) (more : Bytes) (i : ℕ) (messages : List Message)
      → IsSendable (sender, m)
      → parse_one receiver
          ((sender ++ payload m) ++ more)
          (pos (length (sender ++ payload m)))
          i
          messages
          []
        ≡ ok (more, messages ++ (delivered receiver sender m ∷ []), [])
  unfolding parse_one
  parse_one_frame sender m more i messages (hs, hm, _) = ground (
    arith,
    take-append (length (sender ++ payload m)) (sender ++ payload m) more refl,
    drop-append (length (sender ++ payload m)) (sender ++ payload m) more refl,
    parse_message_data-payload receiver sender m hs hm,
  )

  parse_messages_loop-cons :
      (fuel : ℕ) (bytes : Bytes) (i : ℕ) (messages : List Message) (l : ℕ) {rest' : Bytes}
      {messages' : List Message}
      → 8 ≤ length bytes
      → bytes_to_int (take 8 bytes) ≡ pos l
      → l ≤ length (drop 8 bytes)
      → parse_one receiver (drop 8 bytes) (pos l) i messages [] ≡ ok (rest', messages', [])
      → parse_messages_loop receiver (suc fuel) bytes i messages []
        ≡ parse_messages_loop receiver fuel rest' (i + 1) messages' []
  unfolding parse_messages_loop
  parse_messages_loop-cons fuel [] i messages l h e lo p = absurd (omega arith)
  parse_messages_loop-cons fuel (b ∷ bs) i messages l h e lo p = ground arith

  nil_loop :
      (fuel i : ℕ) (messages : List Message)
      → parse_messages_loop receiver fuel [] i messages [] ≡ some (ok (messages, none))
  unfolding parse_messages_loop
  nil_loop zero i messages = refl
  nil_loop (suc fuel) i messages = refl

  parse_messages_loop-frames :
      (fs : List (Bytes × Message)) (fuel i : ℕ) (messages : List Message)
      → All IsSendable fs
      → length (frames fs) ≤ fuel
      → parse_messages_loop receiver fuel (frames fs) i messages []
        ≡ some (ok (messages ++ map (λ (f : Bytes × Message). delivered receiver f.0 f.1) fs, none))
  parse_messages_loop-frames [] fuel i messages h hf =
      unfold frames parse_messages_loop in rw (append-nil messages) (nil_loop fuel i messages)
  parse_messages_loop-frames ((sender, m) ∷ fs) zero i messages h hf =
      absurd (omega (arith, length-frames sender m fs))
  parse_messages_loop-frames ((sender, m) ∷ fs) (suc fuel) i messages (hm, hfs) hf =
      let body = sender ++ payload m in
      let prefix = int_to_bytes (pos (length body)) in
      let more = body ++ frames fs in
      let len8 = length-int_to_bytes (pos (length body)) in
      let bound : length (frames fs) ≤ fuel = omega (arith, length-frames sender m fs) in
      rw (frames_cons sender m fs) (
        parse_messages_loop-cons fuel (prefix ++ more) i messages (length body)
          (omega (arith, length-append prefix more))
          (ap bytes_to_int (take-append 8 prefix more len8)
            ∙ bytes_to_int-int_to_bytes (pos (length body)) (hm.2, omega arith))
          (rw (drop-append 8 prefix more len8) (omega (arith, length-append body (frames fs))))
          (rw (drop-append 8 prefix more len8) (parse_one_frame sender m (frames fs) i messages hm))
        ∙ parse_messages_loop-frames fs fuel (i + 1)
            (messages ++ (delivered receiver sender m ∷ [])) hfs bound
        ∙ ap (λ (ms : List Message). some (ok (ms, none)))
            (append_assoc messages (delivered receiver sender m ∷ [])
              (map (λ (f : Bytes × Message). delivered receiver f.0 f.1) fs)))

  -- If the server frames messages with senders of 16 bytes, public keys and hashes of 32, and indices
  -- and lengths that fit int64, then every message is read, in order, with no error.
  pub parse_messages_data-frames :
      (fs : List (Bytes × Message))
      → All IsSendable fs
      → parse_messages_data receiver (frames fs)
        ≡ ok (map (λ (f : Bytes × Message). delivered receiver f.0 f.1) fs, none)
  unfolding parse_messages_data
  parse_messages_data-frames fs h =
      ap or_crash (parse_messages_loop-frames fs (length (frames fs)) 0 [] h (omega arith))
