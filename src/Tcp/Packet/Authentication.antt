-- ===== src/Tcp/Packet/Authentication.antt =====
-- client/internal/tcpclient/packet.go: which packets are sent without credentials, and when a packet
-- is refused.
use native.Mathlib.Decide.{dec_lt}
use secure_messager_erlang.Prelude.{
  ◌%◌, ◌≤◌, ◌<◌, ◌≡◌, ◌≢◌, sym, ap, ◌∙◌, ◌⊎◌, inl, inr, true, false, [], ◌∷◌, ◌++◌, arith, Bytes,
  length, Bool-cases, bytes_equal_iff, ℤ_eq, ℕ_eq, Bytes_eq,
}
use secure_messager_erlang.Outcome.{
  Error, ok, err, ◌>>=◌, >>=-eq-ok, >>=-eq-err, packet_too_long, auth_not_set,
}
use secure_messager_erlang.Tcp.Packet.{
  Packet, MessageType, max_message_size, zero_auth_id, zero_auth_token, is_open, authentication,
  with_length, payload,
}

-- The credentials of the connection are set.
abbrev pub HasAuth : Bytes → Bytes → Type 0
HasAuth auth_id auth_token = (auth_id ≢ zero_auth_id) × (auth_token ≢ zero_auth_token)

-- The bytes behind the length: the head, the authentication, the data.
abbrev pub body : Packet → Bytes → Bytes
body p authenticated =
    (p.version % 256) ∷ (p.message_type % 256) ∷ (p.message_id ++ (authenticated ++ p.bytes))

-- What `authentication` adds.
authentication_ok :
    (t : MessageType) (auth_id auth_token : Bytes) {a : Bytes}
    → authentication t auth_id auth_token ≡ ok a
    → ((is_open t ≡ true) × (a ≡ [])) ⊎ (HasAuth auth_id auth_token × (a ≡ auth_id ++ auth_token))
unfolding authentication
authentication_ok t auth_id auth_token h = elim (Bool-cases (is_open t)) [
  | inl o ↦ inl (o, ground arith)
  | inr o ↦ inr (
    (
      λ e. ground (arith, (bytes_equal_iff auth_id zero_auth_id).1 e),
      λ e. ground (arith, (bytes_equal_iff auth_token zero_auth_token).1 e),
    ),
    ground arith,
  )
]

-- The authentication comes before the frame, and decides with the length whether there is one.
payload_step :
    (p : Packet) (auth_id auth_token : Bytes)
    → length p.bytes ≤ max_message_size
    → payload p auth_id auth_token
      ≡ (authentication p.message_type auth_id auth_token >>= λ a. ok (with_length (body p a)))
unfolding payload
payload_step p auth_id auth_token h = ground arith

payload_long :
    (p : Packet) (auth_id auth_token : Bytes)
    → max_message_size < length p.bytes
    → payload p auth_id auth_token ≡ err (packet_too_long (length p.bytes))
unfolding payload
payload_long p auth_id auth_token h = ground arith

authentication_err :
    (t : MessageType) (auth_id auth_token : Bytes) {e : Error}
    → authentication t auth_id auth_token ≡ err e
    → (is_open t ≡ false)
      × ((auth_id ≡ zero_auth_id) ⊎ (auth_token ≡ zero_auth_token))
      × (e ≡ auth_not_set)
unfolding authentication
authentication_err t auth_id auth_token h =
    ground (arith, bytes_equal_iff auth_id zero_auth_id, bytes_equal_iff auth_token zero_auth_token)

-- A packet that is written has at most 1 MB of data; what is written stands behind its length and has
-- the head and the data. It carries the credentials, which are set, unless its type is one of the three
-- that need none. The bound is one of the data: with the rest the frame can be longer than 1 MB.
pub payload-ok :
    (p : Packet) (auth_id auth_token : Bytes) {w : Bytes}
    → payload p auth_id auth_token ≡ ok w
    → (length p.bytes ≤ max_message_size)
      × (((is_open p.message_type ≡ true) × (w ≡ with_length (body p [])))
          ⊎ (HasAuth auth_id auth_token × (w ≡ with_length (body p (auth_id ++ auth_token)))))
payload-ok p auth_id auth_token {w} h = elim (dec_lt max_message_size (length p.bytes)) [
  | yes long ↦ cc (payload_long p auth_id auth_token long)
  | no fits ↦
      (let step = sym (payload_step p auth_id auth_token (omega arith)) ∙ h in
        let (a, authenticated, written) = >>=-eq-ok _ _ step in
        (
          omega arith,
          written_by a (authentication_ok p.message_type auth_id auth_token authenticated)
              (cc written),
        ))
]
  where
    written_by :
        (a : Bytes)
        → ((is_open p.message_type ≡ true) × (a ≡ []))
          ⊎ (HasAuth auth_id auth_token × (a ≡ auth_id ++ auth_token))
        → w ≡ with_length (body p a)
        → ((is_open p.message_type ≡ true) × (w ≡ with_length (body p [])))
          ⊎ (HasAuth auth_id auth_token × (w ≡ with_length (body p (auth_id ++ auth_token))))
    written_by a (inl (o, e)) f = inl (o, f ∙ ap (λ (x : Bytes). with_length (body p x)) e)
    written_by a (inr (o, e)) f = inr (o, f ∙ ap (λ (x : Bytes). with_length (body p x)) e)

-- A packet is refused for two reasons only.
pub payload-err :
    (p : Packet) (auth_id auth_token : Bytes) {e : Error}
    → payload p auth_id auth_token ≡ err e
    → ((max_message_size < length p.bytes) × (e ≡ packet_too_long (length p.bytes)))
      ⊎ ((is_open p.message_type ≡ false)
          × ((auth_id ≡ zero_auth_id) ⊎ (auth_token ≡ zero_auth_token))
          × (e ≡ auth_not_set))
payload-err p auth_id auth_token {e} h = elim (dec_lt max_message_size (length p.bytes)) [
  | yes long ↦ inl (long, cc (payload_long p auth_id auth_token long))
  | no fits ↦ inr (
      authentication_err p.message_type auth_id auth_token
        (>>=-eq-err _ _ (sym (payload_step p auth_id auth_token (omega arith)) ∙ h) (λ a. λ x. cc)))
]
