-- ===== src/Tcp/Packet/Framing.antt =====
-- client/internal/tcpclient/packet.go: the frame of a packet that is sent, and packets that are read.
use secure_messager_erlang.Prelude.{
  ℕ, zero, suc, ◌≡◌, [], ◌∷◌, ◌++◌, arith, Bytes, length, length-append, drop, take-append,
  drop-append, take_all, ℤ_eq, ℕ_eq, Bytes_eq,
}
use secure_messager_erlang.Outcome.{slice, ok}
use secure_messager_erlang.Tcp.Packet.{byte_at, parse_packet}

byte_at-drop : (b : Bytes) (i : ℕ) {x : ℕ} {rest : Bytes} → drop i b ≡ x ∷ rest → byte_at b i ≡ ok x
byte_at-drop [] zero h = cc
byte_at-drop [] (suc i) h = cc
byte_at-drop (b ∷ bs) zero h = cc
byte_at-drop (b ∷ bs) (suc i) h = byte_at-drop bs i h

-- A frame as the server writes it (four bytes of length, then version, type, id and data) is read
-- with all its parts.
pub parse_packet-frame :
    (prefix id bytes : Bytes) (version message_type : ℕ)
    → length prefix ≡ 4
    → length id ≡ 16
    → parse_packet (prefix ++ (version ∷ message_type ∷ (id ++ bytes)))
      ≡ ok (record {
        version = version;
        message_type = message_type;
        message_id = id;
        bytes = bytes;
      })
unfolding parse_packet slice
parse_packet-frame (a ∷ b ∷ c ∷ d ∷ []) id bytes version message_type hp hi = ground (
  arith,
  hi,
  drop-append 16 id bytes hi,
  take-append 16 id bytes hi,
  length-append id bytes,
  take_all (length bytes) bytes (omega arith),
)
parse_packet-frame _ id bytes version message_type hp hi = absurd (omega arith)
