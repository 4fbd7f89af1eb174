-- ===== src/Utils.antt =====
-- client/internal/utils/utils.go: integers as eight bytes, the most significant first.
pub mod RoundTrip
use secure_messager_erlang.Prelude.{
  ℕ, zero, suc, ◌+◌, ◌*◌, ◌/◌, ◌%◌, ◌^◌, [], ◌∷◌, Bytes, ℤ, bits64, signed64,
}

abbrev pub packet_length_nr_bytes : ℕ
packet_length_nr_bytes = 8

-- The loop of `IntToBytes`, `k` bytes before its end: byte(i >> (8 * (k - 1))) comes next.
int_to_bytes_loop : ℕ → ℕ → Bytes
int_to_bytes_loop zero w = []
int_to_bytes_loop (suc k) w = (w / 2 ^ (8 * k) % 256) ∷ int_to_bytes_loop k w

-- `bits64 i` holds the 64 bits of the int64. An arithmetic shift by less than 64 agrees with `/` on
-- the byte that is kept.
unfoldable pub int_to_bytes : ℤ → Bytes
unfolding int_to_bytes_loop
int_to_bytes i = int_to_bytes_loop packet_length_nr_bytes (bits64 i)

-- i = (i << 8) | int(b[j]) on 64 bits: the low byte of i << 8 is zero, so `|` is `+`.
bytes_to_int_loop : ℕ → Bytes → ℕ
bytes_to_int_loop acc [] = acc
bytes_to_int_loop acc (b ∷ bs) = bytes_to_int_loop ((acc * 256 + b) % 2 ^ 64) bs

unfoldable pub bytes_to_int : Bytes → ℤ
unfolding bytes_to_int_loop
bytes_to_int b = signed64 (bytes_to_int_loop 0 b)
