-- ===== src/Utils/RoundTrip.antt =====
-- client/internal/utils/utils.go: what `IntToBytes` writes, and that `BytesToInt` reads it back.
use secure_messager_erlang.Prelude.{
  ℕ, zero, suc, ◌+◌, ◌*◌, ◌%◌, ◌^◌, ◌<◌, ◌≡◌, refl, ap, ◌∙◌, [], ◌∷◌, arith, Bytes, length, All,
  IsByte, ℤ, IsInt64, bits64, signed64, signed64-bits64, bits64-lt, signed64-IsInt64,
}
use secure_messager_erlang.Utils.{int_to_bytes_loop, int_to_bytes, bytes_to_int_loop, bytes_to_int}

length-int_to_bytes_loop : (k w : ℕ) → length (int_to_bytes_loop k w) ≡ k
unfolding int_to_bytes_loop
length-int_to_bytes_loop zero w = refl
length-int_to_bytes_loop (suc k) w = ap suc (length-int_to_bytes_loop k w)

pub length-int_to_bytes : (i : ℤ) → length (int_to_bytes i) ≡ 8
unfolding int_to_bytes
length-int_to_bytes i = length-int_to_bytes_loop 8 (bits64 i)

int_to_bytes_loop-IsByte : (k w : ℕ) → All IsByte (int_to_bytes_loop k w)
unfolding int_to_bytes_loop
int_to_bytes_loop-IsByte zero w = tt
int_to_bytes_loop-IsByte (suc k) w = (omega arith, int_to_bytes_loop-IsByte k w)

pub int_to_bytes-IsByte : (i : ℤ) → All IsByte (int_to_bytes i)
unfolding int_to_bytes
int_to_bytes-IsByte i = int_to_bytes_loop-IsByte 8 (bits64 i)

bytes_to_int_loop-int_to_bytes :
    (w : ℕ) → w < 2 ^ 64 → bytes_to_int_loop 0 (int_to_bytes_loop 8 w) ≡ w
unfolding int_to_bytes_loop bytes_to_int_loop
bytes_to_int_loop-int_to_bytes w h = omega arith

-- Every int64 survives being written and read, the negative ones too.
pub bytes_to_int-int_to_bytes : (i : ℤ) → IsInt64 i → bytes_to_int (int_to_bytes i) ≡ i
unfolding int_to_bytes bytes_to_int
bytes_to_int-int_to_bytes i h =
    ap signed64 (bytes_to_int_loop-int_to_bytes (bits64 i) (bits64-lt i h)) ∙ signed64-bits64 i h

bytes_to_int_loop-lt : (acc : ℕ) (bs : Bytes) → acc < 2 ^ 64 → bytes_to_int_loop acc bs < 2 ^ 64
unfolding bytes_to_int_loop
bytes_to_int_loop-lt acc [] h = h
bytes_to_int_loop-lt acc (b ∷ bs) h =
    bytes_to_int_loop-lt ((acc * 256 + b) % 2 ^ 64) bs (omega arith)

-- Whatever is read is an int64.
pub bytes_to_int-IsInt64 : (bs : Bytes) → IsInt64 (bytes_to_int bs)
unfolding bytes_to_int
bytes_to_int-IsInt64 bs = signed64-IsInt64 _ (bytes_to_int_loop-lt 0 bs (omega arith))
