-- ===== src/Comm/Bytes.antt =====
-- `ByteToInt` of comm/function.go as the inverse of an encoding, the lowest byte first.
use native.Mathlib.Nat.{pow-suc}
use route_server.Prelude.{
  ℕ, zero, suc, ◌/◌, ◌%◌, ◌^◌, ◌<◌, pos, int64_of, List, [], ◌∷◌, ◌≡◌, ap, ◌∙◌, arith,
}
use route_server.Comm.{bytes_word, byte_to_int}

-- The `k` lowest bytes of a number.
abbrev pub little_endian : ℕ → ℕ → List ℕ
little_endian zero n = []
little_endian (suc k) n = n % 256 ∷ little_endian k (n / 256)

bytes_word-little_endian : (k n : ℕ) → n < 256 ^ k → n < 2 ^ 64 → bytes_word (little_endian k n) ≡ n
unfolding bytes_word
bytes_word-little_endian zero n l w = omega arith
bytes_word-little_endian (suc k) n l w =
    let power = pow-suc 256 k in
    let rest = bytes_word-little_endian k (n / 256) (omega (arith, power)) (omega arith) in
    omega (arith, rest)

-- `ByteToInt` of the `k` lowest bytes of a number below 2 ^ 63 that fits them is the number.
pub byte_to_int-little_endian :
    (k n : ℕ) → n < 256 ^ k → n < 2 ^ 63 → byte_to_int (little_endian k n) ≡ pos n
unfolding byte_to_int int64_of
byte_to_int-little_endian k n l w =
    ap int64_of (bytes_word-little_endian k n l (omega arith)) ∙ ground arith
