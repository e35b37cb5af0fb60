-- ===== src/Comm.antt =====
-- comm/function.go: numbers from bytes, and IPv4 addresses as numbers and as text. Text is the list
-- of its bytes, and `strconv.Itoa`, `strconv.Atoi` and `strings.Split` are written out as far as the
-- file uses them.
pub mod Address
pub mod Bytes
use route_server.Prelude.{
  ℕ, zero, suc, ◌+◌, ◌-◌, ◌*◌, ◌/◌, ◌%◌, ◌^◌, ℤ, pos, negsuc, int64_of, word_of, Bool, true, false,
  ◌&&◌, Option, none, some, List, [], ◌∷◌, ◌++◌, map, ◌==◌, leb, ltb, if◌then◌else◌,
}
use Prim.Native.Nat.{bit_or}

-- `pro = (pro<<8) | int(s[i])` from the last byte down, on 64 bits. The low byte of `pro << 8` is
-- zero, so `|` with a byte is a sum.
unfoldable pub bytes_word : List ℕ → ℕ
bytes_word [] = 0
bytes_word (b ∷ s) = (bytes_word s * 256 + b) % 2 ^ 64

unfoldable pub byte_to_int : List ℕ → ℤ
unfolding bytes_word int64_of
byte_to_int s = int64_of (bytes_word s)

-- `strconv.Itoa` of a byte
unfoldable pub itoa : ℕ → List ℕ
itoa n =
    if ltb n 10
    then (48 + n) ∷ []
    else if ltb n 100
    then (48 + n / 10) ∷ (48 + n % 10) ∷ []
    else (48 + n / 100) ∷ (48 + n / 10 % 10) ∷ (48 + n % 10) ∷ []

-- `strconv.ParseUint` of digits: `none` for a byte that is no digit, and `2 ^ 64` as soon as the number
-- does not fit 64 bits, whatever follows.
unfoldable pub digits_value : ℕ → List ℕ → Option ℕ
digits_value acc [] = some acc
digits_value acc (c ∷ cs) =
    let next : ℕ = acc * 10 + (c - 48) in
    let rest : Option ℕ = digits_value next cs in
    if leb 48 c && leb c 57 then (if ltb next (2 ^ 64) then rest else some (2 ^ 64)) else none

abbrev number_of : List ℕ → Option ℕ
number_of [] = none
number_of (c ∷ cs) = digits_value 0 (c ∷ cs)

abbrev negated : ℕ → ℤ
negated zero = pos 0
negated (suc n) = negsuc n

-- The value with the sign, and whether there is no error. A number out of range is the nearest `int64`,
-- with an error.
abbrev signed : Bool → Option ℕ → ℤ × Bool
signed neg none = (pos 0, false)
signed false (some n) = if ltb n (2 ^ 63) then (pos n, true) else (pos (2 ^ 63 - 1), false)
signed true (some n) = if leb n (2 ^ 63) then (negated n, true) else (negsuc (2 ^ 63 - 1), false)

-- `strconv.Atoi`: the value, and whether there is no error.
unfoldable pub atoi : List ℕ → ℤ × Bool
unfolding digits_value
atoi [] = (pos 0, false)
atoi (c ∷ cs) =
    if c == b'-'
    then signed true (number_of cs)
    else if c == b'+'
    then signed false (number_of cs)
    else signed false (number_of (c ∷ cs))

-- `strings.Split(s, ".")`, with the segment that is being read.
unfoldable pub split_dots : List ℕ → List ℕ → List (List ℕ)
split_dots seg [] = seg ∷ []
split_dots seg (c ∷ cs) =
    let rest : List (List ℕ) = split_dots [] cs in
    let more : List (List ℕ) = split_dots (seg ++ c ∷ []) cs in
    if c == b'.' then seg ∷ rest else more

-- The four segments of lines 13 to 17, the highest byte first.
unfoldable pub segments : ℕ → List ℕ
segments ip = ip / 2 ^ 24 % 256 ∷ ip / 2 ^ 16 % 256 ∷ ip / 2 ^ 8 % 256 ∷ ip % 256 ∷ []

unfoldable pub join_dots : List (List ℕ) → List ℕ
join_dots [] = []
join_dots (s ∷ []) = s
join_dots (s ∷ t ∷ rest) = s ++ b'.' ∷ join_dots (t ∷ rest)

unfoldable pub ip_int_to_string : ℕ → List ℕ
unfolding segments join_dots itoa
ip_int_to_string ip = join_dots (map itoa (segments ip))

-- The error of `Atoi` is dropped and its value kept. `tempInt << pos`, `ipInt | tempInt` and
-- `pos -= 8` on unsigned 64-bit words: `pos` wraps behind
-- 0, and a shift by 64 or more gives 0.
abbrev pub shift : ℕ → ℕ → ℕ
shift n p = if ltb p 64 then n * 2 ^ p % 2 ^ 64 else 0

unfoldable pub or_segments : ℕ → ℕ → List (List ℕ) → ℕ
unfolding atoi
or_segments acc p [] = acc
or_segments acc p (s ∷ ss) =
    or_segments (bit_or acc (shift (word_of (atoi s).0) p)) ((p + 2 ^ 64 - 8) % 2 ^ 64) ss

unfoldable pub string_ip_to_int : List ℕ → ℕ
unfolding split_dots or_segments atoi
string_ip_to_int s = or_segments 0 24 (split_dots [] s)
