-- ===== src/Comm/Address.antt =====
-- IPv4 addresses as numbers and as text: the two conversions of comm/function.go together.
use Prim.Native.Nat.{max, digits, bit_or, bit_or-bitwise}
use mathlib.Core.List.{append-nil, append_assoc}
use native.Mathlib.Nat.{pow-suc, le_refl}
use route_server.Prelude.{
  ℕ, zero, suc, pos, ◌+◌, ◌-◌, ◌*◌, ◌/◌, ◌%◌, ◌^◌, ◌≤◌, ◌<◌, false, List, [], ◌∷◌, ◌++◌, ◌==◌, ◌≡◌,
  refl, sym, ap, ◌∙◌, arith, All,
}
use route_server.Comm.{
  itoa, digits_value, atoi, split_dots, segments, join_dots, ip_int_to_string, or_segments,
  string_ip_to_int,
}

double_pow : (q k : ℕ) → q * 2 ^ suc k ≡ 2 * (q * 2 ^ k)
double_pow q k = omega (arith, ap (λ (t : ℕ). q * t) (pow-suc 2 k))

-- `|` of a multiple of `2 ^ k` and a number below it, digit by digit.
digits-disjoint :
    (n k q a b : ℕ) → a ≤ n → a ≡ q * 2 ^ k → b < 2 ^ k → digits (λ b. b) max n a b ≡ a + b
digits-disjoint zero k q zero b l e s = omega arith
digits-disjoint zero k q (suc a) b l e s = absurd (omega arith)
digits-disjoint (suc n) k q zero b l e s = omega arith
digits-disjoint (suc n) zero q (suc a) b l e s =
    let rest =
      digits-disjoint n 0 (suc a / 2) (suc a / 2) (b / 2) (omega arith) (omega arith)
        (omega arith) in
    omega (arith, rest)
digits-disjoint (suc n) (suc k) q (suc a) b l e s =
    let twice = double_pow q k in
    let two = pow-suc 2 k in
    let rest =
      digits-disjoint n k q (suc a / 2) (b / 2) (omega arith) (omega (arith, twice))
        (omega (arith, two)) in
    omega (arith, rest, twice)

pub bit_or-disjoint : (k q b : ℕ) → b < 2 ^ k → bit_or (q * 2 ^ k) b ≡ q * 2 ^ k + b
bit_or-disjoint k q b s =
    simp bit_or-bitwise (digits-disjoint (q * 2 ^ k) k q (q * 2 ^ k) b (le_refl _) refl s)

-- The digits of a byte: no dot among them, and they name the byte.
abbrev NoDot : ℕ → Type 0
NoDot c = (c == b'.') ≡ false

itoa-NoDot : (n : ℕ) → n < 256 → All NoDot (itoa n)
unfolding itoa
itoa-NoDot n l = ground arith

atoi-itoa : (n : ℕ) → n < 256 → (atoi (itoa n)).0 ≡ pos n
unfolding atoi itoa digits_value
atoi-itoa n l = ground arith

split_dots-segment :
    (seg s rest : List ℕ)
    → All NoDot s
    → split_dots seg (s ++ b'.' ∷ rest) ≡ (seg ++ s) ∷ split_dots [] rest
unfolding split_dots
split_dots-segment seg [] rest h = rw (append-nil seg)
split_dots-segment seg (c ∷ s) rest (other, h) =
    rw (other, sym (append_assoc seg (c ∷ []) s)) (split_dots-segment (seg ++ c ∷ []) s rest h)

split_dots-last : (seg s : List ℕ) → All NoDot s → split_dots seg s ≡ (seg ++ s) ∷ []
unfolding split_dots
split_dots-last seg [] h = rw (append-nil seg)
split_dots-last seg (c ∷ s) (other, h) =
    rw (other, sym (append_assoc seg (c ∷ []) s)) (split_dots-last (seg ++ c ∷ []) s h)

-- The text of four bytes splits into the texts of the bytes.
split_dots-join_dots :
    (a b c d : ℕ)
    → a < 256
    → b < 256
    → c < 256
    → d < 256
    → split_dots [] (join_dots (itoa a ∷ itoa b ∷ itoa c ∷ itoa d ∷ []))
      ≡ itoa a ∷ itoa b ∷ itoa c ∷ itoa d ∷ []
unfolding join_dots
split_dots-join_dots a b c d la lb lc ld = rw (
  split_dots-segment [] (itoa a) _ (itoa-NoDot a la),
  split_dots-segment [] (itoa b) _ (itoa-NoDot b lb),
  split_dots-segment [] (itoa c) _ (itoa-NoDot c lc),
  split_dots-last [] (itoa d) (itoa-NoDot d ld),
)

word_of-byte : (n : ℕ) → n < 256 → (n + 2 ^ 64 - 0) % 2 ^ 64 ≡ n
word_of-byte n l = omega arith

-- Four bytes, or-ed at their places.
or_segments-bytes :
    (a b c d : ℕ)
    → a < 256
    → b < 256
    → c < 256
    → d < 256
    → or_segments 0 24 (itoa a ∷ itoa b ∷ itoa c ∷ itoa d ∷ [])
      ≡ ((a * 2 ^ 8 + b) * 2 ^ 8 + c) * 2 ^ 8 + d
unfolding or_segments
or_segments-bytes a b c d la lb lc ld =
    let x2 : ℕ = b * 2 ^ 16 % 2 ^ 64 in
    let x3 : ℕ = c * 2 ^ 8 % 2 ^ 64 in
    let x4 : ℕ = d * 1 % 2 ^ 64 in
    let or1 : bit_or 0 (a * 2 ^ 24 % 2 ^ 64) ≡ a * 2 ^ 24 =
      omega (arith, bit_or-disjoint 32 0 (a * 2 ^ 24 % 2 ^ 64) (omega arith)) in
    let or2 : bit_or (a * 2 ^ 24) (b * 2 ^ 16 % 2 ^ 64) ≡ (a * 2 ^ 8 + b) * 2 ^ 16 =
      omega (arith, bit_or-disjoint 24 a (b * 2 ^ 16 % 2 ^ 64) (omega arith)) in
    let or3 : bit_or ((a * 2 ^ 8 + b) * 2 ^ 16) (c * 2 ^ 8 % 2 ^ 64)
        ≡ ((a * 2 ^ 8 + b) * 2 ^ 8 + c) * 2 ^ 8 =
      omega (arith, bit_or-disjoint 16 (a * 2 ^ 8 + b) (c * 2 ^ 8 % 2 ^ 64) (omega arith)) in
    let or4 : bit_or (((a * 2 ^ 8 + b) * 2 ^ 8 + c) * 2 ^ 8) (d * 1 % 2 ^ 64)
        ≡ ((a * 2 ^ 8 + b) * 2 ^ 8 + c) * 2 ^ 8 + d =
      omega
        (arith, bit_or-disjoint 8 ((a * 2 ^ 8 + b) * 2 ^ 8 + c) (d * 1 % 2 ^ 64) (omega arith)) in
    rw
      (
        atoi-itoa a la,
        atoi-itoa b lb,
        atoi-itoa c lc,
        atoi-itoa d ld,
        word_of-byte a la,
        word_of-byte b lb,
        word_of-byte c lc,
        word_of-byte d ld,
      )
      (ap (λ t. bit_or (bit_or (bit_or t x2) x3) x4) or1
        ∙ ap (λ t. bit_or (bit_or t x3) x4) or2
        ∙ ap (λ t. bit_or t x4) or3
        ∙ or4)

-- A 32-bit address survives `IpIntToString` and `StringIpToInt`.
pub string_ip_to_int-ip_int_to_string :
    (ip : ℕ) → ip < 2 ^ 32 → string_ip_to_int (ip_int_to_string ip) ≡ ip
unfolding string_ip_to_int ip_int_to_string segments
string_ip_to_int-ip_int_to_string ip l =
    let a : ℕ = ip / 2 ^ 24 % 256 in
    let b : ℕ = ip / 2 ^ 16 % 256 in
    let c : ℕ = ip / 2 ^ 8 % 256 in
    let d : ℕ = ip % 256 in
    rw (split_dots-join_dots a b c d (omega arith) (omega arith) (omega arith) (omega arith)) (
      or_segments-bytes a b c d (omega arith) (omega arith) (omega arith) (omega arith)
      ∙ omega arith)
