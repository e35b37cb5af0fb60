-- ===== src/Scann/Ports.antt =====
-- scann/ScannDB.go, lines 76 to 90, 133 to 147 and 209 to 251: the ports to scan, how often each was
-- found, and the address ranges of a downloaded text. Text is the list of its bytes.
pub mod Lines
use route_server.Prelude.{
  ℕ, suc, ◌+◌, ℤ, pos, ◌+ℤ◌, Bool, ◌||◌, Option, none, some, List, [], ◌∷◌, ◌++◌, ◌>>=◌, ◌==◌,
  if◌then◌else◌, reverse,
}
use route_server.Comm.{string_ip_to_int}
use route_server.Proxy.Info.{decimal}
use route_server.Scann.{Span}

-- The text that `GetScannPort` writes: each port on a line, and an empty line.
unfoldable pub port_text : List ℕ → List ℕ
unfolding decimal
port_text [] = b'\n' ∷ []
port_text (p ∷ ports) = decimal 20 p [] ++ b'\n' ∷ port_text ports

-- The table `scannPort`: the order of a port, `INSERT` and `UPDATE` with their errors.
pub record Ports (S : Type 0) : Type 0 where
  pub order_of : ℕ → S → Option ℤ
  pub insert : ℕ → ℤ → S → Option ℕ × S
  pub update : ℕ → ℤ → S → Option ℕ × S

unfoldable pub add_port_db : {S : Type 0} → Ports S → ℕ → S → Option ℕ × S
add_port_db db port s = elim (db.order_of port s) [
  | none ↦ db.insert port (pos 1) s
  | some order ↦ db.update port (order +ℤ pos 1) s
]

-- `strings.Split` at a byte, with the segment that is being read.
unfoldable pub split_at : ℕ → List ℕ → List ℕ → List (List ℕ)
split_at sep seg [] = seg ∷ []
split_at sep seg (c ∷ cs) =
    let rest : List (List ℕ) = split_at sep [] cs in
    let more : List (List ℕ) = split_at sep (seg ++ c ∷ []) cs in
    if c == sep then seg ∷ rest else more

-- `strings.TrimSpace` of an ASCII text
abbrev is_space : ℕ → Bool
is_space c = c == 32 || c == 9 || c == 10 || c == 11 || c == 12 || c == 13

abbrev trim_left : List ℕ → List ℕ
trim_left [] = []
trim_left (c ∷ cs) = let rest : List ℕ = trim_left cs in if is_space c then rest else c ∷ cs

abbrev pub trim_space : List ℕ → List ℕ
trim_space cs = reverse (trim_left (reverse (trim_left cs)))

-- Lines 138 to 139: three fields with tabs between them are a range.
abbrev spans_of : List (List ℕ) → List Span
spans_of (a ∷ b ∷ c ∷ []) =
    record { first = string_ip_to_int a; last = string_ip_to_int b; time = 0 } ∷ []
spans_of fields = []

-- The rows that lines 134 to 147 insert. The error at the end of the text ends the loop, after the
-- last line.
unfoldable pub line_spans : List (List ℕ) → List Span
unfolding split_at string_ip_to_int
line_spans [] = []
line_spans (line ∷ lines) = spans_of (split_at 9 [] (trim_space line)) ++ line_spans lines

unfoldable pub read_spans : List ℕ → List Span
unfolding line_spans
read_spans body = line_spans (split_at 10 [] body)
