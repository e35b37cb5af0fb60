-- ===== src/Scann.antt =====
-- scann/ScannDB.go, lines 152 to 208: the choice of the next address range to scan. The table
-- stands behind the record `Spans`; the random number is an argument, as is whether the client can
-- be written to.
pub mod Fresh
pub mod Ports
use route_server.Prelude.{
  ℕ, zero, suc, Bool, Option, none, some, List, [], ◌∷◌, ◌++◌, ◌>>=◌, ◌==◌, if◌then◌else◌,
  get_elem?,
}
use route_server.Proxy.Info.{decimal}

-- A row: the first and the last address, and when the range was last handed out (0: never).
pub record Span : Type 0 where
  pub first : ℕ
  pub last : ℕ
  pub time : ℕ

-- `oldest` gives the first 20 rows by `time` (`none`: the query fails, and the code panics), `stamp`
-- sets the time of a row to the present, and gives the error or none.
pub record Spans (S : Type 0) : Type 0 where
  pub oldest : S → Option (List Span)
  pub stamp : ℕ → S → Option ℕ × S

-- Lines 180 to 189: `zerolist`, where `i` is the index of the next row.
unfoldable pub last_zero : ℕ → ℕ → List Span → ℕ
last_zero z i [] = z
last_zero z i (s ∷ rows) = last_zero (if s.time == 0 then i else z) (suc i) rows

abbrev or_empty : Option Span → Span
or_empty none = record { first = 0; last = 0; time = 0 }
or_empty (some s) = s

-- An entry of the array `list`, which holds zeros behind the rows.
abbrev pub span_at : List Span → ℕ → Span
span_at rows i = or_empty (get_elem? rows i)

-- Lines 192 to 199, with `random n` for `ra.Intn(n)`.
unfoldable pub choose_span : (ℕ → ℕ) → List Span → Span
unfolding last_zero
choose_span random rows =
    let z : ℕ = last_zero 0 0 rows in span_at rows (if z == 0 then 0 else random z)

-- The text `%d_%d`
abbrev pub span_text : Span → List ℕ
span_text s = decimal 20 s.first [] ++ b'_' ∷ decimal 20 s.last []

-- `GetScannIP`: the text that is written, the error or none, and the table.
unfoldable pub get_scann_ip :
    {S : Type 0} → Spans S → (ℕ → ℕ) → Option ℕ → S → Option (List ℕ × Option ℕ × S)
unfolding choose_span
get_scann_ip db random write_error s = do
  rows ← db.oldest s
  let span : Span = choose_span random rows
  elim write_error [
    | some e ↦ some (span_text span, some e, s)
    | none ↦ let (err, s') = db.stamp span.first s in some (span_text span, err, s')
  ]
