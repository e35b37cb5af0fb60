-- ===== src/Mjai/Weight.antt =====
-- mjai/Block.go, lines 230 to 349: how far a run of tiles is from a complete hand, and the tiles
-- that would bring it nearer. A row has the count of each of the nine tiles of a suit, `bl` is
-- a run: positions in the row. The recursion of `WeightVal` takes fuel, and `none` stands for a
-- recursion that never ends, which the Go runtime stops as a stack overflow.
pub mod Runs
pub mod Taken
pub mod Ends
pub mod Named
use route_server.Prelude.{
  ℕ, zero, suc, ◌+◌, ℤ, pos, minus_one, ◌+ℤ◌, ◌-ℤ◌, Bool, true, false, Option, none, some, List, [],
  ◌∷◌, ◌++◌, ◌>>=◌, get_elem?, set, length, drop, reverse, ltb_ℤ, gtb_ℤ, ◌==ℤ◌, ◌==◌, leb, ltb,
  if◌then◌else◌, pos_part,
}
use route_server.Mjai.Grain.{MjGrain}

abbrev pub Row : Type 0
Row = List ℤ

-- `&MJGrain{H:-1,N:i,O:[]int{No[i]}}`
abbrev pub grain_at : ℕ → ℤ → MjGrain
grain_at i c = record { h = minus_one; n = i; o = c ∷ [] }

-- Lines 235 to 247: a run of one or two tiles.
unfoldable pub weight_short : Row → List ℕ → ℤ → List MjGrain → Option (ℤ × List MjGrain)
weight_short row [] w o = some (w, o)
weight_short row (i ∷ bl) w o = do
  c ← get_elem? row i
  if ltb_ℤ c (pos 3)
      then (let v : ℤ = pos 3 -ℤ c in
          weight_short row bl (w +ℤ v) (if gtb_ℤ v (pos 0) then o ++ grain_at i c ∷ [] else o))
      else weight_short row bl w o

-- The variables of the loop at lines 252 to 272.
pub record Strip : Type 0 where
  pub row : Row
  pub start : ℕ
  pub isb : Bool
  pub w : ℤ
  pub o : List MjGrain

-- One round of it, for the tile at position `j`, the `i`-th of the run, that occurs `c` times.
unfoldable pub strip_one : ℕ → ℕ → ℤ → Strip → Strip
strip_one i j c s =
    let c' : ℤ = c -ℤ pos 1 in
    let s' : Strip = record s { row = set s.row j c' } in
    if c' ==ℤ pos 0
    then record s' { isb = true }
    else if s.isb
    then (let v : ℤ = pos 3 -ℤ c' in
        record s' { w = s.w +ℤ v; o = if gtb_ℤ v (pos 0) then s.o ++ grain_at j c' ∷ [] else s.o })
    else record s' { start = i }

-- The rounds for `i = n - 1` down to 0.
unfoldable pub strip : ℕ → List ℕ → Strip → Option Strip
unfolding strip_one
strip zero bl s = some s
strip (suc i) bl s = do j ← get_elem? bl i; c ← get_elem? s.row j; strip i bl (strip_one i j c s)

abbrev pub has_tile : ℕ → List MjGrain → Bool
has_tile n [] = false
has_tile n (g ∷ gs) = if n == g.n then true else has_tile n gs

-- The entries of the first list for tiles that the second one lacks.
unfoldable pub missing_from : List MjGrain → List MjGrain → List MjGrain
missing_from [] o2 = []
missing_from (g ∷ o1) o2 = if has_tile g.n o2 then missing_from o1 o2 else g ∷ missing_from o1 o2

-- Lines 287 to 306: of the two readings of a run the lighter one, or both.
unfoldable pub merge_readings :
    ℤ → List MjGrain → ℤ × List MjGrain → ℤ × List MjGrain → ℤ × List MjGrain
unfolding missing_from
merge_readings w o (w1, o1) (w2, o2) =
    if ltb_ℤ w2 w1
    then (w2 +ℤ w, o ++ o2)
    else if ltb_ℤ w1 w2
    then (w1 +ℤ w, o ++ o1)
    else (w1 +ℤ w, (o ++ missing_from o1 o2) ++ o2)

-- Fuel 0 stands for a recursion without end.
unfoldable pub weight_val : ℕ → Row → List ℕ → ℤ → List MjGrain → Option (ℤ × List MjGrain)
unfolding weight_short strip merge_readings
weight_val zero row bl w o = none
weight_val (suc fuel) row [] w o = some (w, o)
weight_val (suc fuel) row (b ∷ bl) w o =
    let first_full = weight_val fuel row bl w o in
    let stripped =
      strip 3 (b ∷ bl) (record { row = row; start = 3; isb = false; w = w; o = o }) >>= λ s.
      let rest : List ℕ = drop s.start (b ∷ bl) in
      let once = weight_val fuel s.row rest s.w s.o in
      let twice = weight_val fuel s.row rest (pos 0) [] >>= λ r1.
      weight_val fuel s.row (reverse rest) (pos 0) [] >>= λ r2.
      some (merge_readings s.w s.o r1 r2) in
      if ltb (length rest) 3 then once else twice in
    let longer = get_elem? row b >>= λ n. if gtb_ℤ n (pos 2) then first_full else stripped in
    if ltb (length (b ∷ bl)) 3 then weight_short row (b ∷ bl) w o else longer

-- The sum of the positive counts of a row.
abbrev pub tiles : Row → ℕ
tiles [] = 0
tiles (c ∷ row) = pos_part c + tiles row

-- A call that goes on takes a tile away from the row, or one from the run: this is enough fuel.
abbrev pub weight_fuel : Row → List ℕ → ℕ
weight_fuel row bl = suc (length bl + tiles row)

-- Lines 325 to 347.
unfoldable pub choose_reading : ℤ × List MjGrain → ℤ × List MjGrain → ℤ × List MjGrain
unfolding missing_from
choose_reading (w1, o1) (w2, o2) =
    if ltb_ℤ w2 w1
    then (w2, o2)
    else if ltb_ℤ w1 w2
    then (w1, o1)
    else (w1, o1 ++ missing_from o2 o1)

-- Lines 308 to 349.
unfoldable pub get_weight_val : Row → List ℕ → Option (ℤ × List MjGrain)
unfolding weight_val choose_reading
get_weight_val row bl =
    if ltb (length bl) 3 then weight_val (weight_fuel row bl) row bl (pos 0) [] else (do
      r1 ← weight_val (weight_fuel row bl) row bl (pos 0) []
      r2 ← weight_val (weight_fuel row bl) row (reverse bl) (pos 0) []
      some (choose_reading r1 r2))
