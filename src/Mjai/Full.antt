-- ===== src/Mjai/Full.antt =====
-- mjai/Ai.go, lines 686 to 771: the tiles that a player knows of, and the value of a hand.
use route_server.Prelude.{
  ℕ, suc, ◌+◌, ◌*◌, ℤ, pos, ◌+ℤ◌, Bool, true, false, not, ◌&&◌, ◌||◌, Option, none, some, List, [],
  ◌∷◌, ◌>>=◌, ◌==ℤ◌, ◌==◌, gtb_ℤ, if◌then◌else◌, get_elem?, take,
}
use route_server.Mjai.Grain.{MjGrain}
use route_server.Mjai.Weight.{Row}
use route_server.Mjai.NewBlock.{NewBlock, ChildBlock}
use route_server.Mjai.Ai.{Ai, UserPublic, cell, now_cell, all_blocks}

-- `gr.H` as an index: a negative one panics.
abbrev pub suit : MjGrain → Option ℕ
suit g = suit_of g.h
  where
    suit_of : ℤ → Option ℕ
    suit_of (pos i) = some i
    suit_of _ = none

unfoldable pub add_public : ℕ → ℕ → List UserPublic → ℤ → Option ℤ
add_public i j [] n = some n
add_public i j (u ∷ us) n = do
  d ← cell u.down i j
  s ← cell u.see i j
  add_public i j us (n +ℤ d +ℤ s)

unfoldable pub get_public_num : MjGrain → Bool → Ai → Option ℤ
unfolding add_public
get_public_num g is_now ai = do
  i ← suit g
  n ← if is_now then now_cell i g.n ai else some (pos 0)
  add_public i g.n ai.public n

-- The variables of `checkFull`.
pub record Tally : Type 0 where
  pub w : ℤ
  pub dui : ℕ
  pub dan : ℕ
  pub qing : ℕ
  pub f : ℕ

-- Lines 716 to 723: a tile that occurs `n` times.
abbrev pub count_tile : ℤ → Tally → Tally
count_tile n t =
    if n ==ℤ pos 2
    then record t { dui = suc t.dui }
    else if n ==ℤ pos 4
    then record t { dui = 2 + t.dui; f = suc t.f }
    else if n ==ℤ pos 1
    then record t { dan = suc t.dan }
    else t

unfoldable pub count_run : Row → List ℕ → Tally → Option Tally
count_run row [] t = some t
count_run row (j ∷ bl) t = do n ← get_elem? row j; count_run row bl (count_tile n t)

unfoldable pub count_runs : Row → List ChildBlock → Tally → Option Tally
unfolding count_run
count_runs row [] t = some t
count_runs row (c ∷ cs) t = do t' ← count_run row c.bl t; count_runs row cs t'

abbrev pub has_positive : Row → Bool
has_positive [] = false
has_positive (n ∷ row) = if gtb_ℤ n (pos 0) then true else has_positive row

-- The loop over the blocks. `some none` is the early `return 0`: a tile of the unwanted suit.
unfoldable pub tally : UserPublic → List NewBlock → Tally → Option (Option Tally)
unfolding count_runs
tally u [] t = some (some t)
tally u (b ∷ bs) t = if pos b.i ==ℤ u.inv && gtb_ℤ b.sum_len (pos 0) then some none else (do
  row ← get_elem? u.now b.i
  down ← get_elem? u.down b.i
  t' ← count_runs row b.child (record t { w = t.w +ℤ b.w })
  tally u bs (
      if gtb_ℤ b.sum_len (pos 0) || has_positive down
      then record t' { qing = suc t'.qing }
      else t'))

-- Lines 746 to 756, for a row of `Down` and the same row of `Now`, and for all rows.
abbrev pub row_bonus : Row → Row → ℕ → ℕ
row_bonus [] now f = f
row_bonus (d ∷ down) [] f = f
row_bonus (d ∷ down) (n ∷ now) f =
    row_bonus down now
      (if gtb_ℤ d (pos 2) then suc f else if d ==ℤ pos 2 && gtb_ℤ n (pos 0) then suc f else f)

abbrev pub rows_bonus : List Row → List Row → ℕ → ℕ
rows_bonus [] now f = f
rows_bonus (d ∷ down) [] f = f
rows_bonus (d ∷ down) (n ∷ now) f = rows_bonus down now (row_bonus d n f)

-- Lines 760 to 764.
abbrev pub double_each : List UserPublic → ℕ → ℕ
double_each [] f = f
double_each (u ∷ us) f = double_each us (if u.is_f then f + f else f)

-- Lines 737 to 769: the value, from the counts.
unfoldable pub full_value : Bool → UserPublic → List UserPublic → Tally → ℕ
full_value max u others t =
    if not (t.w ==ℤ pos 1) && not (t.dui == 7)
    then 0
    else (let base : ℕ = if t.qing == 1 || t.dui == 7 then 4 else t.f in
        let paired : ℕ = if t.dan == 0 && t.dui == 1 then base * 2 else base in
        let bonus : ℕ = rows_bonus u.down u.now paired in
        if max then double_each others (suc bonus) else bonus)

unfoldable pub value_of : Bool → UserPublic → List UserPublic → Option Tally → ℕ
unfolding full_value
value_of max u others none = 0
value_of max u others (some t) = full_value max u others t

-- `checkFull`: 0 for a hand that is not complete.
unfoldable pub check_full : Bool → Ai → Option ℕ
unfolding tally value_of
check_full max ai = do
  bs ← all_blocks ai
  u ← get_elem? ai.public 3
  t ← tally u bs (record { w = pos 0; dui = 0; dan = 0; qing = 0; f = 1 })
  some (value_of max u (take 3 ai.public) t)
