-- ===== src/Mjai/Search/Expected.antt =====
-- What `CheckJiao` is to find, from the hand as it is: mjai/Ai.go, lines 648 to 685, without the
-- tiles that are tried in place.
use route_server.Prelude.{
  ℕ, ℤ, pos, negsuc, Bool, false, not, ◌&&◌, Option, none, some, List, [], ◌∷◌, ◌++◌, ◌>>=◌, ◌==ℤ◌,
  gtb_ℤ, ltb_ℤ, ltb, if◌then◌else◌, get_elem?,
}
use route_server.Mjai.Weight.{Row}
use route_server.Mjai.Grain.{MjGrain}
use route_server.Mjai.NewBlock.Runs.{total}
use route_server.Mjai.Ai.{Ai, now_cell, change_now, update_block}
use route_server.Mjai.Full.{check_full}
use route_server.Mjai.Search.{inc, places, suits}

-- The value of the hand with tile `j` of suit `i` added.
unfoldable pub value_with : Bool → ℕ → ℕ → Ai → Option ℕ
value_with is_m i j ai = do
  more ← change_now inc i j ai
  fresh ← update_block i more
  check_full is_m fresh

-- Tile `j` of suit `i` with the value `fn`, if that is positive and not below `isf`.
abbrev pub worth : ℤ → ℕ → ℕ → ℕ → List MjGrain
worth isf i j fn =
    if ltb 0 fn && not (ltb_ℤ (pos fn) isf)
    then record { h = pos i; n = j; o = pos fn ∷ [] } ∷ []
    else []

-- Tile `j` of suit `i` if it completes the hand, and the hand does not have four of it.
unfoldable pub wait : ℤ → Bool → ℕ → ℕ → Ai → Option (List MjGrain)
unfolding value_with
wait isf is_m i j ai = do
  n ← now_cell i j ai
  if n ==ℤ pos 4 then some [] else (do fn ← value_with is_m i j ai; some (worth isf i j fn))

unfoldable pub suit_waits : ℤ → Bool → ℕ → List ℕ → Ai → Option (List MjGrain)
unfolding wait
suit_waits isf is_m i [] ai = some []
suit_waits isf is_m i (j ∷ js) ai = do
  here ← wait isf is_m i j ai
  others ← suit_waits isf is_m i js ai
  some (here ++ others)

-- The tiles of all suits but the unwanted.
unfoldable pub all_waits : ℤ → Bool → ℤ → List ℕ → Ai → Option (List MjGrain)
unfolding suit_waits
all_waits isf is_m inv [] ai = some []
all_waits isf is_m inv (i ∷ is) ai = do
  others ← all_waits isf is_m inv is ai
  if pos i ==ℤ inv
      then some others
      else (do here ← suit_waits isf is_m i places ai; some (here ++ others))

abbrev has_tiles : Option Row → Bool
has_tiles none = false
has_tiles (some row) = gtb_ℤ (total row) (pos 0)

-- Whether the hand has a tile of the unwanted suit.
abbrev pub holds_unwanted : ℤ → List Row → Bool
holds_unwanted (pos i) rows = has_tiles (get_elem? rows i)
holds_unwanted (negsuc n) rows = false

unfoldable pub expected_waits : ℤ → Bool → Ai → Option (List MjGrain)
unfolding all_waits
expected_waits isf is_m ai = do
  u ← get_elem? ai.public 3
  if holds_unwanted u.inv u.now then some [] else all_waits isf is_m u.inv (suits ai.blocks) ai
