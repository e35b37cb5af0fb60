-- ===== src/Mjai/Block.antt =====
-- mjai/Block.go, lines 5 to 228 and 350 to 359: the first form of a suit's block, with its search two
-- tiles deep for the tiles that can be spared. `No` is `row`, a copy.
pub mod Agree
use route_server.Prelude.{
  ℕ, zero, suc, ◌+◌, ◌*◌, ℤ, pos, ◌+ℤ◌, ◌-ℤ◌, Bool, true, false, not, ◌&&◌, ◌||◌, Option, none,
  some, List, [], ◌∷◌, ◌++◌, map, ◌>>=◌, ◌==ℤ◌, ◌==◌, gtb_ℤ, ltb_ℤ, ltb, if◌then◌else◌, get_elem?,
  set, length,
}
use route_server.Mjai.Bubble.{bubble}
use route_server.Mjai.Grain.{MjGrain}
use route_server.Mjai.Weight.{Row, get_weight_val, has_tile}
use route_server.Mjai.Ai.{Ai}
use route_server.Mjai.Full.{get_public_num}
use route_server.Mjai.Search.{places}

pub record Block : Type 0 where
  pub bl : List (List ℕ)
  pub num : ℤ
  pub numi : ℕ
  pub row : Row
  pub i : ℕ
  pub w : ℤ
  pub we : List MjGrain

-- The run that is open joins the block if it is not empty.
abbrev pub close_run : List ℕ → Block → Block
close_run [] b = b
close_run (j ∷ run) b = record b { bl = b.bl ++ (j ∷ run) ∷ [] }

-- The loop over the row from position `j`, with the open run, and what follows it.
unfoldable pub split_row : ℕ → Row → List ℕ → Block → Block
split_row j [] run b = close_run run b
split_row j (n ∷ row) run b =
    if n ==ℤ pos 0
    then split_row (suc j) row [] (close_run run b)
    else split_row (suc j) row (run ++ j ∷ []) (record b { num = b.num +ℤ n; numi = suc b.numi })

abbrev pub in_suit : ℕ → List MjGrain → List MjGrain
in_suit i [] = []
in_suit i (g ∷ gs) = record g { h = pos i } ∷ in_suit i gs

-- `SetWeight`
unfoldable pub weigh_runs : List (List ℕ) → Block → Option Block
weigh_runs [] b = some b
weigh_runs (run ∷ runs) b = do
  (w, e) ← get_weight_val b.row run
  weigh_runs runs (record b { w = b.w +ℤ w; we = b.we ++ in_suit b.i e })

unfoldable pub set_weight : Block → Option Block
unfolding weigh_runs
set_weight b = weigh_runs b.bl (record b { w = pos 0; we = [] })

-- `Update`, and `Init` of a new block.
unfoldable pub update : Block → Option Block
unfolding split_row set_weight
update b = set_weight (split_row 0 b.row [] (record b { num = pos 0; numi = 0; bl = []; we = [] }))

unfoldable pub init : Row → ℕ → Option Block
unfolding update
init row i =
    update (record { bl = []; num = pos 0; numi = 0; row = row; i = i; w = pos 0; we = [] })

-- Lines 36 to 56: four of a tile are not made five, and a missing tile needs a neighbour.
abbrev pub held_at : Row → ℕ → Bool
held_at row i = held (get_elem? row i)
  where
    held : Option ℤ → Bool
    held none = false
    held (some n) = gtb_ℤ n (pos 0)

abbrev pub beside : Row → ℕ → Bool
beside row zero = held_at row 1
beside row (suc i) = held_at row (2 + i) || held_at row i

abbrev pub is_tried : Row → ℕ → ℤ → Bool
is_tried row i n = not (n ==ℤ pos 4) && (not (n ==ℤ pos 0) || beside row i)

-- Lines 57 to 69: does position `i` count, with the tiles unseen and the block with the tile added?
unfoldable pub with_tile : ℕ → Row → ℕ → Ai → Option (Option (ℤ × Block))
unfolding get_public_num init
with_tile s row i ai = do
  n ← get_elem? row i
  if not (is_tried row i n) then some none else (do
    p ← get_public_num (record { h = pos s; n = i; o = [] }) true ai
    if p ==ℤ pos 4
        then some none
        else (do b ← init (set row i (n +ℤ pos 1)) s; some (some (pos 4 -ℤ p, b))))

abbrev ten_times : ℤ → ℤ
ten_times n = let two : ℤ = n +ℤ n in let four : ℤ = two +ℤ two in four +ℤ four +ℤ two

-- An entry of `grs`, with whether it is among those that the search still follows: the lists of the
-- code share the entries.
abbrev pub Marked : Type 0
Marked = Bool × MjGrain

-- Lines 87 to 92: the entry is not asked for any more.
unfoldable pub settle : ℕ → ℤ → MjGrain → Option MjGrain
settle level num g = do
  l ← get_elem? g.o 1
  sum ← get_elem? g.o 4
  some (
      if gtb_ℤ l (pos level)
      then record g { o = set (set g.o 1 (pos level)) 4 num }
      else if l ==ℤ pos level
      then record g { o = set g.o 4 (sum +ℤ num) }
      else g)

-- Lines 79 to 94, and whether an entry is followed further.
unfoldable pub mark : List MjGrain → ℕ → ℤ → List Marked → Option (List Marked)
unfolding settle
mark we level num [] = some []
mark we level num ((on, g) ∷ grs) = do
  rest ← mark we level num grs
  if not on
      then some ((on, g) ∷ rest)
      else if has_tile g.n we
      then some ((true, g) ∷ rest)
      else (do g' ← settle level num g; some ((false, g') ∷ rest))

abbrev pub any_on : List Marked → Bool
any_on [] = false
any_on ((on, g) ∷ grs) = if on then true else any_on grs

-- The flags of the one list on the entries of the other, position by position.
abbrev pub flags_of : List Marked → List Marked → List Marked
flags_of ((on, _) ∷ as') ((_, g) ∷ bs) = (on, g) ∷ flags_of as' bs
flags_of as' bs = bs

-- `Find` at level 1 or more: `level++` is then above 1.
unfoldable pub find_last : Block → ℕ → ℤ → List Marked → Option (List Marked)
unfolding mark
find_last b level num grs = mark b.we level num grs

-- Lines 102 to 143, over the positions.
unfoldable pub find_deeper : Block → Ai → ℤ → List ℕ → List Marked → Option (List Marked)
unfolding with_tile find_last
find_deeper b ai num [] grs = some grs
find_deeper b ai num (i ∷ is) grs = do
  tile ← with_tile b.i b.row i ai
  grs' ← elim tile [
    | none ↦ some grs
    | some (n, c) ↦ do found ← find_last c 1 (n +ℤ num) grs; some (flags_of grs found)
  ]
  find_deeper b ai num is grs'

-- `Find` at level 0.
unfoldable pub find : Block → Ai → ℤ → List Marked → Option (List Marked)
unfolding mark find_deeper
find b ai num grs = do
  marked ← mark b.we 0 num grs
  if any_on marked
      then (do deeper ← find_deeper b ai num places marked; some (flags_of grs deeper))
      else some (flags_of grs marked)

-- Lines 20 to 31: the scores of an entry before the search.
unfoldable pub prepare : List MjGrain → Ai → Option (List Marked)
unfolding get_public_num
prepare [] ai = some []
prepare (g ∷ gs) ai = do
  p ← get_public_num g false ai
  c ← get_elem? g.o 0
  rest ← prepare gs ai
  some ((true, record g { o = set (g.o ++ pos 2 ∷ p ∷ c ∷ pos 0 ∷ []) 0 (pos 0) }) ∷ rest)

-- Lines 34 to 71, over the positions.
unfoldable pub find_all : Block → Ai → List ℕ → List Marked → Option (List Marked)
unfolding with_tile find
find_all b ai [] grs = some grs
find_all b ai (i ∷ is) grs = do
  tile ← with_tile b.i b.row i ai
  grs' ← elim tile [ none ↦ some grs | some (n, c) ↦ find c ai (ten_times n) grs ]
  find_all b ai is grs'

-- `RunFind`
unfoldable pub run_find : Block → Ai → Option (List Marked)
unfolding prepare find_all
run_find b ai = do grs ← prepare b.we ai; find_all b ai (if length grs == 0 then [] else places) grs

abbrev num_of : Block → Option ℤ
num_of b = some b.num

-- `SortBlock`
unfoldable pub sort_block : List Block → ℕ → Option (List Block)
unfolding bubble
sort_block bs i = bubble num_of ltb_ℤ bs i
