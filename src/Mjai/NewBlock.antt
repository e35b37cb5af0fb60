-- ===== src/Mjai/NewBlock.antt =====
-- mjai/NewBlock.go: the tiles of one suit, split into runs. In the code `No` is a slice of the
-- row of the suit in `Public[3].Now`, shared with it; here the row is an argument.
pub mod Runs
pub mod Ends
pub mod Again
pub mod Tagged
use route_server.Prelude.{
  ℕ, zero, suc, ◌+◌, ℤ, pos, ◌+ℤ◌, Bool, true, false, Option, none, some, List, [], ◌∷◌, ◌++◌, map,
  ◌>>=◌, ◌==ℤ◌, ltb, ltb_ℤ, if◌then◌else◌,
}
use route_server.Mjai.Bubble.{bubble}
use route_server.Mjai.Grain.{MjGrain}
use route_server.Mjai.Weight.{Row, get_weight_val}

-- A run: its positions, their number, and the number of tiles.
pub record ChildBlock : Type 0 where
  pub bl : List ℕ
  pub wei : ℕ
  pub len : ℤ

pub record NewBlock : Type 0 where
  pub i : ℕ
  pub child : List ChildBlock
  pub we : List MjGrain
  pub sum_wei : ℕ
  pub sum_len : ℤ
  pub w : ℤ

-- `new(ChildBlock)`
abbrev pub no_child : ChildBlock
no_child = record { bl = []; wei = 0; len = pos 0 }

-- `new(NewBlock)` with the suit set
abbrev pub new_block : ℕ → NewBlock
new_block i = record { i = i; child = []; we = []; sum_wei = 0; sum_len = pos 0; w = pos 0 }

-- Lines 50 to 54 and 63 to 67: a run that is not empty joins the block.
abbrev pub flush : ChildBlock → NewBlock → NewBlock
flush c b =
    if ltb 0 c.wei
    then record b {
      child = b.child ++ c ∷ [];
      sum_len = b.sum_len +ℤ c.len;
      sum_wei = b.sum_wei + c.wei;
    }
    else b

abbrev pub grow : ℕ → ℤ → ChildBlock → ChildBlock
grow j n c = record c { bl = c.bl ++ j ∷ []; len = c.len +ℤ n; wei = suc c.wei }

-- The loop over the row from position `j`, and the flush behind it.
unfoldable pub split : ℕ → Row → ChildBlock → NewBlock → NewBlock
split j [] c b = flush c b
split j (n ∷ row) c b =
    if n ==ℤ pos 0 then split (suc j) row no_child (flush c b) else split (suc j) row (grow j n c) b

-- `_e.H = self.I; _e.O = append(_e.O, ch.Wei, ch.Len)`
abbrev pub tag : ℕ → ChildBlock → MjGrain → MjGrain
tag i c e = record e { h = pos i; o = e.o ++ pos c.wei ∷ c.len ∷ [] }

unfoldable pub weigh : Row → List ChildBlock → NewBlock → Option NewBlock
weigh row [] b = some b
weigh row (c ∷ cs) b = do
  (w, e) ← get_weight_val row c.bl
  weigh row cs (record b { w = b.w +ℤ w; we = b.we ++ map (tag b.i c) e })

unfoldable pub set_weight : Row → NewBlock → Option NewBlock
unfolding weigh
set_weight row b = weigh row b.child (record b { w = pos 0; we = [] })

-- `NewBlock.Update`
unfoldable pub update : Row → NewBlock → Option NewBlock
unfolding split set_weight
update row b =
    set_weight row (split 0 row no_child (record b { child = []; sum_len = pos 0; sum_wei = 0 }))

-- `NewBlock.Init`, of a fresh block
unfoldable pub init : Row → ℕ → Option NewBlock
unfolding update
init row i = update row (new_block i)

abbrev pub sum_len_of : NewBlock → Option ℤ
sum_len_of b = some b.sum_len

unfoldable pub sort_new_block : List NewBlock → ℕ → Option (List NewBlock)
unfolding bubble
sort_new_block bs i = bubble sum_len_of ltb_ℤ bs i
