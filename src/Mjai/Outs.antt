-- ===== src/Mjai/Outs.antt =====
-- mjai/Ai.go, lines 310 to 356 and 413 to 539: the tile to discard, with `RunFind` and
-- `GetMJGrainList` of mjai/NewBlock.go, and the three tiles to pass on at the start.
pub mod Count
use route_server.Prelude.{
  ℕ, zero, suc, ◌+◌, ◌*◌, ℤ, pos, pos_part, minus_one, ◌+ℤ◌, ◌-ℤ◌, byte_of, Bool, true, false, not,
  ◌&&◌, ◌||◌, Option, none, some, List, [], ◌∷◌, ◌++◌, ◌>>=◌, ◌==ℤ◌, ◌==◌, gtb_ℤ, ltb_ℤ, ltb,
  if◌then◌else◌, get_elem?, set, length,
}
use route_server.Mjai.Grain.{MjGrain, sort_grain_arrs}
use route_server.Mjai.Weight.{Row}
use route_server.Mjai.NewBlock.{NewBlock, ChildBlock}
use route_server.Mjai.Ai.{
  Ai, UserPublic, cell, now_cell, change_now, put_user, update_block, find_block, all_blocks,
  update_blocks_weight, get_discard, get_valid, set_public_down, reload_self_inv,
}
use route_server.Mjai.Full.{check_full, get_public_num, has_positive, suit}
use route_server.Mjai.Search.{suits, dec, check_jiao, check_all_jiao}

-- `gr.H*9 + gr.N`
abbrev pub tile_of : MjGrain → Option ℕ
tile_of g = do i ← suit g; some (i * 9 + g.n)

-- `GetMJGrainList`, for a run and for all runs of a block.
unfoldable pub run_grains : ℕ → ChildBlock → List ℕ → Ai → Option (List MjGrain)
unfolding get_public_num
run_grains i c [] ai = some []
run_grains i c (j ∷ js) ai = do
  n ← now_cell i j ai
  p ← get_public_num (record { h = pos i; n = j; o = [] }) false ai
  gs ← run_grains i c js ai
  some (record { h = pos i; n = j; o = n ∷ p ∷ pos c.wei ∷ c.len ∷ [] } ∷ gs)

unfoldable pub get_mj_grain_list : ℕ → List ChildBlock → Ai → Option (List MjGrain)
unfolding run_grains
get_mj_grain_list i [] ai = some []
get_mj_grain_list i (c ∷ cs) ai = do
  gs ← run_grains i c c.bl ai
  rest ← get_mj_grain_list i cs ai
  some (gs ++ rest)

unfoldable pub all_grains : List NewBlock → Ai → Option (List MjGrain)
unfolding get_mj_grain_list
all_grains [] ai = some []
all_grains (b ∷ bs) ai = do
  gs ← get_mj_grain_list b.i b.child ai
  rest ← all_grains bs ai
  some (gs ++ rest)

unfoldable pub easy_outs : Ai → Option MjGrain
unfolding all_grains sort_grain_arrs
easy_outs ai = do
  bs ← all_blocks ai
  grs ← all_grains bs ai
  sort_grain_arrs (false ∷ true ∷ false ∷ false ∷ []) grs 0

-- `RunFind` adds a score to the entries of `We`, which the block and the result share.
unfoldable pub add_scores : List MjGrain → Ai → Option (List MjGrain)
unfolding get_public_num
add_scores [] ai = some []
add_scores (g ∷ gs) ai = do
  p ← get_public_num g false ai
  rest ← add_scores gs ai
  some (record g { o = g.o ++ p ∷ [] } ∷ rest)

-- Lines 478 to 483: the blocks after the loop, and the entries of those that have tiles.
unfoldable pub run_find : List NewBlock → Ai → Option (List NewBlock × List MjGrain)
unfolding add_scores
run_find [] ai = some ([], [])
run_find (b ∷ bs) ai =
    if b.sum_len ==ℤ pos 0 then (do (bs', grs) ← run_find bs ai; some (b ∷ bs', grs)) else (do
      we ← add_scores b.we ai
      (bs', grs) ← run_find bs ai
      some (record b { we = we } ∷ bs', we ++ grs))

-- The cells of a copy of `Now`, with their suits and positions.
abbrev pub row_cells : ℕ → ℕ → Row → List (ℕ × ℕ × ℤ)
row_cells i j [] = []
row_cells i j (n ∷ row) = (i, j, n) ∷ row_cells i (suc j) row

abbrev pub all_cells : ℕ → List Row → List (ℕ × ℕ × ℤ)
all_cells i [] = []
all_cells i (row ∷ rows) = row_cells i 0 row ++ all_cells (suc i) rows

-- Lines 340 to 351: does it pay to show the fourth tile of a triple on the table?
unfoldable pub add_fourth : ℤ → ℕ → ℕ → ℤ → Ai → Option (Bool × Ai)
add_fourth isf i j n ai = do
  (gr1, ai1) ← check_jiao isf true ai
  if length gr1 == 0 then some (true, ai1) else (do
    ai2 ← update_blocks_weight false i j n ai1
    (gr2, ai3) ← check_jiao isf true ai2
    some (ltb 0 (length gr2), ai3))

-- Lines 319 to 354, over the cells of a copy of `Now`.
unfoldable pub see_cells : ℤ → ℤ → List (ℕ × ℕ × ℤ) → Ai → Option (ℤ × Ai)
unfolding add_fourth
see_cells isf c_out [] ai = some (c_out, ai)
see_cells isf c_out ((i, j, n) ∷ cs) ai = do
  u ← get_elem? ai.public 3
  d ← cell u.down i j
  if pos i ==ℤ u.inv || n ==ℤ pos 0
      then see_cells isf c_out cs ai
      else if n ==ℤ pos 4
      then some (pos 32, ai)
      else if d ==ℤ pos 0
      then see_cells isf c_out cs ai
      else if gtb_ℤ n (pos 1)
      then (do ai' ← set_public_down 3 (i * 9 + j) (pos 0) ai; see_cells isf c_out cs ai')
      else (do
        (show, ai') ← add_fourth isf i j n ai
        if show then some (pos 32, ai') else see_cells isf c_out cs ai')

-- 33 to win, 32 to show four of a kind, or `c_out`.
unfoldable pub self_see : ℤ → ℤ → Ai → Option (ℤ × Ai)
unfolding see_cells
self_see isf c_out ai = do
  f ← if c_out ==ℤ minus_one then check_full true ai else some 0
  u ← get_elem? ai.public 3
  if ltb 0 f then some (pos 33, ai) else see_cells isf c_out (all_cells 0 u.now) ai

-- The first position of the first run.
abbrev pub first_place : List ChildBlock → Option ℕ
first_place [] = none
first_place (c ∷ cs) = get_elem? c.bl 0

-- Lines 432 to 441: a tile of the unwanted suit, or -1.
unfoldable pub unwanted : NewBlock → ℤ
unwanted b = if gtb_ℤ b.sum_len (pos 0) then tile (first_place b.child) else minus_one
  where
    tile : Option ℕ → ℤ
    tile none = minus_one
    tile (some j) = pos (b.i * 9 + j)

abbrev tile_or : ℕ → Option ℕ → Option ℕ → Option ℕ
tile_or i rest none = rest
tile_or i rest (some j) = some (i * 9 + j)

-- `BlocksMap[inv]` is nil for a suit that is no suit.
abbrev pub index_of : ℤ → Option ℕ
index_of (pos i) = some i
index_of _ = none

-- Lines 457 to 475: with fewer than three tiles of a suit of which nothing is on the table, one of
-- them. Something on the table of such a suit ends the loop.
unfoldable pub short_suit : ℤ → List NewBlock → UserPublic → Option (Option ℕ)
short_suit inv [] u = some none
short_suit inv (b ∷ bs) u = do
  down ← get_elem? u.down b.i
  rest ← short_suit inv bs u
  some (
      if pos b.i ==ℤ inv || not (ltb_ℤ b.sum_len (pos 3))
      then rest
      else if has_positive down
      then none
      else tile_or b.i rest (first_place b.child))

-- Lines 477 to 502: the best of the tiles that the weights name, or the plain choice.
unfoldable pub weighed_out : ℤ → Ai → Option (ℤ × Ai)
unfolding run_find easy_outs
weighed_out isf ai = do
  bs ← all_blocks ai
  (bs', grs) ← run_find bs ai
  let ai' = record ai { blocks = bs' }
  if ltb 0 (length grs)
      then (do
        gr ← sort_grain_arrs (false ∷ false ∷ false ∷ true ∷ []) grs 0
        i ← suit gr
        c ← now_cell i gr.n ai'
        best ← if gtb_ℤ isf (pos 0) && gtb_ℤ c (pos 1) then easy_outs ai' else some gr
        t ← tile_of best
        some (pos t, ai'))
      else (do gr ← easy_outs ai'; t ← tile_of gr; some (pos t, ai'))

-- Lines 450 to 502, where no tile of the unwanted suit is left and nothing is shown.
unfoldable pub search_out : ℤ → ℤ → Ai → Option (ℤ × Ai)
unfolding short_suit weighed_out
search_out isf inv ai = do
  (gr, ai') ← check_all_jiao isf ai
  bs ← all_blocks ai'
  u ← get_elem? ai'.public 3
  short ← short_suit inv bs u
  elim gr [
    | some g ↦ do t ← tile_of g; some (pos t, ai')
    | none ↦ elim (if gtb_ℤ isf (pos 0) then short else none) [
      | some t ↦ some (pos t, ai')
      | none ↦ weighed_out isf ai'
    ]
  ]

-- The tile to discard, or 32 or 33 (`SelfSee`).
unfoldable pub outs : ℤ → Bool → Ai → Option (ℤ × Ai)
unfolding self_see unwanted search_out
outs isf no30 ai = do
  inv ← get_valid 3 ai
  i ← index_of inv
  b ← find_block i ai.blocks
  (out, ai') ← if no30 then self_see isf (unwanted b) ai else some (unwanted b, ai)
  if gtb_ℤ out minus_one then some (out, ai') else search_out isf inv ai'

-- The variables `num`, `o` and the player, in the loops of `OutDiscard`.
pub record Passing : Type 0 where
  pub num : ℤ
  pub o : List ℕ
  pub ai : Ai

-- Lines 519 to 526: up to `n` tiles `j` of suit `i`; `true` is the `break G`.
unfoldable pub pass_tiles : ℕ → ℕ → ℕ → Passing → Option (Bool × Passing)
pass_tiles zero i j p = some (false, p)
pass_tiles (suc n) i j p = do
  ai ← change_now dec i j p.ai
  let num : ℤ = p.num -ℤ pos 1
  let p' : Passing = record { num = num; o = p.o ++ byte_of (pos (i * 9 + j)) ∷ []; ai = ai }
  if num ==ℤ pos 0 then some (true, p') else pass_tiles n i j p'

-- Lines 516 to 528, over the positions of all runs. Before `num` is counted down to 0 the loop
-- goes on.
unfoldable pub pass_run : ℕ → List ℕ → Passing → Option (Bool × Passing)
unfolding pass_tiles
pass_run i [] p = some (false, p)
pass_run i (j ∷ js) p = do
  n ← now_cell i j p.ai
  (stop, p') ← pass_tiles (pos_part n) i j p
  if stop then some (true, p') else pass_run i js p'

unfoldable pub pass_runs : ℕ → List ChildBlock → Passing → Option (Bool × Passing)
unfolding pass_run
pass_runs i [] p = some (false, p)
pass_runs i (c ∷ cs) p = do
  (stop, p') ← pass_run i c.bl p
  if stop then some (true, p') else pass_runs i cs p'

-- Lines 530 to 536, `n` rounds: the blocks are not brought up to date.
unfoldable pub pass_easy : ℕ → List ℕ → Ai → Option (List ℕ × Ai)
unfolding easy_outs
pass_easy zero o ai = some (o, ai)
pass_easy (suc n) o ai = do
  gr ← easy_outs ai
  i ← suit gr
  t ← tile_of gr
  ai' ← change_now dec i gr.n ai
  pass_easy n (o ++ byte_of (pos t) ∷ []) ai'

unfoldable pub out_discard : ℤ → Ai → Option (List ℕ × Ai)
unfolding pass_runs pass_easy
out_discard num ai = do
  inv0 ← get_valid 3 ai
  ai0 ← if inv0 ==ℤ minus_one then reload_self_inv ai else some ai
  inv ← get_valid 3 ai0
  i ← index_of inv
  b ← find_block i ai0.blocks
  (stop, p) ← pass_runs i b.child (record { num = num; o = []; ai = ai0 })
  ai1 ← update_block i p.ai
  pass_easy (pos_part p.num) p.o ai1
