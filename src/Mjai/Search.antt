-- ===== src/Mjai/Search.antt =====
-- mjai/Ai.go, lines 357 to 412 and 648 to 685: the tiles that would complete a hand, and the tiles
-- to give away after which some tile does. Both try a tile by a change of the shared row, and undo it.
pub mod Restore
pub mod Expected
use route_server.Prelude.{
  ℕ, suc, ◌+◌, ℤ, pos, ◌+ℤ◌, ◌-ℤ◌, Bool, true, false, not, ◌&&◌, ◌||◌, Option, none, some, List, [],
  ◌∷◌, ◌++◌, ◌>>=◌, ◌==ℤ◌, gtb_ℤ, ltb_ℤ, ltb, leb, if◌then◌else◌, get_elem?, length,
}
use route_server.Mjai.Grain.{MjGrain, sortd_grain, sort_grain_arrs}
use route_server.Mjai.NewBlock.{NewBlock, ChildBlock}
use route_server.Mjai.Ai.{
  Ai, UserPublic, now_cell, change_now, update_block, find_block, all_blocks,
}
use route_server.Mjai.Full.{check_full, get_public_num}

abbrev pub inc : ℤ → ℤ
inc c = c +ℤ pos 1

abbrev pub dec : ℤ → ℤ
dec c = c -ℤ pos 1

-- The positions of a row, and the suits of the blocks in the order of `Blocks`.
abbrev pub places : List ℕ
places = 0 ∷ 1 ∷ 2 ∷ 3 ∷ 4 ∷ 5 ∷ 6 ∷ 7 ∷ 8 ∷ []

abbrev pub suits : List NewBlock → List ℕ
suits [] = []
suits (b ∷ bs) = b.i ∷ suits bs

-- Lines 667 to 677: a completing tile is put into the list, which is kept in descending order.
unfoldable pub keep_jiao : ℤ → ℕ → ℕ → ℕ → List MjGrain → Option (List MjGrain)
unfolding sortd_grain
keep_jiao isf i j fn gr =
    if ltb 0 fn && not (ltb_ℤ (pos fn) isf)
    then sortd_grain (gr ++ record { h = pos i; n = j; o = pos fn ∷ [] } ∷ []) (length gr) 0
    else some gr

-- Lines 658 to 680: the tile `j` of suit `i` is tried.
unfoldable pub try_tile : ℤ → Bool → ℕ → ℕ → List MjGrain × Ai → Option (List MjGrain × Ai)
unfolding keep_jiao
try_tile isf is_m i j (gr, ai) = do
  n ← now_cell i j ai
  if n ==ℤ pos 4 then some (gr, ai) else (do
    more ← change_now inc i j ai
    fresh ← update_block i more
    fn ← check_full is_m fresh
    gr' ← keep_jiao isf i j fn gr
    back ← change_now dec i j fresh
    some (gr', back))

unfoldable pub try_tiles : ℤ → Bool → ℕ → List ℕ → List MjGrain × Ai → Option (List MjGrain × Ai)
unfolding try_tile
try_tiles isf is_m i [] r = some r
try_tiles isf is_m i (j ∷ js) r = do r' ← try_tile isf is_m i j r; try_tiles isf is_m i js r'

-- The loop over the blocks. A tile of the unwanted suit ends the search with no result.
unfoldable pub try_suits : ℤ → Bool → List ℕ → List MjGrain × Ai → Option (List MjGrain × Ai)
unfolding try_tiles
try_suits isf is_m [] r = some r
try_suits isf is_m (i ∷ is) (gr, ai) = do
  u ← get_elem? ai.public 3
  b ← find_block i ai.blocks
  if pos i ==ℤ u.inv
      then (if gtb_ℤ b.sum_len (pos 0) then some ([], ai) else try_suits isf is_m is (gr, ai))
      else (do
        (gr', tried) ← try_tiles isf is_m i places (gr, ai)
        done ← update_block i tried
        try_suits isf is_m is (gr', done))

unfoldable pub check_jiao : ℤ → Bool → Ai → Option (List MjGrain × Ai)
unfolding try_suits
check_jiao isf is_m ai = do bs ← all_blocks ai; try_suits isf is_m (suits bs) ([], ai)

-- Lines 380 to 383.
unfoldable pub unseen : List MjGrain → Ai → ℤ → Option ℤ
unfolding get_public_num
unseen [] ai n = some n
unseen (g ∷ gs) ai n = do p ← get_public_num g true ai; unseen gs ai (n +ℤ (pos 4 -ℤ p))

-- Lines 384 to 392: the scores of tile `j` of suit `i`, without which `gs` complete the hand.
unfoldable pub jiao_grain : ℕ → ℕ → List MjGrain → Ai → Option MjGrain
unfolding unseen
jiao_grain i j gs ai = do
  n1 ← unseen gs ai (pos 0)
  p ← get_public_num (record { h = pos i; n = j; o = [] }) false ai
  best ← get_elem? gs 0
  top ← get_elem? best.o 0
  c ← now_cell i j ai
  some (record {
    h = pos i;
    n = j;
    o = pos (length gs) ∷ n1 ∷ (if gtb_ℤ p (pos 0) then pos 1 else pos 0) ∷ top ∷ c ∷ [];
  })

-- The lists `jiao` and `for4`.
pub record Found : Type 0 where
  pub jiao : List MjGrain
  pub for4 : List MjGrain

-- Lines 393 to 397: tiles that occur more than `kn` times go to `for4`.
abbrev pub keep_found : ℤ → ℤ → MjGrain → Found → Found
keep_found kn c g r =
    if gtb_ℤ c kn
    then record r { for4 = r.for4 ++ g ∷ [] }
    else record r { jiao = r.jiao ++ g ∷ [] }

-- Lines 376 to 398: tile `j` of suit `i` is noted if `gs` then complete the hand.
unfoldable pub note_jiao : ℤ → ℕ → ℕ → List MjGrain → Found × Ai → Option (Found × Ai)
unfolding jiao_grain
note_jiao isf i j gs (r, ai) =
    if ltb 0 (length gs)
    then (do
      g ← jiao_grain i j gs ai
      c ← now_cell i j ai
      some (keep_found (if gtb_ℤ isf (pos 0) then pos 1 else pos 2) c g r, ai))
    else some (r, ai)

-- Lines 372 to 399: tile `j` of suit `i` is given away and taken back.
unfoldable pub give_tile : ℤ → ℕ → ℕ → Found × Ai → Option (Found × Ai)
unfolding check_jiao note_jiao
give_tile isf i j (r, ai) = do
  less ← change_now dec i j ai
  fresh ← update_block i less
  (gs, searched) ← check_jiao isf true fresh
  back ← change_now inc i j searched
  note_jiao isf i j gs (r, back)

unfoldable pub give_run : ℤ → ℕ → List ℕ → Found × Ai → Option (Found × Ai)
unfolding give_tile
give_run isf i [] r = some r
give_run isf i (j ∷ js) r = do r' ← give_tile isf i j r; give_run isf i js r'

unfoldable pub give_runs : ℤ → ℕ → List ChildBlock → Found × Ai → Option (Found × Ai)
unfolding give_run
give_runs isf i [] r = some r
give_runs isf i (c ∷ cs) r = do r' ← give_run isf i c.bl r; give_runs isf i cs r'

-- The loop over the blocks. The runs are those from before the block's first `Update`.
unfoldable pub give_suits : ℤ → List ℕ → Found × Ai → Option (Found × Ai)
unfolding give_runs
give_suits isf [] r = some r
give_suits isf (i ∷ is) (r, ai) = do
  b ← find_block i ai.blocks
  (r', tried) ← give_runs isf i b.child (r, ai)
  done ← update_block i tried
  give_suits isf is (r', done)

-- Lines 403 to 410.
unfoldable pub choose_found : ℤ → Found → Option (Option MjGrain)
unfolding sort_grain_arrs
choose_found isf r =
    let order : List Bool = true ∷ true ∷ true ∷ true ∷ false ∷ [] in
    if ltb 0 (length r.jiao)
    then (do g ← sort_grain_arrs order r.jiao 0; some (some g))
    else if ltb 0 (length r.for4) && not (gtb_ℤ isf (pos 0))
    then (do g ← sort_grain_arrs order r.for4 0; some (some g))
    else some none

unfoldable pub check_all_jiao : ℤ → Ai → Option (Option MjGrain × Ai)
unfolding give_suits choose_found
check_all_jiao isf ai = do
  bs ← all_blocks ai
  (r, done) ← give_suits isf (suits bs) (record { jiao = []; for4 = [] }, ai)
  g ← choose_found isf r
  some (g, done)
