-- ===== src/Mjai/SeeOuts.antt =====
-- mjai/Ai.go, lines 544 to 647: which of the offered claims to make on a discarded tile.
pub mod Offered
use route_server.Prelude.{
  ℕ, ◌-◌, ◌/◌, ◌%◌, ℤ, pos, pos_part, Bool, true, false, not, ◌||◌, Option, none, some, List, [],
  ◌∷◌, ◌>>=◌, ◌==◌, gtb_ℤ, ltb_ℤ, ltb, if◌then◌else◌, length, set, replicate,
}
use route_server.Mjai.Grain.{MjGrain}
use route_server.Mjai.Ai.{Ai, now_cell, change_now, update_block}
use route_server.Mjai.Full.{check_full}
use route_server.Mjai.Search.{inc, check_jiao, check_all_jiao}

-- Lines 560 to 567: the offered claims 0 to 3 from the highest down, 5 for one that is not offered.
unfoldable pub offers : List ℕ → List ℕ → List ℕ
offers ks [] = ks
offers ks (k ∷ key) = offers (if ltb 3 k then ks else set ks (3 - k) k) key

abbrev is_some : Option MjGrain → Bool
is_some none = false
is_some (some g) = true

-- Lines 571 to 580, to win: does the claim end the loop?
unfoldable pub claim_win : ℕ → ℕ → ℤ → Ai → Option (Bool × Ai)
claim_win i j isf ai = do
  more ← change_now inc i j ai
  fresh ← update_block i more
  f ← check_full false fresh
  some (f == 0 || not (ltb_ℤ (pos f) isf), fresh)

-- Lines 599 to 613, three of a kind: the tiles of the pair are counted out of the hand first.
unfoldable pub claim_pair : ℕ → ℕ → ℤ → Ai → Option (Bool × Ai)
claim_pair i j isf ai = do
  ns ← now_cell i j ai
  if ltb_ℤ ns (pos 2) then some (true, ai) else (do
    (gr1, ai1) ← check_jiao isf true ai
    if length gr1 == 0 then some (true, ai1) else (do
      ai2 ← change_now (λ _. pos 0) i j ai1
      ai3 ← update_block i ai2
      (g, ai4) ← check_all_jiao isf ai3
      some (is_some g, ai4)))

-- The loop over the claims.
unfoldable pub claim : ℕ → ℕ → ℤ → List ℕ → Ai → Option (ℕ × Ai)
unfolding claim_win claim_pair
claim i j isf [] ai = some (0, ai)
claim i j isf (k ∷ ks) ai =
    if k == 3
    then (do
      (done, ai') ← claim_win i j isf ai
      if done then some (k, ai') else claim i j isf ks ai')
    else if k == 2
    then some (k, ai)
    else if k == 1
    then (do
      (done, ai') ← claim_pair i j isf ai
      if done then some (k, ai') else claim i j isf ks ai')
    else if k == 0
    then some (0, ai)
    else claim i j isf ks ai

unfoldable pub see_outs : ℤ → List ℕ → ℤ → Ai → Option (ℕ × Ai)
unfolding offers claim
see_outs v key isf ai =
    if ltb_ℤ v (pos 0) || gtb_ℤ v (pos 26)
    then some (0, ai)
    else claim (pos_part v / 9) (pos_part v % 9) isf (offers (replicate 4 5) key) ai
