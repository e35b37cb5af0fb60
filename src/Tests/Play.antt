-- ===== src/Tests/Play.antt =====
-- A dealt player of mjai: the searches return on it.
use mathlib.Core.List.{Perm}
use route_server.Prelude.{
  ◌+ℤ◌, ◌-ℤ◌, ◌≤◌, ◌≡◌, some, arith, pos, false, get_elem?, length, List, true, [], ◌∷◌, Gives,
  refl, inl, ◌<◌, Option, none, ◌∙◌, ap, Bool,
}
use route_server.Mjai.Ai.{
  Ai, new_ai, new_user, init, init_now, get_valid, now_cell, find_block, update_blocks_weight,
}
use route_server.Mjai.Full.{check_full}
use route_server.Mjai.Sound.Value.{check_full_bound}
use route_server.Mjai.Search.{check_jiao, check_all_jiao}
use route_server.Mjai.Grain.{MjGrain}
use route_server.Mjai.Weight.{get_weight_val}
use route_server.Mjai.NewBlock
use route_server.Mjai.NewBlock.{sort_new_block}
use route_server.Mjai.Outs.{easy_outs, outs, out_discard, add_fourth}
use route_server.Mjai.Sound.TakenOut.{TakenOut}
use route_server.Mjai.Sound.Passes.{out_discard-passes}
use route_server.Mjai.Sound.Shows.{Spare}
use route_server.Mjai.Sound.Discards.{outs-returns}
use route_server.Mjai.Sound.Fourth.{add_fourth-lost}
use route_server.Mjai.Sound.Easy.{in_hand, easy_outs-in_hand}
use route_server.Mjai.SeeOuts.{see_outs}
use route_server.Mjai.Search.Expected.{expected_waits}
use route_server.Mjai.Sound.Waits.{Steady}
use route_server.Mjai.Sound.Same.{shed, check_all_jiao-same}
use route_server.Mjai.Sound.Judged.{Ranked}
use route_server.Mjai.Sound.Found.{check_jiao-waits}
use route_server.Mjai.Sound.Claims.{see_outs-returns}
use route_server.Mjai.Sound.Start.{init_now-Steady}
use route_server.Tests.Players.{or_else, hand, player, empty-Table, player-Steady}

init_now-Steady_example : Gives (init_now hand (init new_ai)) Steady
unfolding init
init_now-Steady_example = init_now-Steady hand (init new_ai) (inl refl) empty-Table tt

check_jiao-waits_example : Gives (expected_waits (pos 0) true player) (λ ws.
    (gr : List MjGrain) × (ai' : Ai) × (check_jiao (pos 0) true player ≡ some (gr, ai'))
    × Perm gr ws
    × Ranked gr
    × Steady ai'
    × (shed ai' ≡ shed player))
check_jiao-waits_example = check_jiao-waits (pos 0) true player player-Steady

check_all_jiao-same_example :
    Gives (check_all_jiao (pos 0) player) (λ r. Steady r.1 × (shed r.1 ≡ shed player))
check_all_jiao-same_example = check_all_jiao-same (pos 0) player player-Steady

see_outs-returns_example : Gives (see_outs (pos 14) (1 ∷ 3 ∷ []) (pos 0) player) (λ r. Steady r.1)
see_outs-returns_example = see_outs-returns (pos 14) (1 ∷ 3 ∷ []) (pos 0) player player-Steady

easy_outs-in_hand_example : (g : MjGrain) × (easy_outs player ≡ some g) × (in_hand player g ≡ true)
unfolding player NewBlock.init ◌+ℤ◌ get_weight_val sort_new_block ◌-ℤ◌
easy_outs-in_hand_example = easy_outs-in_hand 0 0 0 player player-Steady (omega arith) refl

check_full_bound_example : Gives (check_full true player) (λ v. v ≤ 672)
check_full_bound_example = check_full_bound true player player-Steady

player-Spare : Spare 1 5 player
unfolding player NewBlock.init ◌+ℤ◌ get_weight_val sort_new_block ◌-ℤ◌
player-Spare = record {
  held = (0, refl);
  bare = (or_else new_user (get_elem? player.public 3), refl, refl);
}

player-valid : get_valid 3 player ≡ some (pos 0)
unfolding player NewBlock.init ◌+ℤ◌ get_weight_val sort_new_block ◌-ℤ◌ get_valid
player-valid = refl

out_discard-passes_example :
    Gives (out_discard (pos 3) player) (λ r. (length r.0 ≡ 3) × TakenOut r.0 player r.1)
out_discard-passes_example =
    out_discard-passes 3 0 1 5 player (omega arith) player-Steady player-valid (omega arith)
      (omega arith) (λ e. absurd (omega arith)) player-Spare.held

outs-returns_example : Gives (outs (pos 0) true player) (λ r. Steady r.1)
outs-returns_example =
    outs-returns (pos 0) true 0 1 5 player player-Steady player-valid (omega arith) (omega arith)
      player-Spare

-- A hand of one tile, which that tile would complete.
abbrev single : Ai
single = or_else new_ai (init_now (14 ∷ []) (init new_ai))

-- What completes that hand, and the players that the steps of `SelfSee` leave.
abbrev completing : List MjGrain × Ai
completing = or_else ([], single) (check_jiao (pos 0) true single)

abbrev emptied : Ai
emptied = or_else single (update_blocks_weight false 1 5 (pos 1) completing.1)

abbrev remaining : List MjGrain × Ai
remaining = or_else ([], single) (check_jiao (pos 0) true emptied)

abbrev succeeds {ℓ} : {A : Type ℓ} → Option A → Bool
succeeds none = false
succeeds (some x) = true

or_else-some {ℓ} : {A : Type ℓ} (d : A) (m : Option A) → succeeds m ≡ true → m ≡ some (or_else d m)
or_else-some d none h = absurd (cc)
or_else-some d (some x) h = refl

completing_found : check_jiao (pos 0) true single ≡ some completing
unfolding init_now init NewBlock.init ◌+ℤ◌ get_weight_val sort_new_block ◌-ℤ◌ check_jiao check_full
    find_block update_blocks_weight
completing_found = or_else-some ([], single) (check_jiao (pos 0) true single) refl

completing_some : 0 < length completing.0
unfolding init_now init NewBlock.init ◌+ℤ◌ get_weight_val sort_new_block ◌-ℤ◌ check_jiao check_full
    find_block update_blocks_weight
completing_some = omega arith

emptied_taken : update_blocks_weight false 1 5 (pos 1) completing.1 ≡ some emptied
unfolding init_now init NewBlock.init ◌+ℤ◌ get_weight_val sort_new_block ◌-ℤ◌ check_jiao check_full
    find_block update_blocks_weight
emptied_taken = or_else-some single (update_blocks_weight false 1 5 (pos 1) completing.1) refl

remaining_none : remaining.0 ≡ []
unfolding init_now init NewBlock.init ◌+ℤ◌ get_weight_val sort_new_block ◌-ℤ◌ check_jiao check_full
    find_block update_blocks_weight
remaining_none = refl

remaining_found : check_jiao (pos 0) true emptied ≡ some remaining
unfolding init_now init NewBlock.init ◌+ℤ◌ get_weight_val sort_new_block ◌-ℤ◌ check_jiao check_full
    find_block update_blocks_weight
remaining_found = or_else-some ([], single) (check_jiao (pos 0) true emptied) refl

single_has : now_cell 1 5 single ≡ some (pos 1)
unfolding init_now init NewBlock.init ◌+ℤ◌ get_weight_val sort_new_block ◌-ℤ◌ check_jiao check_full
    find_block update_blocks_weight
single_has = refl

add_fourth-lost_example :
    (add_fourth (pos 0) 1 5 (pos 1) single ≡ some (false, remaining.1))
    × (now_cell 1 5 remaining.1 ≡ some (pos 0))
add_fourth-lost_example =
    add_fourth-lost (pos 0) 1 5 (pos 1) completing.0 single completing.1 emptied remaining.1
      single_has completing_found completing_some emptied_taken
      (remaining_found ∙ ap (λ g. some (g, remaining.1)) remaining_none)
