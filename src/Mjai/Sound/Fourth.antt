-- ===== src/Mjai/Sound/Fourth.antt =====
-- mjai/Ai.go, lines 340 to 351: the fourth tile that `SelfSee` takes out of the hand to try it.
use route_server.Prelude.{
  ℕ, ◌<◌, ℤ, pos, ◌-ℤ◌, int_laws, true, false, some, List, [], ◌≡◌, refl, ap, ◌∙◌, length, arith,
  >>=-eq-some, ◌==◌,
}
use route_server.Mjai.Grain.{MjGrain}
use route_server.Mjai.Ai.{Ai, now_cell, change_now, update_blocks_weight}
use route_server.Mjai.Search.{check_jiao}
use route_server.Mjai.Search.Restore.{check_jiao-public, update_block-public}
use route_server.Mjai.Outs.{add_fourth}
use route_server.Mjai.Sound.Waits.{now_cell-public}
use route_server.Mjai.Sound.Shows.{change_now-there}

-- `SelfSee` tries `n` tiles that the hand has. When some tile completes the hand (`gr` is not empty),
-- and none does after the `n` tiles are taken out, it does not show them, and the hand that it leaves
-- is without them.
pub add_fourth-lost :
    (isf : ℤ) (i j : ℕ) (n : ℤ) (gr : List MjGrain) (ai found without ai' : Ai)
    → now_cell i j ai ≡ some n
    → check_jiao isf true ai ≡ some (gr, found)
    → 0 < length gr
    → update_blocks_weight false i j n found ≡ some without
    → check_jiao isf true without ≡ some ([], ai')
    → (add_fourth isf i j n ai ≡ some (false, ai')) × (now_cell i j ai' ≡ some (pos 0))
unfolding add_fourth update_blocks_weight
add_fourth-lost isf i j n gr ai found without ai' at e some_tile e1 e2 =
    let ready : (length gr == 0) ≡ false = ground arith in
    let (less, e3, h) = >>=-eq-some (change_now (λ c. c -ℤ n) i j found) _ e1 in
    let there = now_cell-public i j ai found (check_jiao-public isf true ai gr found e) ∙ at in
    let gone : n -ℤ n ≡ pos 0 = omega int_laws in
    let shown : add_fourth isf i j n ai ≡ some (false, ai') = rw (e, ready, e1, e2) refl in
    (
      shown,
      now_cell-public i j less ai'
            (check_jiao-public isf true without [] ai' e2 ∙ update_block-public i less without h)
          ∙ change_now-there (λ c. c -ℤ n) i j found less n there e3
          ∙ ap some gone,
    )
