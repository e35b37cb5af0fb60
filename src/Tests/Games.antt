-- ===== src/Tests/Games.antt =====
-- A deal, and messages that follow it.
use route_server.Prelude.{
  ℕ, List, [], ◌∷◌, ◌++◌, refl, inl, arith, Gives, true, get_elem?, ◌+ℤ◌, ◌-ℤ◌,
}
use route_server.Mjai.Ai.{new_ai, new_user}
use route_server.Mjai.NewBlock
use route_server.Mjai.NewBlock.{sort_new_block}
use route_server.Mjai.Weight.{get_weight_val}
use route_server.Mjai.Sound.Waits.{Steady}
use route_server.Robot.Scmj.{slice_to, start_game, choose_out}
use route_server.Robot.Discard.{Holds, Bare, choose_out-Steady}
use route_server.Robot.Game.{
  deal, claims, discard, score, move, Seated, play, start_game-Steady, play-Steady,
}
use route_server.Tests.Players.{or_else, hand, player, player-Steady}

player-Bare : Bare 14 player
unfolding player NewBlock.init ◌+ℤ◌ get_weight_val sort_new_block ◌-ℤ◌
player-Bare = (or_else new_user (get_elem? player.public 3), refl, refl)

new_ai-Seated : Seated new_ai
new_ai-Seated = record { four = refl; dealt = inl refl }

start_game-Steady_example : Gives (start_game (hand ++ 10 ∷ []) new_ai) (λ r. Steady r.1)
start_game-Steady_example = start_game-Steady (hand ++ 10 ∷ []) new_ai (omega arith) new_ai-Seated

-- A score, a discard, an offered claim, a tile that was taken, a hand to discard from, and another
-- deal.
abbrev messages : List (ℕ × List ℕ)
messages =
    (9, 3 ∷ 100 ∷ [])
    ∷ (10, 1 ∷ 90 ∷ 14 ∷ [])
    ∷ (5, 1 ∷ 3 ∷ 0 ∷ 4 ∷ 50 ∷ [])
    ∷ (10, 2 ∷ 90 ∷ 40 ∷ [])
    ∷ (6, hand ++ 50 ∷ [])
    ∷ (2, hand ++ 10 ∷ [])
    ∷ []

hold_14 : Holds (slice_to 14 (hand ++ 50 ∷ [])) 14
unfolding slice_to
hold_14 = record { place = 6; there = refl; tile = omega arith }

choose_out-Steady_example : Gives (choose_out true (hand ++ 50 ∷ []) player) (λ r. Steady r.1)
choose_out-Steady_example =
    choose_out-Steady true (hand ++ 50 ∷ []) 14 player (omega arith) hold_14 (λ _. player-Bare)
      player-Steady

play-Steady_example : Gives (play messages player) Steady
play-Steady_example =
    play-Steady messages player
      (
        score 3 refl (refl, omega arith),
        (
          move 1 refl (omega arith) (refl, omega arith),
          (
            claims refl (omega arith),
            (
              move 2 refl (omega arith) (refl, omega arith),
              (discard 14 refl (omega arith) hold_14, (deal refl (omega arith), tt)),
            ),
          ),
        ),
      )
      player-Steady
