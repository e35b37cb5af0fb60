-- ===== src/Robot/Pass.antt =====
-- Method 1 of robot/SCMJ.go: three tiles are passed on.
use route_server.Prelude.{ℕ, some, List, ◌≡◌, length}
use route_server.Mjai.Ai.{Ai, init, init_now}
use route_server.Mjai.Sound.TakenOut.{TakenOut}
use route_server.Robot.Scmj.{slice_to}

-- What method 1 replies and leaves: three tiles of the suits, and the hand of the message less these
-- tiles.
pub record Threes (b : List ℕ) (ai : Ai) (r : List ℕ × Ai) : Type 0 where
  pub three : length r.0 ≡ 3
  pub dealt : Ai
  pub deal : init_now (slice_to 14 b) (init ai) ≡ some dealt
  pub out : TakenOut r.0 dealt r.1
