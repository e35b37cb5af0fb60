-- ===== src/Robot/Game.antt =====
-- A game of robot/SCMJ.go: the deal establishes what the claims rely on, and they keep it.
use route_server.Prelude.{
  ℕ, ◌<◌, ◌≤◌, false, Option, some, List, [], ◌∷◌, ◌>>=◌, ◌≡◌, refl, inr, get_elem?, length, drop,
  All, arith, Gives, Gives-bind, get_elem?-of_lt, lt-length_of_get_elem?,
}
use route_server.Comm.{byte_to_int}
use route_server.Mjai.Ai.{Ai, init}
use route_server.Mjai.Sound.Waits.{Steady}
use route_server.Mjai.Sound.{Logged}
use route_server.Mjai.Sound.Claims.{see_outs-returns}
use route_server.Mjai.Sound.Start.{Dealt, init_now-Steady}
use route_server.Mjai.Sound.Moves.{set_see_list-Steady}
use route_server.Mjai.Sound.Setters.{
  init-Table, set_now_val-Steady, get_valid-Returns, get_last_see-Returns,
}
use route_server.Robot.Discard.{Holds, full_val_from-Steady, choose_out-Steady}
use route_server.Robot.Scmj.{slice_to, see_claim, start_game, note_score, note_move, call_scmj}

-- A player with four users, before or after a deal.
pub record Seated (ai : Ai) : Type 0 where
  pub four : length ai.public ≡ 4
  pub dealt : Dealt ai.blocks

Seated-of_Steady : (ai : Ai) → Steady ai → Seated ai
Seated-of_Steady ai s = record { four = s.sound.table.four; dealt = inr s.sound.blocks }

pub init-Logged : (ai : Ai) → Logged (init ai).see_list
unfolding init
init-Logged ai = tt

pub init-blocks : (ai : Ai) → (init ai).blocks ≡ ai.blocks
unfolding init
init-blocks ai = refl

-- Method 2 with a message of more than 14 bytes returns for a player with four users that has either
-- no block yet or one for each suit, whatever was played before; the player is then sound, and its
-- blocks match the hand.
pub start_game-Steady :
    (b : List ℕ) (ai : Ai) → 14 < length b → Seated ai → Gives (start_game b ai) (λ r. Steady r.1)
unfolding start_game
start_game-Steady b ai long s =
    let dealt : Dealt (init ai).blocks = rw (init-blocks ai) s.dealt in
    Gives-bind
      (init_now-Steady (slice_to 14 b) (init ai) dealt (init-Table ai s.four) (init-Logged ai))
      (λ ai1 e s1. Gives-bind (get_elem?-of_lt b 14 long) (λ base e1 _.
        Gives-bind (get_valid-Returns 3 ai1 (omega arith) s1.sound.table) (λ a e2 _. (
          _,
          refl,
          record {
            sound = record {
              table = s1.sound.table;
              blocks = s1.sound.blocks;
              logged = s1.sound.logged;
            };
            fresh = s1.fresh;
          },
        ))))

see_claim-Steady :
    (b : List ℕ) (ai : Ai) → 4 ≤ length b → Steady ai → Gives (see_claim b ai) (λ r. Steady r.1)
unfolding see_claim
see_claim-Steady b ai long s = Gives-bind (get_last_see-Returns ai s.sound.table) (λ last e _.
    Gives-bind (full_val_from-Steady 4 b ai long s) (λ r e1 s1.
      Gives-bind (see_outs-returns last (slice_to 4 b) r.0 r.1 s1) (λ v e2 s2. (_, refl, s2))))

note_score-Steady :
    (b : List ℕ) (n : ℕ) (ai : Ai)
    → get_elem? b 0 ≡ some n
    → n < 4
    → 0 < length b
    → Steady ai
    → Gives (note_score b ai) (λ r. Steady r.1)
unfolding note_score
note_score-Steady b n ai at l long s =
    rw at (
      Gives-bind (set_now_val-Steady n (byte_to_int (drop 1 b)) ai l s) (λ ai' e s1. (_, refl, s1)))

note_move-Steady :
    (b : List ℕ) (n : ℕ) (ai : Ai)
    → get_elem? b 0 ≡ some n
    → n < 4
    → 2 < length b
    → Steady ai
    → Gives (note_move b ai) (λ r. Steady r.1)
unfolding note_move
note_move-Steady b n ai at l long s =
    Gives-bind (set_see_list-Steady b n ai at l long s) (λ ai' e s1. (_, refl, s1))

-- The first byte is the user `n` of the table.
abbrev pub ByUser : ℕ → List ℕ → Type 0
ByUser n b = (get_elem? b 0 ≡ some n) × (n < 4)

-- The messages of a game: a deal, the claims that are offered, a hand to discard from, a score, a
-- move, and the message that is only logged, each as long as the method needs.
pub data Sent (m : ℕ × List ℕ) : Type 0 where
  deal : m.0 ≡ 2 → 14 < length m.1 → Sent m
  claims : m.0 ≡ 5 → 4 ≤ length m.1 → Sent m
  discard : (t : ℕ) → m.0 ≡ 6 → 14 ≤ length m.1 → Holds (slice_to 14 m.1) t → Sent m
  score : (n : ℕ) → m.0 ≡ 9 → ByUser n m.1 → Sent m
  move : (n : ℕ) → m.0 ≡ 10 → 2 < length m.1 → ByUser n m.1 → Sent m
  note : m.0 ≡ 11 → Sent m

-- The methods of the messages, one after the other.
unfoldable pub play : List (ℕ × List ℕ) → Ai → Option Ai
unfolding call_scmj
play [] ai = some ai
play ((k, b) ∷ ms) ai = do (reply, ai') ← call_scmj k b ai; play ms ai'

call_scmj-Steady :
    (k : ℕ) (b : List ℕ) (ai : Ai)
    → Sent (k, b)
    → Steady ai
    → Gives (call_scmj k b ai) (λ r. Steady r.1)
unfolding call_scmj
call_scmj-Steady k b ai (deal e long) s = rw e (start_game-Steady b ai long (Seated-of_Steady ai s))
call_scmj-Steady k b ai (claims e long) s = rw e (see_claim-Steady b ai long s)
call_scmj-Steady k b ai (discard t e long holds) s =
    rw e (choose_out-Steady false b t ai long holds (λ h. absurd cc) s)
call_scmj-Steady k b ai (score n e (at, l)) s =
    rw e (note_score-Steady b n ai at l (lt-length_of_get_elem? b 0 at) s)
call_scmj-Steady k b ai (move n e long (at, l)) s = rw e (note_move-Steady b n ai at l long s)
call_scmj-Steady k b ai (note e) s = rw e (([], ai), refl, s)

-- On a sound player whose blocks match the hand every sequence of these messages is answered to its
-- end, and leaves the player sound and its blocks matching the hand: deals of more than 14 bytes,
-- offered claims of at least 4, hands of at least 14 with a tile of the suits, to discard from without
-- a show (method 6), scores of a user below 4, moves of one of at least three bytes, and the message
-- that is only logged.
pub play-Steady :
    (ms : List (ℕ × List ℕ)) (ai : Ai) → All Sent ms → Steady ai → Gives (play ms ai) Steady
unfolding play
play-Steady [] ai h s = (ai, refl, s)
play-Steady ((k, b) ∷ ms) ai (h, hs) s =
    Gives-bind (call_scmj-Steady k b ai h s) (λ r e s1. play-Steady ms r.1 hs s1)
