-- ===== src/Mjai/Sound/Board.antt =====
-- Candidates that are tiles of the three suits.
use route_server.Prelude.{
  ℕ, ◌+◌, ◌*◌, ◌<◌, ℤ, pos, Bool, true, false, ◌&&◌, some, ◌≡◌, refl, ltb, arith,
}
use route_server.Mjai.Grain.{MjGrain}
use route_server.Mjai.Full.{suit}
use route_server.Mjai.Outs.{tile_of}

abbrev low_suit : ℤ → Bool
low_suit (pos i) = ltb i 3
low_suit _ = false

abbrev pub on_board : MjGrain → Bool
on_board g = low_suit g.h && ltb g.n 9

pub on_board-tile : (g : MjGrain) (i : ℕ) → g.h ≡ pos i → i < 3 → g.n < 9 → on_board g ≡ true
on_board-tile g i e l k =
    let low : ltb i 3 ≡ true = ground arith in
    let number : ltb g.n 9 ≡ true = ground arith in rw (e, low, number) refl

-- What a candidate on the board is.
pub record OnBoard (g : MjGrain) : Type 0 where
  pub number : ℕ
  pub suit_eq : g.h ≡ pos number
  pub suit_low : number < 3
  pub place : g.n < 9

pub on_board-OnBoard : (g : MjGrain) → on_board g ≡ true → OnBoard g
on_board-OnBoard g e = of_suit g.h refl
  where
    both : (a b : Bool) → (a && b) ≡ true → (a ≡ true) × (b ≡ true)
    both true true h = (refl, refl)
    both true false h = absurd cc
    both false b h = absurd cc

    of_suit : (h : ℤ) → g.h ≡ h → OnBoard g
    of_suit (pos i) at =
        let (low, number) = both (ltb i 3) (ltb g.n 9) (rw at at e) in
        record { number = i; suit_eq = at; suit_low = ground arith; place = ground arith }
    of_suit _ at = absurd (let h = rw at at e in cc)

pub suit-OnBoard : (g : MjGrain) (b : OnBoard g) → suit g ≡ some b.number
suit-OnBoard g b = rw b.suit_eq refl

pub tile_of-OnBoard : (g : MjGrain) (b : OnBoard g) → tile_of g ≡ some (b.number * 9 + g.n)
tile_of-OnBoard g b = rw b.suit_eq refl
