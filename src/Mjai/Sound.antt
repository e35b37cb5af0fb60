-- ===== src/Mjai/Sound.antt =====
-- When the player's operations return: the shape of its state, which the searches of mjai/Ai.go rely
-- on and keep.
pub mod Rows
pub mod Places
pub mod Renewal
pub mod Readings
pub mod Tiles
pub mod Waits
pub mod Choice
pub mod Same
pub mod Judged
pub mod Found
pub mod Claims
pub mod Suits
pub mod Rounds
pub mod Start
pub mod Easy
pub mod Value
pub mod Board
pub mod Weighed
pub mod Cells
pub mod Going
pub mod Shows
pub mod Discards
pub mod Fourth
pub mod TakenOut
pub mod Laid
pub mod Passes
pub mod Counted
pub mod Deal
pub mod Moves
pub mod Setters
pub mod Restart
use route_server.Prelude.{
  ℕ, ◌<◌, ℤ, pos, minus_one, neg_part, Option, none, some, List, [], ◌∷◌, ◌≡◌, ◌⊎◌, get_elem?,
  length, All,
}
use route_server.Mjai.Grain.{MjGrain}
use route_server.Mjai.Weight.{Row}
use route_server.Mjai.Weight.Runs.{Held, Distinct}
use route_server.Mjai.NewBlock.{NewBlock, new_block, update}
use route_server.Mjai.NewBlock.Tagged.{Named}
use route_server.Mjai.NewBlock.Runs.{places_of, occupied, total}
use route_server.Mjai.NewBlock.Ends.{NonNegative}
use route_server.Mjai.Ai.{Ai, UserPublic}
use route_server.Mjai.Search.{suits}

-- Three rows of nine cells.
pub record Grid (rows : List Row) : Type 0 where
  pub three : length rows ≡ 3
  pub nine : All (λ (r : Row). length r ≡ 9) rows

-- A grid of counts.
pub record Counts (rows : List Row) : Type 0 where
  pub grid : Grid rows
  pub counts : All NonNegative rows

-- No suit is given up yet, or one of the three is.
abbrev pub GivenUp : ℤ → Type 0
GivenUp n = (n ≡ minus_one) ⊎ ((i : ℕ) × (n ≡ pos i) × (i < 3))

pub record Player (u : UserPublic) : Type 0 where
  pub now : Counts u.now
  pub see : Grid u.see
  pub down : Grid u.down
  pub inv : GivenUp u.inv

pub record Table (us : List UserPublic) : Type 0 where
  pub four : length us ≡ 4
  pub players : All Player us

-- A suit of the list.
abbrev pub Has : ℕ → List ℕ → Type 0
Has i [] = ⊥
Has i (s ∷ ss) = (s ≡ i) ⊎ Has i ss

-- Each of the three suits once.
pub record EachSuit (ss : List ℕ) : Type 0 where
  pub three : length ss ≡ 3
  pub once : Distinct ss
  pub all : (i : ℕ) → i < 3 → Has i ss

-- A block of one of the suits, with positions of a row.
pub record InRange (b : NewBlock) : Type 0 where
  pub suit : b.i < 3
  pub places : All (λ j. j < 9) (places_of b.child)

pub record Blocks (bs : List NewBlock) : Type 0 where
  pub each : EachSuit (suits bs)
  pub range : All InRange bs

-- Each move of the log has its player, the score and a tile.
abbrev pub Logged : List (List ℕ) → Type 0
Logged ms = All (λ (m : List ℕ). 2 < length m) ms

pub record Sound (ai : Ai) : Type 0 where
  pub table : Table ai.public
  pub blocks : Blocks ai.blocks
  pub logged : Logged ai.see_list

-- The runs of the block hold the occupied positions of the row, its sums are those of the row, and
-- but for `We` the block is what the update with the row gives. `We` has tiles of the suit.
pub record Exact (row : Row) (b : NewBlock) : Type 0 where
  pub places : places_of b.child ≡ occupied 0 row
  pub len : b.sum_len ≡ total row
  pub wei : b.sum_wei ≡ length (occupied 0 row)
  pub named : All (Named b.i) b.we
  pub again : (we : List MjGrain) × (update row (new_block b.i) ≡ some (record b { we = we }))

-- The block is that of the row of its suit.
abbrev pub Fresh : List Row → NewBlock → Type 0
Fresh rows b = (row : Row) × (get_elem? rows b.i ≡ some row) × Exact row b

-- So it is for each block, but perhaps for those of the suits `S`, or of the suit `i`.
abbrev pub FreshIf : (ℕ → Type 0) → List Row → List NewBlock → Type 0
FreshIf S rows bs = All (λ (b : NewBlock). S b.i ⊎ Fresh rows b) bs

abbrev pub FreshBut : ℕ → List Row → List NewBlock → Type 0
FreshBut i rows bs = FreshIf (λ k. k ≡ i) rows bs

abbrev pub AllFresh : List Row → List NewBlock → Type 0
AllFresh rows bs = All (Fresh rows) bs

-- The rows of the player's own hand.
abbrev pub hand : List UserPublic → List Row
hand us = hand_of (get_elem? us 3)
  where
    hand_of : Option UserPublic → List Row
    hand_of none = []
    hand_of (some u) = u.now
