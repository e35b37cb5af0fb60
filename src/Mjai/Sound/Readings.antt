-- ===== src/Mjai/Sound/Readings.antt =====
-- What a sound player reads of its state: `checkFull` and `GetPublicNum` return.
use route_server.Prelude.{
  ℕ, ◌<◌, ℤ, pos, ◌+ℤ◌, ◌-ℤ◌, Bool, true, false, ◌&&◌, Option, none, some, List, [], ◌∷◌, ◌≡◌, refl,
  inl, inr, length, All, All-map, arith, Bool-cases, Gives, get_elem?-of_lt, All-left, All-right,
  ◌==ℤ◌, gtb_ℤ, ◌==◌, ap, sym, suc, ◌∙◌,
}
use route_server.Mjai.Weight.{Row}
use route_server.Mjai.Grain.{MjGrain}
use route_server.Mjai.NewBlock.{NewBlock, ChildBlock}
use route_server.Mjai.NewBlock.Runs.{places_of}
use route_server.Mjai.Ai.{Ai, UserPublic, all_blocks}
use route_server.Mjai.Full.{
  add_public, get_public_num, Tally, count_tile, count_run, count_runs, tally, check_full,
}
use route_server.Mjai.Search.{suits, unseen}
use route_server.Mjai.Sound.{Grid, Player, InRange, Sound}
use route_server.Mjai.Sound.Rows.{Grid-row, cell-gives, Table-user, now_cell-gives}

-- Any result of a call that returns.
abbrev pub Returns {ℓ} : {A : Type ℓ} → Option A → Type ℓ
Returns m = Gives m (λ _. Unit {0})

count_run-Returns :
    (row : Row) (bl : List ℕ) (t : Tally)
    → length row ≡ 9
    → All (λ j. j < 9) bl
    → Returns (count_run row bl t)
unfolding count_run
count_run-Returns row [] t n h = (t, refl, tt)
count_run-Returns row (j ∷ bl) t n (l, h) =
    let (c, e, _) = get_elem?-of_lt row j (omega arith) in
    rw e (count_run-Returns row bl (count_tile c t) n h)

count_runs-Returns :
    (row : Row) (cs : List ChildBlock) (t : Tally)
    → length row ≡ 9
    → All (λ j. j < 9) (places_of cs)
    → Returns (count_runs row cs t)
unfolding count_runs
count_runs-Returns row [] t n h = (t, refl, tt)
count_runs-Returns row (c ∷ cs) t n h =
    let (t', e, _) = count_run-Returns row c.bl t n (All-left (λ j. j < 9) c.bl (places_of cs) h) in
    rw e (count_runs-Returns row cs t' n (All-right (λ j. j < 9) c.bl (places_of cs) h))

pub tally-Returns :
    (u : UserPublic) (bs : List NewBlock) (t : Tally)
    → Player u
    → All InRange bs
    → Returns (tally u bs t)
unfolding tally
tally-Returns u [] t p h = (some t, refl, tt)
tally-Returns u (b ∷ bs) t p (r, h) =
    elim (Bool-cases (pos b.i ==ℤ u.inv && gtb_ℤ b.sum_len (pos 0))) [
      | inl unwanted ↦ rw unwanted (none, refl, tt)
      | inr other ↦
          let (row, e, n) = Grid-row u.now b.i p.now.grid r.suit in
          let (down, e1, _) = Grid-row u.down b.i p.down r.suit in
          let (t', e2, _) =
            count_runs-Returns row b.child (record t { w = t.w +ℤ b.w }) n r.places in
          rw (other, e, e1, e2) (tally-Returns u bs _ p h)
    ]

pub suits-length : (bs : List NewBlock) → length (suits bs) ≡ length bs
suits-length [] = refl
suits-length (b ∷ bs) = ap suc (suits-length bs)

pub all_blocks-three : (ai : Ai) → Sound ai → (length ai.blocks == 3) ≡ true
all_blocks-three ai s =
    let each = s.blocks.each in
    let three : length ai.blocks ≡ 3 = sym (suits-length ai.blocks) ∙ each.three in ground arith

pub all_blocks-Sound : (ai : Ai) → Sound ai → all_blocks ai ≡ some ai.blocks
all_blocks-Sound ai s = rw (all_blocks-three ai s) refl

-- `checkFull` returns.
pub check_full-Returns : (is_m : Bool) (ai : Ai) → Sound ai → Returns (check_full is_m ai)
unfolding check_full
check_full-Returns is_m ai s =
    let (u, e, p) = Table-user ai.public 3 s.table (omega arith) in
    let (t, e1, _) =
      tally-Returns u ai.blocks (record { w = pos 0; dui = 0; dan = 0; qing = 0; f = 1 }) p
        s.blocks.range in
    rw (all_blocks-Sound ai s, e, e1) (_, refl, tt)

-- What lies before a user, and what it has discarded, in three rows of nine cells each.
pub record Boards (u : UserPublic) : Type 0 where
  pub see : Grid u.see
  pub down : Grid u.down

Boards-of_Player : (us : List UserPublic) → All Player us → All Boards us
Boards-of_Player us h = All-map Player Boards us (λ u p. record { see = p.see; down = p.down }) h

pub add_public-Returns :
    (i j : ℕ) (us : List UserPublic) (n : ℤ)
    → i < 3
    → j < 9
    → All Boards us
    → Returns (add_public i j us n)
unfolding add_public
add_public-Returns i j [] n l k h = (n, refl, tt)
add_public-Returns i j (u ∷ us) n l k (p, h) =
    let (d, e, _) = cell-gives u.down i j p.down l k in
    let (s, e1, _) = cell-gives u.see i j p.see l k in
    rw (e, e1) (add_public-Returns i j us (n +ℤ d +ℤ s) l k h)

-- A tile of one of the suits, with a score.
pub record IsTile (g : MjGrain) : Type 0 where
  pub suit : (i : ℕ) × (g.h ≡ pos i) × (i < 3)
  pub number : g.n < 9
  pub scored : 0 < length g.o

-- `GetPublicNum` returns.
pub get_public_num-Returns :
    (g : MjGrain) (is_now : Bool) (i : ℕ) (ai : Ai)
    → Sound ai
    → g.h ≡ pos i
    → i < 3
    → g.n < 9
    → Returns (get_public_num g is_now ai)
unfolding get_public_num
get_public_num-Returns g false i ai s e l k =
    rw e
      (add_public-Returns i g.n ai.public (pos 0) l k (Boards-of_Player ai.public s.table.players))
get_public_num-Returns g true i ai s e l k =
    let (c, e1, _) = now_cell-gives i g.n ai s l k in
    let (u, e2, _) = Table-user ai.public 3 s.table (omega arith) in
    let here = rw e2 at e1 in
    rw (e, e2, here)
      (add_public-Returns i g.n ai.public c l k (Boards-of_Player ai.public s.table.players))

pub unseen-Returns :
    (gs : List MjGrain) (ai : Ai) (n : ℤ) → Sound ai → All IsTile gs → Returns (unseen gs ai n)
unfolding unseen
unseen-Returns [] ai n s h = (n, refl, tt)
unseen-Returns (g ∷ gs) ai n s (t, h) =
    let (i, e, l) = t.suit in
    let (p, e1, _) = get_public_num-Returns g true i ai s e l t.number in
    rw e1 (unseen-Returns gs ai (n +ℤ (pos 4 -ℤ p)) s h)
