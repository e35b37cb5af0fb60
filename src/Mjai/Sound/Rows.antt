-- ===== src/Mjai/Sound/Rows.antt =====
-- Reading and changing the cells of a sound state.
use mathlib.Core.Option.{some-injective}
use route_server.Prelude.{
  ℕ, ◌<◌, ℤ, neg_part, some, List, [], ◌∷◌, ◌≡◌, refl, sym, ap, ◌∙◌, get_elem?, set, length, Bool,
  true, false, ◌==◌, ◌⊎◌, ◌≢◌, inl, inr, get_elem?-set_ne, arith, Gives, Gives-bind, get_elem?-All,
  get_elem?-of_lt, All-set, length-set, All-get_elem?, get_elem?-set_self,
}
use route_server.Mjai.Weight.{Row}
use route_server.Mjai.NewBlock.Ends.{NonNegative}
use route_server.Mjai.Ai.{Ai, UserPublic, cell, change, now_cell, change_now, put_user}
use route_server.Mjai.NewBlock.{NewBlock}
use route_server.Mjai.Sound.{hand, Fresh, FreshBut, Grid, Counts, Player, Table, Sound}

pub Grid-row :
    (rows : List Row) (i : ℕ)
    → Grid rows
    → i < 3
    → Gives (get_elem? rows i) (λ (r : Row). length r ≡ 9)
Grid-row rows i g l =
    let n = g.three in get_elem?-All (λ (r : Row). length r ≡ 9) rows i g.nine (omega arith)

pub cell-gives :
    (rows : List Row) (i j : ℕ) → Grid rows → i < 3 → j < 9 → Gives (cell rows i j) (λ c. Unit {0})
cell-gives rows i j g l k =
    Gives-bind (Grid-row rows i g l) (λ r e n. get_elem?-of_lt r j (omega arith))

pub Counts-row :
    (rows : List Row) (i : ℕ)
    → Counts rows
    → i < 3
    → Gives (get_elem? rows i) (λ (r : Row). (length r ≡ 9) × NonNegative r)
Counts-row rows i c l =
    let (r, e, n) = Grid-row rows i c.grid l in
    (r, e, (n, All-get_elem? NonNegative rows i c.counts e))

-- A grid of counts after a change of a cell.
pub record Put (f : ℤ → ℤ) (i j : ℕ) (rows rows' : List Row) : Type 0 where
  pub counts : Counts rows'
  pub moved : (c : ℤ) → cell rows i j ≡ some c → cell rows' i j ≡ some (f c)
  pub others : (k : ℕ) → i ≢ k → get_elem? rows' k ≡ get_elem? rows k

pub change-Put :
    (f : ℤ → ℤ) (rows : List Row) (i j : ℕ)
    → Counts rows
    → i < 3
    → j < 9
    → ((c : ℤ) → cell rows i j ≡ some c → neg_part c ≡ 0 → neg_part (f c) ≡ 0)
    → Gives (change f rows i j) (Put f i j rows)
change-Put f rows i j g l k keeps =
    let (r, e, (n, nn)) = Counts-row rows i g l in
    let (c, e1, nc) = get_elem?-All (λ c. neg_part c ≡ 0) r j nn (omega arith) in
    let at : cell rows i j ≡ some c = rw (e, e1) refl in
    let three = g.grid.three in
    let row_there = get_elem?-set_self rows i (set r j (f c)) (omega arith) in
    let cell_there = get_elem?-set_self r j (f c) (omega arith) in
    let now_at : cell (set rows i (set r j (f c))) i j ≡ some (f c) =
      rw (row_there, cell_there) refl in
    rw (e, e1)
      (
        set rows i (set r j (f c)),
        refl,
        record {
          counts = record {
            grid = record {
              three = length-set rows i _ ∙ three;
              nine =
                  All-set (λ (r : Row). length r ≡ 9) rows i _ g.grid.nine
                    (length-set r j (f c) ∙ n);
            };
            counts =
                All-set NonNegative rows i _ g.counts
                  (All-set (λ c. neg_part c ≡ 0) r j (f c) nn (keeps c at nc));
          };
          moved = λ d h. now_at ∙ ap (λ t. some (f t)) (some-injective _ _ (sym at ∙ h));
          others = λ m ne. get_elem?-set_ne rows _ ne;
        },
      )

pub Table-user : (us : List UserPublic) (n : ℕ) → Table us → n < 4 → Gives (get_elem? us n) Player
Table-user us n t l = let four = t.four in get_elem?-All Player us n t.players (omega arith)

pub Table-set :
    (us : List UserPublic) (n : ℕ) (u : UserPublic) → Table us → Player u → Table (set us n u)
Table-set us n u t p = record {
  four = length-set us n u ∙ t.four;
  players = All-set Player us n u t.players p;
}

pub now_cell-gives :
    (i j : ℕ) (ai : Ai) → Sound ai → i < 3 → j < 9 → Gives (now_cell i j ai) (λ c. neg_part c ≡ 0)
now_cell-gives i j ai s l k = Gives-bind (Table-user ai.public 3 s.table (omega arith)) (λ u e p.
    Gives-bind (Counts-row u.now i p.now l)
      (λ r e1 n. get_elem?-All (λ c. neg_part c ≡ 0) r j n.1 (let w = n.0 in omega arith)))

-- A player after a change of a cell of the hand.
pub record Changed (f : ℤ → ℤ) (i j : ℕ) (ai ai' : Ai) : Type 0 where
  pub sound : Sound ai'
  pub blocks_eq : ai'.blocks ≡ ai.blocks
  pub moved : (c : ℤ) → now_cell i j ai ≡ some c → now_cell i j ai' ≡ some (f c)
  pub fresh : FreshBut i (hand ai.public) ai.blocks → FreshBut i (hand ai'.public) ai'.blocks

FreshBut-others :
    (i : ℕ) (rows rows' : List Row) (bs : List NewBlock)
    → ((k : ℕ) → i ≢ k → get_elem? rows' k ≡ get_elem? rows k)
    → FreshBut i rows bs
    → FreshBut i rows' bs
FreshBut-others i rows rows' [] others f = tt
FreshBut-others i rows rows' (b ∷ bs) others (inl here, fs) =
    (inl here, FreshBut-others i rows rows' bs others fs)
FreshBut-others i rows rows' (b ∷ bs) others (inr (row, e, exact), fs) =
    (here (b.i == i) refl, FreshBut-others i rows rows' bs others fs)
  where
    here : (t : Bool) → (b.i == i) ≡ t → (b.i ≡ i) ⊎ Fresh rows' b
    here true h = inl (ground arith)
    here false h = inr (row, others b.i (λ k. absurd (ground arith)) ∙ e, exact)

pub change_now-gives :
    (f : ℤ → ℤ) (i j : ℕ) (ai : Ai)
    → Sound ai
    → i < 3
    → j < 9
    → ((c : ℤ) → now_cell i j ai ≡ some c → neg_part c ≡ 0 → neg_part (f c) ≡ 0)
    → Gives (change_now f i j ai) (Changed f i j ai)
change_now-gives f i j ai s l k keeps =
    let (u, e, p) = Table-user ai.public 3 s.table (omega arith) in
    let there = λ (c : ℤ) (h : cell u.now i j ≡ some c). keeps c (rw e h) in
    let (now, e1, put) = change-Put f u.now i j p.now l k there in
    let u' : UserPublic = record u { now = now } in
    let four = s.table.four in
    let user_there = get_elem?-set_self ai.public 3 u' (omega arith) in
    rw (e, e1)
      (
        put_user 3 u' ai,
        refl,
        record {
          sound = record {
            table =
                Table-set ai.public 3 u' s.table
                  (record { now = put.counts; see = p.see; down = p.down; inv = p.inv });
            blocks = s.blocks;
            logged = s.logged;
          };
          blocks_eq = refl;
          moved = λ c h. rw user_there (put.moved c (rw e at h));
          fresh =
              λ fs. rw user_there (FreshBut-others i u.now now ai.blocks put.others (rw e at fs));
        },
      )
