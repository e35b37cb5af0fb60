-- ===== src/Mjai/Block/Agree.antt =====
-- `Block` and `NewBlock` on the same row: they split it into the same runs, with the same weight.
use mathlib.Core.Option.{some-injective}
use route_server.Prelude.{
  ℕ, suc, ◌+◌, ℤ, pos, ◌+ℤ◌, int_laws, true, false, some, List, [], ◌∷◌, ◌++◌, ◌==ℤ◌, ltb, ◌≡◌,
  refl, sym, ap, ◌∙◌, subst, inl, inr, length, arith, Bool-cases, >>=-eq-some, length-append,
}
use route_server.Mjai.Weight.{Row, get_weight_val}
use route_server.Mjai.NewBlock
use route_server.Mjai.NewBlock.{
  ChildBlock, NewBlock, no_child, flush, grow, split, weigh, new_block,
}
use route_server.Mjai.Block
use route_server.Mjai.Block.{close_run, split_row, weigh_runs}

abbrev pub runs_of : List ChildBlock → List (List ℕ)
runs_of [] = []
runs_of (c ∷ cs) = c.bl ∷ runs_of cs

runs_of-append : (cs ds : List ChildBlock) → runs_of (cs ++ ds) ≡ runs_of cs ++ runs_of ds
runs_of-append [] ds = refl
runs_of-append (c ∷ cs) ds = ap (λ t. c.bl ∷ t) (runs_of-append cs ds)

-- The two blocks before the weighing.
record Alike (b : Block.Block) (c : NewBlock) : Type 0 where
  runs : b.bl ≡ runs_of c.child
  num : b.num ≡ c.sum_len
  numi : b.numi ≡ c.sum_wei
  suit : b.i ≡ c.i

-- With an open run, which `Block` has counted already.
record Ahead (run : List ℕ) (b : Block.Block) (r : ChildBlock) (c : NewBlock) : Type 0 where
  same : run ≡ r.bl
  size : r.wei ≡ length r.bl
  none_yet : r.wei ≡ 0 → r.len ≡ pos 0
  runs : b.bl ≡ runs_of c.child
  num : b.num ≡ c.sum_len +ℤ r.len
  numi : b.numi ≡ c.sum_wei + r.wei
  suit : b.i ≡ c.i

+ℤ_zero : (a : ℤ) → a +ℤ pos 0 ≡ a
+ℤ_zero a = omega int_laws

close_run-Alike :
    (run : List ℕ) (b : Block.Block) (r : ChildBlock) (c : NewBlock)
    → Ahead run b r c
    → Alike (close_run run b) (flush r c)
close_run-Alike [] b r c a =
    let none : r.wei ≡ 0 = a.size ∙ sym (ap length a.same) in
    let no_run : ltb 0 r.wei ≡ false = ground arith in
    rw no_run (record {
      runs = a.runs;
      num = a.num ∙ rw (a.none_yet none) (+ℤ_zero c.sum_len);
      numi = a.numi ∙ omega arith;
      suit = a.suit;
    })
close_run-Alike (j ∷ run) b r c a =
    let size = ap length a.same in
    let counted = a.size in
    let some_run : ltb 0 r.wei ≡ true = ground arith in
    rw some_run (record {
      runs =
          ap (λ t. t ++ (j ∷ run) ∷ []) a.runs
          ∙ ap (λ t. runs_of c.child ++ t ∷ []) a.same
          ∙ sym (runs_of-append c.child (r ∷ []));
      num = a.num;
      numi = a.numi;
      suit = a.suit;
    })

split-Alike :
    (j : ℕ) (row : Row) (run : List ℕ) (b : Block.Block) (r : ChildBlock) (c : NewBlock)
    → Ahead run b r c
    → Alike (split_row j row run b) (split j row r c)
unfolding split_row split
split-Alike j [] run b r c a = close_run-Alike run b r c a
split-Alike j (n ∷ row) run b r c a = elim (Bool-cases (n ==ℤ pos 0)) [
  | inl gap ↦
      let e = close_run-Alike run b r c a in
      rw gap (
        split-Alike (suc j) row [] (close_run run b) no_child (flush r c) (record {
          same = refl;
          size = refl;
          none_yet = λ h. refl;
          runs = e.runs;
          num = e.num ∙ sym (+ℤ_zero (flush r c).sum_len);
          numi = e.numi ∙ omega arith;
          suit = e.suit;
        }))
  | inr tiles ↦ rw tiles (
      split-Alike (suc j) row (run ++ j ∷ []) _ (grow j n r) c (record {
        same = ap (λ t. t ++ j ∷ []) a.same;
        size = let k = a.size in omega (arith, length-append r.bl (j ∷ []));
        none_yet = λ h. absurd (omega arith);
        runs = a.runs;
        num = ap (λ t. t +ℤ n) a.num ∙ omega int_laws;
        numi = let k = a.numi in omega arith;
        suit = a.suit;
      }))
]

-- The two blocks after the weighing.
pub record Agree (b : Block.Block) (c : NewBlock) : Type 0 where
  pub runs : b.bl ≡ runs_of c.child
  pub num : b.num ≡ c.sum_len
  pub numi : b.numi ≡ c.sum_wei
  pub weight : b.w ≡ c.w

weigh-Agree :
    (row : Row) (cs : List ChildBlock) (b : Block.Block) (c c' : NewBlock)
    → b.row ≡ row
    → Agree b c
    → weigh row cs c ≡ some c'
    → (b' : Block.Block) × (weigh_runs (runs_of cs) b ≡ some b') × Agree b' c'
unfolding weigh weigh_runs
weigh-Agree row [] b c c' e a h =
    (b, refl, subst (λ (k : NewBlock). Agree b k) (some-injective c c' h) a)
weigh-Agree row (r ∷ cs) b c c' e a h =
    let ((w, gs), e1, h1) = >>=-eq-some (get_weight_val row r.bl) _ h in
    let here = ap (λ (t : Row). get_weight_val t r.bl) e ∙ e1 in
    rw here (
      weigh-Agree row cs (record b { w = b.w +ℤ w; we = b.we ++ Block.in_suit b.i gs }) _ c' e
        (record { runs = a.runs; num = a.num; numi = a.numi; weight = ap (λ t. t +ℤ w) a.weight })
        h1)

close_run-row : (run : List ℕ) (b : Block.Block) → (close_run run b).row ≡ b.row
close_run-row [] b = refl
close_run-row (j ∷ run) b = refl

split_row-row :
    (j : ℕ) (row : Row) (run : List ℕ) (b : Block.Block) → (split_row j row run b).row ≡ b.row
unfolding split_row
split_row-row j [] run b = close_run-row run b
split_row-row j (n ∷ row) run b = elim (Bool-cases (n ==ℤ pos 0)) [
  | inl gap ↦ rw gap (split_row-row (suc j) row [] (close_run run b) ∙ close_run-row run b)
  | inr tiles ↦ rw tiles (split_row-row (suc j) row (run ++ j ∷ []) _)
]

-- If `NewBlock.Init` returns for a row, so does `Block.Init`, with the same runs, number of tiles,
-- number of positions and weight.
pub init-Agree :
    (row : Row) (i : ℕ) (c : NewBlock)
    → NewBlock.init row i ≡ some c
    → (b : Block.Block) × (Block.init row i ≡ some b) × Agree b c
unfolding NewBlock.init Block.init
init-Agree row i c h =
    let fresh : Block.Block = record {
      bl = [];
      num = pos 0;
      numi = 0;
      row = row;
      i = i;
      w = pos 0;
      we = [];
    } in
    let a = split-Alike 0 row [] fresh no_child (new_block i) (record {
      same = refl;
      size = refl;
      none_yet = λ k. refl;
      runs = refl;
      num = sym (+ℤ_zero (pos 0));
      numi = refl;
      suit = refl;
    }) in
    let b1 : Block.Block = split_row 0 row [] fresh in
    let ready : Block.Block = record b1 { w = pos 0; we = [] } in
    subst
      (λ (runs : List (List ℕ)). (b : Block.Block) × (weigh_runs runs ready ≡ some b) × Agree b c)
      (sym a.runs)
      (weigh-Agree row (split 0 row no_child (new_block i)).child ready _ c
        (split_row-row 0 row [] fresh)
        (record { runs = a.runs; num = a.num; numi = a.numi; weight = refl }) h)
