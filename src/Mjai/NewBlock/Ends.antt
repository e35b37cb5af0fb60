-- ===== src/Mjai/NewBlock/Ends.antt =====
-- `NewBlock.Update` returns: the runs that it weighs meet what the weighing needs.
use route_server.Prelude.{
  ℕ, zero, suc, ◌+◌, ◌<◌, ℤ, pos, neg_part, some, List, [], ◌∷◌, ◌++◌, ◌==ℤ◌, ltb, ◌≡◌, ◌≢◌, refl,
  ap, ◌∙◌, inl, inr, get_elem?, All, arith, Bool-cases, All-append, All-map, negsuc, false,
}
use route_server.Mjai.Weight.{Row}
use route_server.Mjai.Weight.Runs.{Held, Distinct, IsRun}
use route_server.Mjai.Weight.Ends.{get_weight_val-ends}
use route_server.Mjai.NewBlock.{
  ChildBlock, NewBlock, no_child, flush, grow, split, weigh, set_weight, update,
}

-- Positions below `j`, distinct, at each of which the row has tiles.
record Below (row : Row) (j : ℕ) (bl : List ℕ) : Type 0 where
  below : All (λ i. i < j) bl
  run : IsRun row bl

pub Distinct-end :
    (j : ℕ) (bl : List ℕ) → All (λ i. i < j) bl → Distinct bl → Distinct (bl ++ j ∷ [])
Distinct-end j [] h d = (tt, tt)
Distinct-end j (i ∷ bl) h d = (
  All-append (λ k. i ≢ k) bl (j ∷ []) d.0 ((λ e. absurd (omega arith)), tt),
  Distinct-end j bl h.1 d.1,
)

Below-grow :
    (row : Row) (j : ℕ) (bl : List ℕ)
    → Held row j
    → Below row j bl
    → Below row (suc j) (bl ++ j ∷ [])
Below-grow row j bl held b = record {
  below =
      All-append (λ i. i < suc j) bl (j ∷ [])
        (All-map (λ i. i < j) (λ i. i < suc j) bl (λ x h. omega arith) b.below) (omega arith, tt);
  run = record {
    held = All-append (Held row) bl (j ∷ []) b.run.held (held, tt);
    distinct = Distinct-end j bl b.below b.run.distinct;
  };
}

-- All runs of the block so far.
abbrev AllRuns : Row → NewBlock → Type 0
AllRuns row b = All (λ (c : ChildBlock). IsRun row c.bl) b.child

flush-AllRuns :
    (row : Row) (c : ChildBlock) (b : NewBlock)
    → IsRun row c.bl
    → AllRuns row b
    → AllRuns row (flush c b)
flush-AllRuns row c b r rs = elim (Bool-cases (ltb 0 c.wei)) [
  | inl some_run ↦
      rw some_run (All-append (λ (c : ChildBlock). IsRun row c.bl) b.child (c ∷ []) rs (r, tt))
  | inr no_run ↦ rw no_run rs
]

-- A cell that is neither empty nor negative holds tiles.
pub some_tiles : (n : ℤ) → neg_part n ≡ 0 → (n ==ℤ pos 0) ≡ false → (c : ℕ) × (n ≡ pos (suc c))
some_tiles (pos zero) h e = absurd (cc)
some_tiles (pos (suc c)) h e = (c, refl)
some_tiles (negsuc n) h e = absurd (omega arith)

-- `row` is what `whole` holds from position `j` on.
abbrev pub Rest : Row → ℕ → Row → Type 0
Rest whole j row = (k : ℕ) → get_elem? whole (j + k) ≡ get_elem? row k

pub Rest-suc : (whole row : Row) (j : ℕ) (n : ℤ) → Rest whole j (n ∷ row) → Rest whole (suc j) row
Rest-suc whole row j n h k =
    let e : suc j + k ≡ j + suc k = omega arith in ap (get_elem? whole) e ∙ h (suc k)

pub Rest-head :
    (whole row : Row) (j : ℕ) (n : ℤ) → Rest whole j (n ∷ row) → get_elem? whole j ≡ some n
Rest-head whole row j n h = let e : j ≡ j + 0 = omega arith in ap (get_elem? whole) e ∙ h 0

abbrev pub NonNegative : Row → Type 0
NonNegative row = All (λ n. neg_part n ≡ 0) row

no_run : (row : Row) (j : ℕ) → Below row j []
no_run row j = record { below = tt; run = record { held = tt; distinct = tt } }

split-AllRuns :
    (whole : Row) (j : ℕ) (row : Row) (c : ChildBlock) (b : NewBlock)
    → Rest whole j row
    → NonNegative row
    → Below whole j c.bl
    → AllRuns whole b
    → AllRuns whole (split j row c b)
unfolding split
split-AllRuns whole j [] c b at nn r rs = flush-AllRuns whole c b r.run rs
split-AllRuns whole j (n ∷ row) c b at nn r rs = elim (Bool-cases (n ==ℤ pos 0)) [
  | inl gap ↦ rw gap (
      split-AllRuns whole (suc j) row no_child (flush c b) (Rest-suc whole row j n at) nn.1
        (no_run whole (suc j)) (flush-AllRuns whole c b r.run rs))
  | inr tiles ↦
      let (t, e) = some_tiles n nn.0 tiles in
      let held : Held whole j = (t, Rest-head whole row j n at ∙ ap some e) in
      rw tiles (
        split-AllRuns whole (suc j) row (grow j n c) b (Rest-suc whole row j n at) nn.1
          (Below-grow whole j c.bl held r) rs)
]

weigh-ends :
    (row : Row) (cs : List ChildBlock) (b : NewBlock)
    → All (λ (c : ChildBlock). IsRun row c.bl) cs
    → (b' : NewBlock) × (weigh row cs b ≡ some b')
unfolding weigh
weigh-ends row [] b h = (b, refl)
weigh-ends row (c ∷ cs) b h =
    let ((w, e), e1) = get_weight_val-ends row c.bl h.0 in rw e1 (weigh-ends row cs _ h.1)

-- `Update` returns on every row without a negative cell: the recursion of `WeightVal` ends on each
-- run that the row splits into.
pub update-ends :
    (row : Row) (b : NewBlock) → NonNegative row → (b' : NewBlock) × (update row b ≡ some b')
unfolding update set_weight
update-ends row b nn =
    let fresh : NewBlock = record b { child = []; sum_len = pos 0; sum_wei = 0 } in
    let runs =
      split-AllRuns row 0 row no_child fresh
        (λ k. let e : 0 + k ≡ k = omega arith in ap (get_elem? row) e) nn (no_run row 0) tt in
    weigh-ends row (split 0 row no_child fresh).child _ runs
