-- ===== src/Mjai/Sound/Choice.antt =====
-- `CheckAllJiao` returns on a sound player whose blocks match the hand.
use mathlib.Core.Bool.{Bool-set}
use mathlib.Core.Option.{some-injective}
use route_server.Prelude.{
  Option, subst, ℕ, suc, ◌<◌, ℤ, pos, neg_part, ◌-ℤ◌, true, false, ◌&&◌, not, none, some, List, [],
  ◌∷◌, ◌>>=◌, ◌≡◌, refl, sym, ap, ◌∙◌, inl, inr, get_elem?, length, All, arith, Bool-cases, Gives,
  Gives-bind, All-map, All-and, All-append, All-left, All-right, get_elem?-All, get_elem?-of_lt,
  gtb_ℤ, ltb, if◌then◌else◌,
}
use route_server.Mjai.Grain.{MjGrain, sort_grain_arrs}
use route_server.Mjai.Grain.Laws.{mem-All}
use route_server.Mjai.Grain.Best.{sort_grain_arrs_best}
use route_server.Mjai.NewBlock.{NewBlock, ChildBlock}
use route_server.Mjai.NewBlock.Runs.{places_of, occupied}
use route_server.Mjai.Ai.{Ai, now_cell}
use route_server.Mjai.Search.{
  inc, dec, suits, jiao_grain, Found, keep_found, note_jiao, give_tile, give_run, give_runs,
  give_suits, choose_found, check_all_jiao,
}
use route_server.Mjai.Search.Restore.{give_tile-Restores, give_run-Restores}
use route_server.Mjai.Sound.{InRange, Sound, Fresh, hand}
use route_server.Mjai.Sound.Places.{Place, places_of_row}
use route_server.Mjai.Sound.Rows.{Table-user, Counts-row, now_cell-gives}
use route_server.Mjai.Sound.Board.{on_board, on_board-tile}
use route_server.Mjai.Sound.Readings.{
  IsTile, get_public_num-Returns, unseen-Returns, all_blocks-Sound,
}
use route_server.Mjai.Sound.Waits.{
  Steady, Trying, Trying-of_Steady, settle_block, try_change, inc-count, now_cell-public,
  find_block-gives, suits-low, check_jiao-returns,
}

-- A tile of the suits with the five scores.
abbrev Candidate : MjGrain → Type 0
Candidate g = (length g.o ≡ 5) × (on_board g ≡ true)

-- So is each candidate.
pub record FiveScores (r : Found) : Type 0 where
  pub jiao : All Candidate r.jiao
  pub for4 : All Candidate r.for4

jiao_grain-returns :
    (i j : ℕ) (gs : List MjGrain) (ai : Ai)
    → i < 3
    → j < 9
    → 0 < length gs
    → All IsTile gs
    → Sound ai
    → Gives (jiao_grain i j gs ai) Candidate
unfolding jiao_grain
jiao_grain-returns i j gs ai l k some_tile tiles s =
    Gives-bind (unseen-Returns gs ai (pos 0) s tiles) (λ n1 e1 _.
      Gives-bind
        (get_public_num-Returns (record { h = pos i; n = j; o = [] }) false i ai s refl l k)
        (λ p e2 _. Gives-bind (get_elem?-All IsTile gs 0 tiles some_tile) (λ best e3 t.
          Gives-bind (get_elem?-of_lt best.o 0 t.scored) (λ top e4 _.
            Gives-bind (now_cell-gives i j ai s l k) (λ c e5 _.
              let scores : List ℤ =
                pos (length gs) ∷ n1 ∷ (if gtb_ℤ p (pos 0) then pos 1 else pos 0) ∷ top ∷ c ∷ [] in
              let g : MjGrain = record { h = pos i; n = j; o = scores } in
              (g, refl, (refl, on_board-tile g i refl l k)))))))

keep_found-FiveScores :
    (kn c : ℤ) (g : MjGrain) (r : Found)
    → Candidate g
    → FiveScores r
    → FiveScores (keep_found kn c g r)
keep_found-FiveScores kn c g r n f = elim (Bool-cases (gtb_ℤ c kn)) [
  | inl many ↦
      rw many (record { jiao = f.jiao; for4 = All-append Candidate r.for4 (g ∷ []) f.for4 (n, tt) })
  | inr few ↦
      rw few (record { jiao = All-append Candidate r.jiao (g ∷ []) f.jiao (n, tt); for4 = f.for4 })
]

note_jiao-returns :
    (isf : ℤ) (i j : ℕ) (gs : List MjGrain) (r : Found) (ai : Ai)
    → i < 3
    → j < 9
    → All IsTile gs
    → FiveScores r
    → Trying i ai
    → Gives (note_jiao isf i j gs (r, ai)) (λ p. FiveScores p.0 × Trying i p.1)
unfolding note_jiao
note_jiao-returns isf i j gs r ai l k tiles f t = elim (Bool-cases (ltb 0 (length gs))) [
  | inr missing ↦ rw missing ((r, ai), refl, (f, t))
  | inl found ↦ rw found (
      Gives-bind (jiao_grain-returns i j gs ai l k (ground arith) tiles t.sound) (λ g e1 n.
        Gives-bind (now_cell-gives i j ai t.sound l k) (λ c e2 _. (
          _,
          refl,
          (keep_found-FiveScores (if gtb_ℤ isf (pos 0) then pos 1 else pos 2) c g r n f, t),
        ))))
]

-- Tile `j` of suit `i` is in the hand.
abbrev pub InHand : ℕ → ℕ → Ai → Type 0
InHand i j ai = (c : ℕ) × (now_cell i j ai ≡ some (pos (suc c)))

dec-count : (c : ℕ) → neg_part (dec (pos (suc c))) ≡ 0
unfolding ◌-ℤ◌
dec-count c = ground arith

give_tile-returns :
    (isf : ℤ) (i j : ℕ) (r : Found) (ai : Ai)
    → i < 3
    → j < 9
    → InHand i j ai
    → FiveScores r
    → Trying i ai
    → Gives (give_tile isf i j (r, ai)) (λ p. FiveScores p.0 × Trying i p.1)
unfolding give_tile
give_tile-returns isf i j r ai l k (n, at) f t =
    Gives-bind
      (try_change dec i j ai t l k
        (λ c e h. ap (λ d. neg_part (dec d)) (some-injective _ _ (sym e ∙ at)) ∙ dec-count n))
      (λ less e1 c1. Gives-bind (settle_block i less c1.0 l) (λ fresh e2 s.
        Gives-bind (check_jiao-returns isf true fresh s.0) (λ p e3 q.
          Gives-bind
            (try_change inc i j p.1 (Trying-of_Steady i p.1 q.1) l k (λ c _ h. inc-count c h))
            (λ back e4 c4. note_jiao-returns isf i j p.0 r back l k q.0 f c4.0))))

-- A position of suit `i` with tiles in the hand.
abbrev pub Giveable : ℕ → Ai → ℕ → Type 0
Giveable i ai j = (j < 9) × InHand i j ai

Giveable-public :
    (i : ℕ) (ai ai' : Ai) (js : List ℕ)
    → ai'.public ≡ ai.public
    → All (Giveable i ai) js
    → All (Giveable i ai') js
Giveable-public i ai ai' js e h =
    All-map (Giveable i ai) (Giveable i ai') js
      (λ j (k, (c, at)). (k, (c, now_cell-public i j ai ai' e ∙ at))) h

give_run-returns :
    (isf : ℤ) (i : ℕ) (js : List ℕ) (r : Found) (ai : Ai)
    → i < 3
    → All (Giveable i ai) js
    → FiveScores r
    → Trying i ai
    → Gives (give_run isf i js (r, ai)) (λ p. FiveScores p.0 × Trying i p.1)
unfolding give_run
give_run-returns isf i [] r ai l h f t = ((r, ai), refl, (f, t))
give_run-returns isf i (j ∷ js) r ai l (g, h) f t =
    Gives-bind (give_tile-returns isf i j r ai l g.0 g.1 f t) (λ p e q.
      give_run-returns isf i js p.0 p.1 l
        (Giveable-public i ai p.1 js (ap (λ k. k.0) (give_tile-Restores isf i j r ai p.0 p.1 e)) h)
        q.0 q.1)

give_runs-returns :
    (isf : ℤ) (i : ℕ) (cs : List ChildBlock) (r : Found) (ai : Ai)
    → i < 3
    → All (Giveable i ai) (places_of cs)
    → FiveScores r
    → Trying i ai
    → Gives (give_runs isf i cs (r, ai)) (λ p. FiveScores p.0 × Trying i p.1)
unfolding give_runs
give_runs-returns isf i [] r ai l h f t = ((r, ai), refl, (f, t))
give_runs-returns isf i (c ∷ cs) r ai l h f t =
    Gives-bind
      (give_run-returns isf i c.bl r ai l (All-left (Giveable i ai) c.bl (places_of cs) h) f t)
      (λ p e q.
        give_runs-returns isf i cs p.0 p.1 l
          (Giveable-public i ai p.1 (places_of cs)
            (ap (λ k. k.0) (give_run-Restores isf i c.bl r ai p.0 p.1 e))
            (All-right (Giveable i ai) c.bl (places_of cs) h))
          q.0 q.1)

-- The positions of a block that matches the hand.
pub Fresh-Giveable :
    (i : ℕ) (ai : Ai) (b : NewBlock)
    → Sound ai
    → i < 3
    → b.i ≡ i
    → Fresh (hand ai.public) b
    → All (Giveable i ai) (places_of b.child)
Fresh-Giveable i ai b s l here (row, e, exact) =
    let (u, e1, p) = Table-user ai.public 3 s.table (omega arith) in
    let (row', e2, (nine, nn)) = Counts-row u.now i p.now l in
    let same : row' ≡ row =
      some-injective _ _ (sym e2 ∙ ap (get_elem? u.now) (sym here) ∙ rw e1 at e) in
    subst (All (Giveable i ai)) (ap (occupied 0) same ∙ sym exact.places) (
      All-map (Place row') (Giveable i ai) (occupied 0 row')
        (λ j q. let (c, at) = q.held in (q.low, (c, rw (e1, e2) at))) (places_of_row row' nn nine))

give_suits-returns :
    (isf : ℤ) (is : List ℕ) (r : Found) (ai : Ai)
    → All (λ i. i < 3) is
    → FiveScores r
    → Steady ai
    → Gives (give_suits isf is (r, ai)) (λ p. FiveScores p.0 × Steady p.1)
unfolding give_suits
give_suits-returns isf [] r ai ls f s = ((r, ai), refl, (f, s))
give_suits-returns isf (i ∷ is) r ai (l, ls) f s =
    let fit = All-and InRange (Fresh (hand ai.public)) ai.blocks s.sound.blocks.range s.fresh in
    Gives-bind
      (find_block-gives (λ b. InRange b × Fresh (hand ai.public) b) i ai.blocks fit
        (s.sound.blocks.each.all i l))
      (λ b e ((range, fresh), here).
        Gives-bind
          (give_runs-returns isf i b.child r ai l (Fresh-Giveable i ai b s.sound l here fresh) f
            (Trying-of_Steady i ai s))
          (λ p e1 q.
            Gives-bind (settle_block i p.1 q.1 l)
              (λ done e2 s'. give_suits-returns isf is p.0 done ls q.0 s'.0)))

-- The chosen tile, if there is one, is a tile of the suits.
abbrev pub Chosen : Option MjGrain → Type 0
Chosen none = Unit
Chosen (some g) = on_board g ≡ true

choose_found-Chosen : (isf : ℤ) (r : Found) → FiveScores r → Gives (choose_found isf r) Chosen
unfolding choose_found
choose_found-Chosen isf r f = elim (Bool-cases (ltb 0 (length r.jiao))) [
  | inl some_jiao ↦ rw some_jiao (chosen r.jiao (ground arith) f.jiao)
  | inr no_jiao ↦ elim (Bool-cases (ltb 0 (length r.for4) && not (gtb_ℤ isf (pos 0)))) [
    | inl some_for4 ↦ rw (no_jiao, some_for4) (chosen r.for4 (ground arith) f.for4)
    | inr neither ↦ rw (no_jiao, neither) (none, refl, tt)
  ]
]
  where
    chosen :
        (grs : List MjGrain)
        → 0 < length grs
        → All Candidate grs
        → Gives
            (sort_grain_arrs (true ∷ true ∷ true ∷ true ∷ false ∷ []) grs 0
              >>= (λ (g : MjGrain). some (some g)))
            Chosen
    chosen grs n h =
        let (g, e, m, _) =
          sort_grain_arrs_best true (true ∷ true ∷ true ∷ false ∷ []) grs 0 5 (omega arith) n
            (All-map Candidate (λ g. length g.o ≡ 5) grs (λ g c. c.0) h) in
        rw e (
          some g,
          refl,
          mem-All (λ g. on_board g ≡ true) (λ g. Bool-set (on_board g) true) grs g
              (All-map Candidate (λ g. on_board g ≡ true) grs (λ g c. c.1) h) m,
        )

-- On a sound player whose blocks match the hand `CheckAllJiao` returns no tile or one of the suits,
-- and the player is sound and its blocks match the hand.
pub check_all_jiao-Chosen :
    (isf : ℤ) (ai : Ai) → Steady ai → Gives (check_all_jiao isf ai) (λ r. Chosen r.0 × Steady r.1)
unfolding check_all_jiao
check_all_jiao-Chosen isf ai s =
    let none_found : FiveScores (record { jiao = []; for4 = [] }) = record {
      jiao = tt;
      for4 = tt;
    } in
    rw (all_blocks-Sound ai s.sound) (
      Gives-bind
        (give_suits-returns isf (suits ai.blocks) _ ai (suits-low ai.blocks s.sound.blocks.range)
          none_found s)
        (λ p e q.
          Gives-bind (choose_found-Chosen isf p.0 q.0) (λ g e1 c. ((g, p.1), refl, (c, q.1)))))

pub check_all_jiao-returns :
    (isf : ℤ) (ai : Ai) → Steady ai → Gives (check_all_jiao isf ai) (λ r. Steady r.1)
check_all_jiao-returns isf ai s = let (r, e, p) = check_all_jiao-Chosen isf ai s in (r, e, p.1)
