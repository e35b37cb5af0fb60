-- ===== src/Mjai/Sound/Same.antt =====
-- The searches leave the player as it was but for the scores of its blocks: all else of the blocks that
-- match the hand is settled by the hand and their suits.
use mathlib.Core.Option.{some-injective}
use route_server.Prelude.{
  length, Gives, suc, Bool-cases, pos, ◌==ℤ◌, gtb_ℤ, ◌&&◌, ◌||◌, inl, inr, ◌+ℤ◌, ◌>>=◌, true, arith,
  ◌==◌, if◌then◌else◌, ℕ, ℤ, Bool, List, [], ◌∷◌, ◌≡◌, refl, sym, ap, ◌∙◌, get_elem?, subst,
}
use route_server.Mjai.Weight.{Row}
use route_server.Mjai.NewBlock.{NewBlock, new_block, update}
use route_server.Mjai.Ai.{Ai, UserPublic}
use route_server.Mjai.Full.{Tally, count_runs, tally, check_full, has_positive}
use route_server.Mjai.Search.{suits, check_all_jiao}
use route_server.Mjai.Search.Restore.{frame, check_all_jiao-Restores}
use route_server.Mjai.Sound.{Sound, Fresh, AllFresh, hand}
use route_server.Mjai.Sound.Rows.{Table-user}
use route_server.Mjai.Sound.Readings.{all_blocks-three}
use route_server.Mjai.Sound.Waits.{Steady}
use route_server.Mjai.Sound.Choice.{check_all_jiao-returns}

-- A block without its scores.
abbrev pub shed_block : NewBlock → NewBlock
shed_block b = record b { we = [] }

abbrev pub shed_blocks : List NewBlock → List NewBlock
shed_blocks [] = []
shed_blocks (b ∷ bs) = shed_block b ∷ shed_blocks bs

-- All of a player but the scores that its blocks keep.
abbrev pub shed : Ai → Ai
shed ai = record ai { blocks = shed_blocks ai.blocks }

Fresh-settled :
    (rows : List Row) (b c : NewBlock)
    → Fresh rows b
    → Fresh rows c
    → b.i ≡ c.i
    → shed_block b ≡ shed_block c
Fresh-settled rows b c (row, e, x) (row', e', x') same =
    let rows_eq : row ≡ row' = some-injective _ _ (sym e ∙ ap (get_elem? rows) same ∙ e') in
    ap shed_block (
      some-injective _ _
        (sym x.again.1 ∙ (λ t. update (rows_eq t) (new_block (same t))) ∙ x'.again.1))

-- The suit of the first block of the list, if there is one.
abbrev first_suit : List ℕ → ℕ → ℕ
first_suit [] k = k
first_suit (i ∷ is) k = i

abbrev tail : List ℕ → List ℕ
tail [] = []
tail (i ∷ is) = is

AllFresh-settled :
    (rows : List Row) (bs cs : List NewBlock)
    → AllFresh rows bs
    → AllFresh rows cs
    → suits bs ≡ suits cs
    → shed_blocks bs ≡ shed_blocks cs
AllFresh-settled rows [] [] f g e = refl
AllFresh-settled rows [] (c ∷ cs) f g e = absurd cc
AllFresh-settled rows (b ∷ bs) [] f g e = absurd cc
AllFresh-settled rows (b ∷ bs) (c ∷ cs) (f, fs) (g, gs) e =
    let here = Fresh-settled rows b c f g (ap (λ is. first_suit is 0) e) in
    let there = AllFresh-settled rows bs cs fs gs (ap tail e) in λ t. here t ∷ there t

-- Two steady players with the same frame are the same, but for the scores.
pub Steady-settled :
    (ai ai' : Ai) → Steady ai → Steady ai' → frame ai' ≡ frame ai → shed ai' ≡ shed ai
Steady-settled ai ai' s s' e =
    let us : ai'.public ≡ ai.public = ap (λ p. p.0) e in
    let bs : shed_blocks ai'.blocks ≡ shed_blocks ai.blocks =
      AllFresh-settled (hand ai.public) ai'.blocks ai.blocks
        (subst (λ us. AllFresh (hand us) ai'.blocks) us s'.fresh) s.fresh (ap (λ p. p.2) e) in
    λ t. record (e t).1 { public = us t; blocks = bs t }

-- On a sound player whose blocks match the hand `CheckAllJiao` returns, and leaves all of the player
-- as it was but for the scores that the blocks keep; the blocks match the hand again.
pub check_all_jiao-same :
    (isf : ℤ) (ai : Ai)
    → Steady ai
    → Gives (check_all_jiao isf ai) (λ r. Steady r.1 × (shed r.1 ≡ shed ai))
check_all_jiao-same isf ai s =
    let ((g, ai'), e, s') = check_all_jiao-returns isf ai s in
    ((g, ai'), e, (s', Steady-settled ai ai' s s' (check_all_jiao-Restores isf ai g ai' e)))

tally-shed :
    (u : UserPublic) (bs : List NewBlock) (t : Tally) → tally u (shed_blocks bs) t ≡ tally u bs t
unfolding tally
tally-shed u [] t = refl
tally-shed u (b ∷ bs) t = elim (Bool-cases (pos b.i ==ℤ u.inv && gtb_ℤ b.sum_len (pos 0))) [
  | inl unwanted ↦ rw unwanted refl
  | inr other ↦ rw other (λ z. do
    row ← get_elem? u.now b.i
    down ← get_elem? u.down b.i
    t' ← count_runs row b.child (record t { w = t.w +ℤ b.w })
    tally-shed u bs
        (if gtb_ℤ b.sum_len (pos 0) || has_positive down
          then record t' { qing = suc t'.qing }
          else t')
        z)
]

length-shed_blocks : (bs : List NewBlock) → length (shed_blocks bs) ≡ length bs
length-shed_blocks [] = refl
length-shed_blocks (b ∷ bs) = ap suc (length-shed_blocks bs)

-- The value of a hand does not depend on the scores.
check_full-shed :
    (is_m : Bool) (ai : Ai) → Sound ai → check_full is_m (shed ai) ≡ check_full is_m ai
unfolding check_full
check_full-shed is_m ai s =
    let (u, e, p) = Table-user ai.public 3 s.table (omega arith) in
    let three = all_blocks-three ai s in
    let test : (length (shed_blocks ai.blocks) == 3) ≡ true =
      ap (λ n. n == 3) (length-shed_blocks ai.blocks) ∙ three in
    rw
      (
        test,
        three,
        e,
        tally-shed u ai.blocks (record { w = pos 0; dui = 0; dan = 0; qing = 0; f = 1 }),
      )
      refl

pub check_full-same :
    (is_m : Bool) (ai ai' : Ai)
    → Sound ai
    → Sound ai'
    → shed ai' ≡ shed ai
    → check_full is_m ai' ≡ check_full is_m ai
check_full-same is_m ai ai' s s' e =
    sym (check_full-shed is_m ai' s') ∙ ap (check_full is_m) e ∙ check_full-shed is_m ai s
