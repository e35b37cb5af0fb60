-- ===== src/Mjai/Sound/Value.antt =====
-- A bound for the value that `checkFull` gives to a hand.
use mathlib.Core.Option.{some-injective}
use route_server.Prelude.{
  ℕ, zero, suc, ◌+◌, ◌*◌, ◌≤◌, ℤ, pos, ◌+ℤ◌, Bool, true, false, not, ◌&&◌, ◌||◌, Option, none, some,
  List, [], ◌∷◌, ◌≡◌, refl, sym, ap, ◌∙◌, inl, inr, get_elem?, length, take, All, arith, Bool-cases,
  Gives, >>=-eq-some, length-append, ◌==ℤ◌, ◌==◌, gtb_ℤ, if◌then◌else◌,
}
use route_server.Mjai.Weight.{Row}
use route_server.Mjai.NewBlock.{NewBlock, ChildBlock}
use route_server.Mjai.NewBlock.Runs.{places_of, occupied}
use route_server.Mjai.Ai.{Ai, UserPublic}
use route_server.Mjai.Full.{
  Tally, count_tile, count_run, count_runs, has_positive, tally, row_bonus, rows_bonus, double_each,
  full_value, value_of, check_full,
}
use route_server.Mjai.Sound.{Grid, AllFresh, InRange, hand}
use route_server.Mjai.Sound.Rows.{Table-user, Grid-row}
use route_server.Mjai.Sound.Readings.{suits-length, all_blocks-Sound, tally-Returns}
use route_server.Mjai.Sound.Waits.{Steady}
use route_server.Mjai.Sound.Easy.{count_places}

count_tile-f : (n : ℤ) (t : Tally) → (count_tile n t).f ≤ suc t.f
count_tile-f n t = ground arith

count_run-f :
    (row : Row) (bl : List ℕ) (t t' : Tally) → count_run row bl t ≡ some t' → t'.f ≤ t.f + length bl
unfolding count_run
count_run-f row [] t t' h = let e = ap (λ (s : Tally). s.f) (some-injective t t' h) in omega arith
count_run-f row (j ∷ bl) t t' h =
    let (n, e, h1) = >>=-eq-some (get_elem? row j) _ h in
    let rest = count_run-f row bl (count_tile n t) t' h1 in
    let one = count_tile-f n t in omega arith

count_runs-f :
    (row : Row) (cs : List ChildBlock) (t t' : Tally)
    → count_runs row cs t ≡ some t'
    → t'.f ≤ t.f + length (places_of cs)
unfolding count_runs
count_runs-f row [] t t' h = let e = ap (λ (s : Tally). s.f) (some-injective t t' h) in omega arith
count_runs-f row (c ∷ cs) t t' h =
    let (s, e, h1) = >>=-eq-some (count_run row c.bl t) _ h in
    let here = count_run-f row c.bl t s e in
    let rest = count_runs-f row cs s t' h1 in omega (arith, length-append c.bl (places_of cs))

tally-f :
    (u : UserPublic) (bs : List NewBlock) (t t' : Tally)
    → tally u bs t ≡ some (some t')
    → t'.f ≤ t.f + count_places bs
unfolding tally
tally-f u [] t t' h =
    let e = ap (λ (s : Tally). s.f) (some-injective t t' (some-injective _ _ h)) in omega arith
tally-f u (b ∷ bs) t t' h = elim (Bool-cases (pos b.i ==ℤ u.inv && gtb_ℤ b.sum_len (pos 0))) [
  | inl unwanted ↦ absurd (none_is_not_some t' (some-injective _ _ (rw unwanted at h)))
  | inr other ↦
      let (row, e1, h1) = >>=-eq-some (get_elem? u.now b.i) _ (rw other at h) in
      let (down, e2, h2) = >>=-eq-some (get_elem? u.down b.i) _ h1 in
      let (s, e3, h3) = >>=-eq-some (count_runs row b.child (record t { w = t.w +ℤ b.w })) _ h2 in
      let here = count_runs-f row b.child (record t { w = t.w +ℤ b.w }) s e3 in
      let rest = tally-f u bs _ t' h3 in
      let same = qing_keeps (gtb_ℤ b.sum_len (pos 0) || has_positive down) s in omega arith
]
  where
    none_is_not_some : (t : Tally) → none ≡ some t → ⊥
    none_is_not_some t e = cc

    qing_keeps : (q : Bool) (s : Tally) → (if q then record s { qing = suc s.qing } else s).f ≡ s.f
    qing_keeps true s = refl
    qing_keeps false s = refl

occupied-length : (j : ℕ) (row : Row) → length (occupied j row) ≤ length row
occupied-length j [] = omega arith
occupied-length j (n ∷ row) =
    let rest = occupied-length (suc j) row in
    elim (Bool-cases (n ==ℤ pos 0)) [
      | inl gap ↦ rw gap (omega arith)
      | inr tiles ↦ rw tiles (omega arith)
    ]

count_places_bound :
    (rows : List Row) (bs : List NewBlock)
    → Grid rows
    → All InRange bs
    → AllFresh rows bs
    → count_places bs ≤ 9 * length bs
count_places_bound rows [] g rs fs = omega arith
count_places_bound rows (b ∷ bs) g (r, rs) ((row, e, exact), fs) =
    let (row', e1, nine) = Grid-row rows b.i g r.suit in
    let same = ap length (some-injective _ _ (sym e ∙ e1)) in
    let size = ap length exact.places in
    let short = occupied-length 0 row in
    let rest = count_places_bound rows bs g rs fs in omega arith

row_bonus_bound : (down now : Row) (f : ℕ) → row_bonus down now f ≤ f + length down
row_bonus_bound [] now f = omega arith
row_bonus_bound (d ∷ down) [] f = omega arith
row_bonus_bound (d ∷ down) (n ∷ now) f =
    let here = one in
    let rest =
      row_bonus_bound down now
        (if gtb_ℤ d (pos 2) then suc f else if d ==ℤ pos 2 && gtb_ℤ n (pos 0) then suc f else f) in
    omega arith
  where
    one :
        (if gtb_ℤ d (pos 2) then suc f else if d ==ℤ pos 2 && gtb_ℤ n (pos 0) then suc f else f)
        ≤ suc f
    one = ground arith

rows_bonus_bound :
    (down now : List Row) (f : ℕ)
    → All (λ (r : Row). length r ≡ 9) down
    → rows_bonus down now f ≤ f + 9 * length down
rows_bonus_bound [] now f nine = omega arith
rows_bonus_bound (d ∷ down) [] f nine = omega arith
rows_bonus_bound (d ∷ down) (n ∷ now) f (l, nine) =
    let here = row_bonus_bound d n f in
    let rest = rows_bonus_bound down now (row_bonus d n f) nine in omega arith

abbrev doubled : ℕ → ℕ → ℕ
doubled zero b = b
doubled (suc n) b = doubled n (b + b)

double_each_bound :
    (us : List UserPublic) (n f b : ℕ) → length us ≡ n → f ≤ b → double_each us f ≤ doubled n b
double_each_bound [] zero f b e h = h
double_each_bound [] (suc n) f b e h = absurd (omega arith)
double_each_bound (u ∷ us) zero f b e h = absurd (omega arith)
double_each_bound (u ∷ us) (suc n) f b e h =
    double_each_bound us n (if u.is_f then f + f else f) (b + b) (omega arith) (step u.is_f)
  where
    step : (q : Bool) → (if q then f + f else f) ≤ b + b
    step true = omega arith
    step false = omega arith

full_value_bound :
    (is_m : Bool) (u : UserPublic) (others : List UserPublic) (t : Tally)
    → length others ≡ 3
    → Grid u.down
    → t.f ≤ 28
    → full_value is_m u others t ≤ 672
unfolding full_value
full_value_bound is_m u others t three g h =
    elim (Bool-cases (not (t.w ==ℤ pos 1) && not (t.dui == 7))) [
      | inl incomplete ↦ rw incomplete (omega arith)
      | inr complete ↦
          let base : ℕ = if t.qing == 1 || t.dui == 7 then 4 else t.f in
          let paired : ℕ = if t.dan == 0 && t.dui == 1 then base * 2 else base in
          let b1 = base_bound (t.qing == 1 || t.dui == 7) in
          let b2 = paired_bound (t.dan == 0 && t.dui == 1) base b1 in
          let rows = rows_bonus_bound u.down u.now paired g.nine in
          let size = g.three in
          rw complete (total is_m (rows_bonus u.down u.now paired) (omega arith))
    ]
  where
    base_bound : (q : Bool) → (if q then 4 else t.f) ≤ 28
    base_bound true = omega arith
    base_bound false = h

    paired_bound : (q : Bool) (b : ℕ) → b ≤ 28 → (if q then b * 2 else b) ≤ 56
    paired_bound true b k = omega arith
    paired_bound false b k = omega arith

    total : (q : Bool) (b : ℕ) → b ≤ 83 → (if q then double_each others (suc b) else b) ≤ 672
    total true b k = double_each_bound others 3 (suc b) 84 three (omega arith)
    total false b k = omega arith

value_of_bound :
    (is_m : Bool) (u : UserPublic) (others : List UserPublic) (t : Option Tally)
    → length others ≡ 3
    → Grid u.down
    → ((t' : Tally) → t ≡ some t' → t'.f ≤ 28)
    → value_of is_m u others t ≤ 672
unfolding value_of
value_of_bound is_m u others none three g h = omega arith
value_of_bound is_m u others (some t) three g h =
    full_value_bound is_m u others t three g (h t refl)

length-take_three : {A : Type 0} (xs : List A) → length xs ≡ 4 → length (take 3 xs) ≡ 3
length-take_three [] e = absurd (omega arith)
length-take_three (a ∷ []) e = absurd (omega arith)
length-take_three (a ∷ b ∷ []) e = absurd (omega arith)
length-take_three (a ∷ b ∷ c ∷ xs) e = refl

-- On a sound player whose blocks match the hand `checkFull` returns, with a value of at most 672.
pub check_full_bound :
    (is_m : Bool) (ai : Ai) → Steady ai → Gives (check_full is_m ai) (λ v. v ≤ 672)
unfolding check_full
check_full_bound is_m ai s =
    let blank : Tally = record { w = pos 0; dui = 0; dan = 0; qing = 0; f = 1 } in
    let (u, e, p) = Table-user ai.public 3 s.sound.table (omega arith) in
    let (t, e1, _) = tally-Returns u ai.blocks blank p s.sound.blocks.range in
    let grid : Grid (hand ai.public) = rw e p.now.grid in
    let places = count_places_bound (hand ai.public) ai.blocks grid s.sound.blocks.range s.fresh in
    let three = sym (suits-length ai.blocks) ∙ s.sound.blocks.each.three in
    let few = λ (t' : Tally) (k : t ≡ some t').
      let f = tally-f u ai.blocks blank t' (e1 ∙ ap some k) in
      at_most t'.f (count_places ai.blocks) (length ai.blocks) f places three in
    rw (all_blocks-Sound ai s.sound, e, e1)
      (
        value_of is_m u (take 3 ai.public) t,
        refl,
        value_of_bound is_m u (take 3 ai.public) t (length-take_three ai.public s.sound.table.four)
            p.down few,
      )
  where
    at_most : (f c n : ℕ) → f ≤ 1 + c → c ≤ 9 * n → n ≡ 3 → f ≤ 28
    at_most f c n h k e = omega arith
