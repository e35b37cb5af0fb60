-- ===== src/Mjai/Sound/Easy.antt =====
-- `EasyOuts` on a sound player whose blocks match the hand.
use mathlib.Core.Bool.{Bool-set}
use mathlib.Core.Option.{some-injective}
use route_server.Prelude.{
  ℕ, zero, suc, ◌+◌, ◌<◌, ℤ, pos, Bool, true, false, Option, none, some, List, [], ◌∷◌, ◌++◌, ◌>>=◌,
  ◌≡◌, refl, sym, ap, ◌∙◌, subst, inl, inr, get_elem?, length, All, arith, Bool-cases, >>=-eq-some,
  Gives, Gives-bind, All-map, All-append, All-left, All-right, length-append, ◌==ℤ◌, gtb_ℤ,
}
use route_server.Mjai.Weight.{Row}
use route_server.Mjai.Grain.{MjGrain}
use route_server.Mjai.Grain.Laws.{mem-All}
use route_server.Mjai.Grain.Best.{sort_grain_arrs_best}
use route_server.Mjai.NewBlock.{NewBlock, ChildBlock}
use route_server.Mjai.NewBlock.Runs.{places_of, occupied}
use route_server.Mjai.Ai.{Ai, cell, now_cell}
use route_server.Mjai.Full.{suit}
use route_server.Mjai.Search.{suits}
use route_server.Mjai.Outs.{run_grains, get_mj_grain_list, all_grains, easy_outs}
use route_server.Mjai.Sound.{Has, InRange, AllFresh, Sound, hand}
use route_server.Mjai.Sound.Rows.{Table-user}
use route_server.Mjai.Sound.Readings.{get_public_num-Returns, all_blocks-Sound}
use route_server.Mjai.Sound.Waits.{Steady}
use route_server.Mjai.Sound.Choice.{Giveable, Fresh-Giveable}

-- Is the tile in the hand?
abbrev is_positive : Option ℤ → Bool
is_positive none = false
is_positive (some c) = gtb_ℤ c (pos 0)

abbrev pub in_hand : Ai → MjGrain → Bool
in_hand ai g = is_positive (do i ← suit g; now_cell i g.n ai)

-- A tile of the hand with the four scores.
abbrev Listed : Ai → MjGrain → Type 0
Listed ai g = (length g.o ≡ 4) × (in_hand ai g ≡ true)

-- Listed tiles, `n` of them.
record Listing (ai : Ai) (n : ℕ) (gs : List MjGrain) : Type 0 where
  all : All (Listed ai) gs
  size : length gs ≡ n

positive : (m : ℕ) → gtb_ℤ (pos (suc m)) (pos 0) ≡ true
positive m = ground arith

run_grains-Listing :
    (i : ℕ) (c : ChildBlock) (js : List ℕ) (ai : Ai)
    → i < 3
    → Sound ai
    → All (Giveable i ai) js
    → Gives (run_grains i c js ai) (Listing ai (length js))
unfolding run_grains
run_grains-Listing i c [] ai l s h = ([], refl, record { all = tt; size = refl })
run_grains-Listing i c (j ∷ js) ai l s ((k, (m, at)), h) =
    let (p, e1, _) =
      get_public_num-Returns (record { h = pos i; n = j; o = [] }) false i ai s refl l k in
    let (gs, e2, r) = run_grains-Listing i c js ai l s h in
    let here : in_hand ai
          (record { h = pos i; n = j; o = pos (suc m) ∷ p ∷ pos c.wei ∷ c.len ∷ [] })
        ≡ true =
      ap is_positive at ∙ positive m in
    Gives-bind {P = λ (n : ℤ). Unit {0}} (pos (suc m), at, tt)
      (λ n e _. rw (e1, e2) (_, refl, record { all = ((refl, here), r.all); size = ap suc r.size }))

join-Listing :
    (ai : Ai) (m n : ℕ) (gs hs : List MjGrain)
    → Listing ai m gs
    → Listing ai n hs
    → Listing ai (m + n) (gs ++ hs)
join-Listing ai m n gs hs r t = record {
  all = All-append (Listed ai) gs hs r.all t.all;
  size = let k = r.size in let l = t.size in omega (arith, length-append gs hs);
}

get_mj_grain_list-Listing :
    (i : ℕ) (cs : List ChildBlock) (ai : Ai)
    → i < 3
    → Sound ai
    → All (Giveable i ai) (places_of cs)
    → Gives (get_mj_grain_list i cs ai) (Listing ai (length (places_of cs)))
unfolding get_mj_grain_list
get_mj_grain_list-Listing i [] ai l s h = ([], refl, record { all = tt; size = refl })
get_mj_grain_list-Listing i (c ∷ cs) ai l s h =
    Gives-bind (run_grains-Listing i c c.bl ai l s (All-left (Giveable i ai) c.bl (places_of cs) h))
      (λ gs e r.
        Gives-bind
          (get_mj_grain_list-Listing i cs ai l s (All-right (Giveable i ai) c.bl (places_of cs) h))
          (λ hs e1 t. (
            gs ++ hs,
            refl,
            subst (λ n. Listing ai n (gs ++ hs)) (sym (length-append c.bl (places_of cs)))
                (join-Listing ai _ _ gs hs r t),
          )))

abbrev pub count_places : List NewBlock → ℕ
count_places [] = 0
count_places (b ∷ bs) = length (places_of b.child) + count_places bs

all_grains-Listing :
    (bs : List NewBlock) (ai : Ai)
    → Sound ai
    → All InRange bs
    → AllFresh (hand ai.public) bs
    → Gives (all_grains bs ai) (Listing ai (count_places bs))
unfolding all_grains
all_grains-Listing [] ai s rs fs = ([], refl, record { all = tt; size = refl })
all_grains-Listing (b ∷ bs) ai s (r, rs) (f, fs) =
    Gives-bind
      (get_mj_grain_list-Listing b.i b.child ai r.suit s (Fresh-Giveable b.i ai b s r.suit refl f))
      (λ gs e t.
        Gives-bind (all_grains-Listing bs ai s rs fs)
          (λ hs e1 t1. (gs ++ hs, refl, join-Listing ai _ _ gs hs t t1)))

not_zero : (n : ℤ) (c : ℕ) → n ≡ pos (suc c) → (n ==ℤ pos 0) ≡ true → ⊥
not_zero n c e gap = ground arith

pub occupied-some :
    (j k c : ℕ) (row : Row) → get_elem? row k ≡ some (pos (suc c)) → 0 < length (occupied j row)
occupied-some j k c [] h = absurd (cc)
occupied-some j k c (n ∷ row) h = elim (Bool-cases (n ==ℤ pos 0)) [
  | inr tiles ↦ rw tiles (omega arith)
  | inl gap ↦ rw gap (later k h gap (λ k' e. occupied-some (suc j) k' c row e))
]
  where
    later :
        (k : ℕ)
        → get_elem? (n ∷ row) k ≡ some (pos (suc c))
        → (n ==ℤ pos 0) ≡ true
        → ((k' : ℕ) → get_elem? row k' ≡ some (pos (suc c)) → 0 < length (occupied (suc j) row))
        → 0 < length (occupied (suc j) row)
    later zero e gap rest = absurd (not_zero n c (some-injective _ _ e) gap)
    later (suc k) e gap rest = rest k e

pub count_places-some :
    (i : ℕ) (rows : List Row) (row : Row) (bs : List NewBlock)
    → Has i (suits bs)
    → AllFresh rows bs
    → get_elem? rows i ≡ some row
    → 0 < length (occupied 0 row)
    → 0 < count_places bs
count_places-some i rows row [] has fs e l = elim has [ ]
count_places-some i rows row (b ∷ bs) (inl here) ((row', e', exact), fs) e l =
    let same : row' ≡ row = some-injective _ _ (sym e' ∙ ap (get_elem? rows) here ∙ e) in
    let size = ap length (exact.places ∙ ap (occupied 0) same) in omega arith
count_places-some i rows row (b ∷ bs) (inr has) (f, fs) e l =
    let rest = count_places-some i rows row bs has fs e l in omega arith

-- On a sound player whose blocks match the hand, and whose hand has a tile of one of the three suits,
-- `EasyOuts` returns a tile of the hand.
pub easy_outs-in_hand :
    (i j c : ℕ) (ai : Ai)
    → Steady ai
    → i < 3
    → now_cell i j ai ≡ some (pos (suc c))
    → (g : MjGrain) × (easy_outs ai ≡ some g) × (in_hand ai g ≡ true)
unfolding easy_outs
easy_outs-in_hand i j c ai s l at =
    let (u, e, _) = Table-user ai.public 3 s.sound.table (omega arith) in
    let (row, e1, e2) = row_of u.now (rw e at at) in
    let on_hand : get_elem? (hand ai.public) i ≡ some row = rw e e1 in
    let some_place =
      count_places-some i (hand ai.public) row ai.blocks (s.sound.blocks.each.all i l) s.fresh
        on_hand (occupied-some 0 j c row e2) in
    rw (all_blocks-Sound ai s.sound) (
      Gives-bind (all_grains-Listing ai.blocks ai s.sound s.sound.blocks.range s.fresh) (λ grs e3 r.
        let size = r.size in
        let (g, e4, m, _) =
          sort_grain_arrs_best false (true ∷ false ∷ false ∷ []) grs 0 4 (omega arith) (omega arith)
            (All-map (Listed ai) (λ g. length g.o ≡ 4) grs (λ g h. h.0) r.all) in
        (
          g,
          e4,
          mem-All (λ g. in_hand ai g ≡ true) (λ g. Bool-set (in_hand ai g) true) grs g
              (All-map (Listed ai) (λ g. in_hand ai g ≡ true) grs (λ g h. h.1) r.all) m,
        )))
  where
    row_of :
        (rows : List Row)
        → cell rows i j ≡ some (pos (suc c))
        → (row : Row) × (get_elem? rows i ≡ some row) × (get_elem? row j ≡ some (pos (suc c)))
    row_of rows h = >>=-eq-some (get_elem? rows i) (λ row. get_elem? row j) h
