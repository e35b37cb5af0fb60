-- ===== src/Mjai/Weight/Taken.antt =====
-- The loop of mjai's `WeightVal` that takes a tile at each of the first positions of a run.

use route_server.Prelude.{
  ℕ, zero, suc, ◌+◌, ◌<◌, ℤ, pos, ◌-ℤ◌, Bool, true, false, some, List, [], ◌∷◌, ◌≡◌, ◌≢◌, ◌⊎◌, refl,
  sym, ap, ◌∙◌, subst, inl, inr, get_elem?, set, length, drop, rev_append, All, arith, Bool-cases,
  get_elem?-set_self, get_elem?-set_ne, lt-length_of_get_elem?,
}
use route_server.Mjai.Grain.{MjGrain}
use route_server.Mjai.Bubble.Laws.{at_zero}
use route_server.Mjai.Weight.{Row, Strip, strip_one, strip, tiles}
use route_server.Mjai.Weight.Runs.{Held, Apart, Distinct, IsRun}

-- One tile less.
abbrev less : Row → ℕ → ℕ → Row
less row j c = set row j (pos c)

tiles-less :
    (row : Row) (j c : ℕ)
    → get_elem? row j ≡ some (pos (suc c))
    → suc (tiles (less row j c)) ≡ tiles row
tiles-less [] j c h = absurd (cc)
tiles-less (x ∷ row) zero c h = ground arith
tiles-less (x ∷ row) (suc j) c h = omega (arith, tiles-less row j c h)

Held-less : (row : Row) (j c i : ℕ) → j ≢ i → Held row i → Held (less row j c) i
Held-less row j c i apart (d, h) = (d, get_elem?-set_ne row (pos c) apart ∙ h)

All-Held-less :
    (row : Row) (j c : ℕ) (bl : List ℕ)
    → Apart j bl
    → All (Held row) bl
    → All (Held (less row j c)) bl
All-Held-less row j c [] a h = tt
All-Held-less row j c (i ∷ bl) a h = (Held-less row j c i a.0 h.0, All-Held-less row j c bl a.1 h.1)

drop-rev_append : (pre post : List ℕ) → drop (length pre) (rev_append pre post) ≡ post
drop-rev_append pre post = rw add_zero at (general pre 0 post)
  where
    add_zero : length pre + 0 ≡ length pre
    add_zero = omega arith

    general :
        (pre : List ℕ) (k : ℕ) (ys : List ℕ) → drop (length pre + k) (rev_append pre ys) ≡ drop k ys
    general [] k ys = let e : 0 + k ≡ k = omega arith in rw e
    general (p ∷ pre) k ys =
        let e : suc (length pre) + k ≡ length pre + suc k = omega arith in
        rw e (general pre (suc k) (p ∷ ys))

strip_one-row : (i j c : ℕ) (s : Strip) → (strip_one i j (pos (suc c)) s).row ≡ less s.row j c
unfolding strip_one ◌-ℤ◌
strip_one-row i j c s = ground arith

-- What is left of a run after the loop over the positions `pre`, the last one first.
pub record Left (pre post : List ℕ) (s s' : Strip) : Type 0 where
  pub kept : List ℕ
  pub rest : drop s'.start (rev_append pre post) ≡ kept
  pub run : IsRun s'.row kept
  pub fewer : tiles s'.row + length pre ≡ tiles s.row

-- The state of the loop before the positions `pre`.
record Loop (pre post : List ℕ) (s : Strip) : Type 0 where
  kept : List ℕ
  rest : drop s.start (rev_append pre post) ≡ kept
  whole : s.isb ≡ false → kept ≡ post
  run : IsRun s.row kept
  ahead : IsRun s.row pre
  apart : All (λ p. Apart p kept) pre

Apart-sym : (p : ℕ) (pre : List ℕ) → Apart p pre → All (λ q. q ≢ p) pre
Apart-sym p [] a = tt
Apart-sym p (q ∷ pre) a = ((λ e. a.0 (sym e)), Apart-sym p pre a.1)

Apart-cons :
    (p : ℕ) (kept pre : List ℕ)
    → Apart p pre
    → All (λ q. Apart q kept) pre
    → All (λ q. Apart q (p ∷ kept)) pre
Apart-cons p kept [] a h = tt
Apart-cons p kept (q ∷ pre) a h = (((λ e. a.0 (sym e)), h.0), Apart-cons p kept pre a.1 h.1)

strip_one-cases :
    (i j c : ℕ) (s : Strip)
    → (((strip_one i j (pos (suc c)) s).start ≡ s.start)
        × ((strip_one i j (pos (suc c)) s).isb ≡ true))
      ⊎ (((strip_one i j (pos (suc c)) s).start ≡ i) × (s.isb ≡ false) × (0 < c))
unfolding strip_one ◌-ℤ◌
strip_one-cases i j zero s = inl (refl, refl)
strip_one-cases i j (suc c) s = elim (Bool-cases s.isb) [
  | inl old ↦ inl (ground arith, ground arith)
  | inr new ↦ inr (ground arith, new, omega arith)
]

less-IsRun :
    (row : Row) (p c : ℕ) (bl : List ℕ) → Apart p bl → IsRun row bl → IsRun (less row p c) bl
less-IsRun row p c bl a r = record {
  held = All-Held-less row p c bl a r.held;
  distinct = r.distinct;
}

Held-here : (row : Row) (p c : ℕ) → 0 < c → p < length row → Held (less row p c) p
Held-here row p zero more lt = absurd (omega arith)
Held-here row p (suc d) more lt = (d, get_elem?-set_self row p (pos (suc d)) lt)

strip_one-Loop :
    (p c : ℕ) (pre post : List ℕ) (s : Strip)
    → get_elem? s.row p ≡ some (pos (suc c))
    → Loop (p ∷ pre) post s
    → Loop pre (p ∷ post) (strip_one (length pre) p (pos (suc c)) s)
strip_one-Loop p c pre post s h v = elim (strip_one-cases (length pre) p c s) [
  | inl (start, old) ↦ record {
    kept = v.kept;
    rest = rw start v.rest;
    whole = λ new. absurd (true_false old new);
    run = rw (strip_one-row (length pre) p c s) (less-IsRun s.row p c v.kept v.apart.0 v.run);
    ahead =
        rw (strip_one-row (length pre) p c s) (less-IsRun s.row p c pre v.ahead.distinct.0 ahead);
    apart = v.apart.1;
  }
  | inr (start, new, more) ↦ record {
    kept = p ∷ post;
    rest = rw start (drop-rev_append pre (p ∷ post));
    whole = λ _. refl;
    run = rw (strip_one-row (length pre) p c s) (
        grown more
          (subst (λ (l : List ℕ). IsRun (less s.row p c) l) (v.whole new)
            (less-IsRun s.row p c v.kept v.apart.0 v.run))
          (subst (λ (l : List ℕ). Apart p l) (v.whole new) v.apart.0));
    ahead =
        rw (strip_one-row (length pre) p c s) (less-IsRun s.row p c pre v.ahead.distinct.0 ahead);
    apart =
        Apart-cons p post pre v.ahead.distinct.0
          (subst (λ (l : List ℕ). All (λ q. Apart q l) pre) (v.whole new) v.apart.1);
  }
]
  where
    true_false : {b : Bool} → b ≡ true → b ≡ false → ⊥
    true_false t f = cc

    ahead : IsRun s.row pre
    ahead = record { held = v.ahead.held.1; distinct = v.ahead.distinct.1 }

    grown : 0 < c → IsRun (less s.row p c) post → Apart p post → IsRun (less s.row p c) (p ∷ post)
    grown more r a = record {
      held = (Held-here s.row p c more (lt-length_of_get_elem? s.row p h), r.held);
      distinct = (a, r.distinct);
    }

strip-Left :
    (pre post : List ℕ) (s : Strip)
    → Loop pre post s
    → (s' : Strip) × (strip (length pre) (rev_append pre post) s ≡ some s') × Left pre post s s'
unfolding strip
strip-Left [] post s v =
    (s, refl, record { kept = v.kept; rest = v.rest; run = v.run; fewer = omega arith })
strip-Left (p ∷ pre) post s v =
    let (c, h) = v.ahead.held.0 in
    let (s', e, l) =
      strip-Left pre (p ∷ post) (strip_one (length pre) p (pos (suc c)) s)
        (strip_one-Loop p c pre post s h v) in
    (
      s',
      rw (at_zero pre p post, h) e,
      record {
        kept = l.kept;
        rest = l.rest;
        run = l.run;
        fewer =
            omega
              (arith, l.fewer, ap tiles (strip_one-row (length pre) p c s), tiles-less s.row p c h);
      },
    )

-- The state after the loop over the first three positions of a run.
abbrev pub start_of : Row → ℤ → List MjGrain → Strip
start_of row w o = record { row = row; start = 3; isb = false; w = w; o = o }

pub strip_three :
    (row : Row) (a b c : ℕ) (bl : List ℕ) (w : ℤ) (o : List MjGrain)
    → IsRun row (a ∷ b ∷ c ∷ bl)
    → (s : Strip) × (strip 3 (a ∷ b ∷ c ∷ bl) (start_of row w o) ≡ some s)
      × Left (c ∷ b ∷ a ∷ []) bl (start_of row w o) s
strip_three row a b c bl w o r = strip-Left (c ∷ b ∷ a ∷ []) bl (start_of row w o) (record {
  kept = bl;
  rest = refl;
  whole = λ _. refl;
  run = record { held = r.held.1.1.1; distinct = r.distinct.1.1.1 };
  ahead = record {
    held = (r.held.1.1.0, (r.held.1.0, (r.held.0, tt)));
    distinct = reverse_three r.distinct;
  };
  apart = (r.distinct.1.1.0, (r.distinct.1.0.1, (r.distinct.0.1.1, tt)));
})
  where
    reverse_three : Distinct (a ∷ b ∷ c ∷ bl) → Distinct (c ∷ b ∷ a ∷ [])
    reverse_three d = (
      ((λ e. d.1.0.0 (sym e)), ((λ e. d.0.1.0 (sym e)), tt)),
      (((λ e. d.0.0 (sym e)), tt), (tt, tt)),
    )
