-- ===== src/Mjai/Sound/Judged.antt =====
-- `CheckJiao` judges a tile, and the tiles of a suit, as if each alone had been tried.
use mathlib.Core.Option.{some-injective}
use mathlib.Core.List.{Perm, perm_middle}
use mathlib.Core.List.Perm
use route_server.Prelude.{
  ℕ, ◌<◌, ℤ, pos, neg_part, Bool, true, ◌&&◌, not, some, List, [], ◌∷◌, ◌++◌, ◌≡◌, refl, sym, ap,
  ◌∙◌, inl, inr, All, Bool-cases, Gives, ◌==ℤ◌, gtb_ℤ, ltb_ℤ, ltb,
}
use route_server.Mjai.Bubble.Laws.{IsSorted}
use route_server.Mjai.Bubble.Pass.{bubble-last}
use route_server.Mjai.Grain.{MjGrain, score, sortd_grain}
use route_server.Mjai.Grain.Laws.{key, before-IsOrder}
use route_server.Mjai.Ai.{Ai}
use route_server.Mjai.Search.{inc, dec, keep_jiao, try_tile, try_tiles}
use route_server.Mjai.Search.Restore.{
  frame, dec-inc, change_now-alike, change_now-frame, update_block-frame,
}
use route_server.Mjai.Search.Expected.{value_with, worth, wait, suit_waits}
use route_server.Mjai.Sound.Rows.{now_cell-gives}
use route_server.Mjai.Sound.Readings.{check_full-Returns}
use route_server.Mjai.Sound.Waits.{
  Steady, Trying, Trying-of_Steady, settle_block, try_change, inc-count, now_cell-public,
}
use route_server.Mjai.Sound.Same.{shed, Steady-settled, check_full-same}

-- Tiles with a score, in descending order.
pub record Ranked (gr : List MjGrain) : Type 0 where
  pub keyed : All (λ g. score 0 g ≡ some (key 0 g)) gr
  pub sorted : IsSorted (score 0) gtb_ℤ (key 0) gr

keep_jiao-Ranked :
    (isf : ℤ) (i j fn : ℕ) (gr : List MjGrain)
    → Ranked gr
    → Gives (keep_jiao isf i j fn gr) (λ gr'. Ranked gr' × Perm gr' (worth isf i j fn ++ gr))
unfolding keep_jiao sortd_grain
keep_jiao-Ranked isf i j fn gr r = elim (Bool-cases (ltb 0 fn && not (ltb_ℤ (pos fn) isf))) [
  | inr low ↦ rw low (gr, refl, (r, Perm.refl gr))
  | inl kept ↦
      let g : MjGrain = record { h = pos i; n = j; o = pos fn ∷ [] } in
      let (ys, e, p, keyed, sorted) =
        bubble-last (score 0) gtb_ℤ (key 0) (before-IsOrder true) gr g r.keyed refl r.sorted in
      rw kept (ys, e, (record { keyed = keyed; sorted = sorted }, p))
]

-- A player in the middle of the search for tiles of suit `i`, begun with `ai`.
pub record Amid (i : ℕ) (ai ai' : Ai) : Type 0 where
  pub trying : Trying i ai'
  pub kept : frame ai' ≡ frame ai

-- The search has put `ws` into the list.
pub record Noted (i : ℕ) (ai : Ai) (ws gr : List MjGrain) (r : List MjGrain × Ai) : Type 0 where
  pub ranked : Ranked r.0
  pub found : Perm r.0 (ws ++ gr)
  pub amid : Amid i ai r.1

try_tile-wait :
    (isf : ℤ) (is_m : Bool) (i j : ℕ) (gr : List MjGrain) (ai ai' : Ai)
    → Steady ai
    → i < 3
    → j < 9
    → Ranked gr
    → Amid i ai ai'
    → Gives
        (wait isf is_m i j ai)
        (λ ws. Gives (try_tile isf is_m i j (gr, ai')) (Noted i ai ws gr))
unfolding wait try_tile value_with
try_tile-wait isf is_m i j gr ai ai' s l k ranked m =
    let (n, e0, nn) = now_cell-gives i j ai s.sound l k in
    let e0' = now_cell-public i j ai ai' (ap (λ p. p.0) m.kept) ∙ e0 in
    elim (Bool-cases (n ==ℤ pos 4)) [
      | inl four ↦
          rw (e0, e0', four)
            (
              [],
              refl,
              ((gr, ai'), refl, record { ranked = ranked; found = Perm.refl gr; amid = m }),
            )
      | inr other ↦
          let (more, e1, c1) =
            try_change inc i j ai (Trying-of_Steady i ai s) l k (λ c _ h. inc-count c h) in
          let (fresh, e2, s2) = settle_block i more c1.0 l in
          let (fn, e3, _) = check_full-Returns is_m fresh s2.0.sound in
          let (more', e1', c1') = try_change inc i j ai' m.trying l k (λ c _ h. inc-count c h) in
          let (fresh', e2', s2') = settle_block i more' c1'.0 l in
          let same : shed fresh' ≡ shed fresh = Steady-settled fresh fresh' s2.0 s2'.0 (
            update_block-frame i more' fresh' e2'
            ∙ change_now-alike inc i j ai ai' more more' m.kept e1 e1'
            ∙ sym (update_block-frame i more fresh e2)) in
          let e3' = check_full-same is_m fresh fresh' s2.0.sound s2'.0.sound same ∙ e3 in
          let (gr', e4, q) = keep_jiao-Ranked isf i j fn gr ranked in
          let there = now_cell-public i j more' fresh' s2'.1 ∙ c1'.1 n e0' in
          let (back, e5, c5) =
            try_change dec i j fresh' (Trying-of_Steady i fresh' s2'.0) l k (λ c at h.
              ap (λ d. neg_part (dec d)) (some-injective _ _ (sym at ∙ there))
              ∙ ap neg_part (dec-inc n)
              ∙ nn) in
          let restored =
            change_now-frame inc dec i j ai' more' fresh' back dec-inc e1'
              (update_block-frame i more' fresh' e2') e5 in
          rw (e0, e0', other, e1, e2, e3, e1', e2', e3', e4, e5)
            (
              worth isf i j fn,
              refl,
              (
                (gr', back),
                refl,
                record {
                  ranked = q.0;
                  found = q.1;
                  amid = record { trying = c5.0; kept = restored ∙ m.kept };
                },
              ),
            )
    ]

rotate : (xs ys zs : List MjGrain) → Perm (xs ++ (ys ++ zs)) ((ys ++ xs) ++ zs)
rotate xs [] zs = Perm.refl (xs ++ zs)
rotate xs (y ∷ ys) zs = Perm.trans (perm_middle xs (ys ++ zs)) (Perm.cons y (rotate xs ys zs))

-- What is noted first and what is noted then.
pub found_both :
    (here others gr : List MjGrain) {gr1 gr2 : List MjGrain}
    → Perm gr1 (here ++ gr)
    → Perm gr2 (others ++ gr1)
    → Perm gr2 ((here ++ others) ++ gr)
found_both here others gr p q =
    Perm.trans q (Perm.trans (Perm.append_left others p) (rotate others here gr))

pub try_tiles-waits :
    (isf : ℤ) (is_m : Bool) (i : ℕ) (js : List ℕ) (gr : List MjGrain) (ai ai' : Ai)
    → Steady ai
    → i < 3
    → All (λ j. j < 9) js
    → Ranked gr
    → Amid i ai ai'
    → Gives
        (suit_waits isf is_m i js ai)
        (λ ws. Gives (try_tiles isf is_m i js (gr, ai')) (Noted i ai ws gr))
unfolding suit_waits try_tiles
try_tiles-waits isf is_m i [] gr ai ai' s l low ranked m =
    ([], refl, ((gr, ai'), refl, record { ranked = ranked; found = Perm.refl gr; amid = m }))
try_tiles-waits isf is_m i (j ∷ js) gr ai ai' s l (k, low) ranked m =
    let (here, e, (r1, e1, n1)) = try_tile-wait isf is_m i j gr ai ai' s l k ranked m in
    let (others, e2, (r2, e3, n2)) =
      try_tiles-waits isf is_m i js r1.0 ai r1.1 s l low n1.ranked n1.amid in
    rw (e, e2, e1, e3)
      (
        here ++ others,
        refl,
        (
          r2,
          refl,
          record {
            ranked = n2.ranked;
            found = found_both here others gr n1.found n2.found;
            amid = n2.amid;
          },
        ),
      )
