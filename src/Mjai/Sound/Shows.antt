-- ===== src/Mjai/Sound/Shows.antt =====
-- `SelfSee` returns on a sound player whose blocks match the hand, and spares a tile of which nothing
-- is on the table.
use mathlib.Core.Option.{some-injective}
use route_server.Prelude.{
  ℕ, ◌+◌, ◌*◌, ◌/◌, ◌%◌, ◌<◌, ℤ, pos, minus_one, true, false, ◌||◌, ◌&&◌, some, List, [], ◌∷◌, ◌≡◌,
  refl, sym, ap, ◌∙◌, subst, inl, inr, get_elem?, set, length, All, arith, Bool-cases, >>=-eq-some,
  Gives, Gives-bind, ◌==◌, ◌==ℤ◌, gtb_ℤ, ltb, get_elem?-set_self, lt-length_of_get_elem?,
  if◌then◌else◌,
}
use route_server.Mjai.Weight.{Row}
use route_server.Mjai.Ai.{Ai, UserPublic, cell, change, now_cell, change_now, set_public_down}
use route_server.Mjai.Full.{check_full}
use route_server.Mjai.Outs.{add_fourth, see_cells, self_see, all_cells}
use route_server.Mjai.Sound.{Grid}
use route_server.Mjai.Sound.Rows.{Table-user, cell-gives}
use route_server.Mjai.Sound.Readings.{check_full-Returns, Returns}
use route_server.Mjai.Sound.Waits.{Steady}
use route_server.Mjai.Sound.Choice.{InHand}
use route_server.Mjai.Sound.Moves.{set_public_down-Steady}
use route_server.Mjai.Sound.Cells.{
  Cell, Different, Unlike, all_cells-Unlike, all_cells-Grid, change-others,
}
use route_server.Mjai.Sound.Going.{Going, Going-tail, search-Going, take_out-Going}

add_fourth-Going :
    (isf : ℤ) (p q : ℕ) (c : Cell) (cs : List Cell) (ai : Ai)
    → Going p q (c ∷ cs) ai
    → All (Different c) cs
    → ¬ ((c.0 ≡ p) × (c.1 ≡ q))
    → Gives (add_fourth isf c.0 c.1 c.2 ai) (λ r. Going p q cs r.1)
unfolding add_fourth
add_fourth-Going isf p q c cs ai g others apart =
    Gives-bind (search-Going isf p q (c ∷ cs) ai g) (λ r e g1. elim (Bool-cases (length r.0 == 0)) [
      | inl waiting ↦ rw waiting ((true, r.1), refl, Going-tail p q c cs r.1 g1)
      | inr ready ↦ rw ready (
          Gives-bind (take_out-Going p q c cs r.1 g1 others apart) (λ less e1 g2.
            Gives-bind (search-Going isf p q cs less g2) (λ r2 e2 g3. (_, refl, g3))))
    ])

pub change-there :
    (f : ℤ → ℤ) (rows rows' : List Row) (i j : ℕ)
    → change f rows i j ≡ some rows'
    → (c : ℤ) × (cell rows i j ≡ some c) × (cell rows' i j ≡ some (f c))
change-there f rows rows' i j h =
    let (row, e1, h1) = >>=-eq-some (get_elem? rows i) _ h in
    let (c, e2, h2) = >>=-eq-some (get_elem? row j) _ h1 in
    let at_row = get_elem?-set_self rows i (set row j (f c)) (lt-length_of_get_elem? rows i e1) in
    let at_cell = get_elem?-set_self row j (f c) (lt-length_of_get_elem? row j e2) in
    (
      c,
      rw (e1, e2) refl,
      ap (λ rs. cell rs i j) (sym (some-injective _ _ h2)) ∙ rw (at_row, at_cell) refl,
    )

-- A cell that is zero stays so when a cell is set to zero.
zero-kept :
    (rows rows' : List Row) (i j p q : ℕ)
    → change (λ _. pos 0) rows i j ≡ some rows'
    → cell rows p q ≡ some (pos 0)
    → cell rows' p q ≡ some (pos 0)
zero-kept rows rows' i j p q h zero_there = elim (Bool-cases (i == p && j == q)) [
  | inl same ↦
      let row_eq : i ≡ p = ground arith in
      let place_eq : j ≡ q = ground arith in
      let (c, _, e) = change-there (λ _. pos 0) rows rows' i j h in
      (λ t. cell rows' (sym row_eq t) (sym place_eq t)) ∙ e
  | inr other ↦
      change-others (λ _. pos 0) rows rows' i j p q h
        (λ e. let row_eq = e.0 in let place_eq = e.1 in absurd (ground arith))
      ∙ zero_there
]

clear_down-Going :
    (t p q : ℕ) (cs : List Cell) (ai : Ai)
    → t < 27
    → Going p q cs ai
    → Gives (set_public_down 3 t (pos 0) ai) (Going p q cs)
unfolding set_public_down
clear_down-Going t p q cs ai l g =
    let (ai', e, s) = set_public_down-Steady 3 t (pos 0) ai (omega arith) l g.steady in
    let (u, e1, h1) = >>=-eq-some (get_elem? ai.public 3) _ e in
    let (down', e2, h2) = >>=-eq-some (change (λ _. pos 0) u.down (t / 9) (t % 9)) _ h1 in
    let same : u ≡ g.own.user = some-injective _ _ (sym e1 ∙ g.own.there) in
    let down_eq : u.down ≡ g.down = ap (λ (v : UserPublic). v.down) same ∙ g.own.down_eq in
    let u' : UserPublic = record u { down = down' } in
    (
      ai',
      e,
      record {
        steady = s;
        now = g.now;
        down = down';
        own = record {
          user = u';
          there =
              ap (λ (a : Ai). get_elem? a.public 3) (sym (some-injective _ _ h2))
              ∙ get_elem?-set_self ai.public 3 u' (lt-length_of_get_elem? ai.public 3 e1);
          now_eq = ap (λ (v : UserPublic). v.now) same ∙ g.own.now_eq;
          down_eq = refl;
        };
        coming = g.coming;
        held = g.held;
        spare =
            zero-kept g.down down' (t / 9) (t % 9) p q
              (ap (λ rows. change (λ _. pos 0) rows (t / 9) (t % 9)) (sym down_eq) ∙ e2) g.spare;
      },
    )

-- At the end no cell is to come.
Going-end : (p q : ℕ) (cs : List Cell) (ai : Ai) → Going p q cs ai → Going p q [] ai
Going-end p q [] ai g = g
Going-end p q (c ∷ cs) ai g = Going-end p q cs ai (Going-tail p q c cs ai g)

see_cells-Going :
    (isf c_out : ℤ) (p q : ℕ) (cs : List Cell) (ai : Ai)
    → Unlike cs
    → Going p q cs ai
    → Gives (see_cells isf c_out cs ai) (λ r. Going p q [] r.1)
unfolding see_cells
see_cells-Going isf c_out p q [] ai un g = ((c_out, ai), refl, g)
see_cells-Going isf c_out p q ((i, j, n) ∷ cs) ai (others, un) g =
    let (u, e, pl) = Table-user ai.public 3 g.steady.sound.table (omega arith) in
    let (l, k, at) = g.coming.0 in
    let (d, e1, _) = cell-gives u.down i j pl.down l k in
    let g' = Going-tail p q (i, j, n) cs ai g in
    let same : u ≡ g.own.user = some-injective _ _ (sym e ∙ g.own.there) in
    let down_eq : u.down ≡ g.down = ap (λ (v : UserPublic). v.down) same ∙ g.own.down_eq in
    let apart : (d ==ℤ pos 0) ≡ false → ¬ ((i ≡ p) × (j ≡ q)) = λ h t.
      let none_down : d ≡ pos 0 =
        some-injective _ _ (sym e1 ∙ (λ z. cell (down_eq z) (t.0 z) (t.1 z)) ∙ g.spare) in
      absurd (ground arith) in
    rw (e, e1)
      (elim (Bool-cases (pos i ==ℤ u.inv || n ==ℤ pos 0)) [
        | inl skipped ↦ rw skipped (see_cells-Going isf c_out p q cs ai un g')
        | inr mine ↦ elim (Bool-cases (n ==ℤ pos 4)) [
          | inl four ↦ rw (mine, four) ((pos 32, ai), refl, Going-end p q cs ai g')
          | inr fewer ↦ elim (Bool-cases (d ==ℤ pos 0)) [
            | inl bare ↦ rw (mine, fewer, bare) (see_cells-Going isf c_out p q cs ai un g')
            | inr shown ↦ elim (Bool-cases (gtb_ℤ n (pos 1))) [
              | inl several ↦
                  rw (mine, fewer, shown, several)
                    (Gives-bind (clear_down-Going (i * 9 + j) p q cs ai (omega arith) g')
                      (λ ai' e2 g2. see_cells-Going isf c_out p q cs ai' un g2))
              | inr one ↦
                  rw (mine, fewer, shown, one)
                    (Gives-bind (add_fourth-Going isf p q (i, j, n) cs ai g others (apart shown))
                      (λ r e2 g2. elim (Bool-cases r.0) [
                        | inl show ↦ rw show ((pos 32, r.1), refl, Going-end p q cs r.1 g2)
                        | inr hide ↦ rw hide (see_cells-Going isf c_out p q cs r.1 un g2)
                      ]))
            ]
          ]
        ]
      ])

-- A tile of the hand of which nothing is on the table before the player.
pub record Spare (p q : ℕ) (ai : Ai) : Type 0 where
  pub held : InHand p q ai
  pub bare : (u : UserPublic) × (get_elem? ai.public 3 ≡ some u) × (cell u.down p q ≡ some (pos 0))

pub self_see-Steady :
    (isf c_out : ℤ) (p q : ℕ) (ai : Ai)
    → Steady ai
    → Spare p q ai
    → Gives (self_see isf c_out ai) (λ r. Steady r.1 × InHand p q r.1)
unfolding self_see
self_see-Steady isf c_out p q ai s spare =
    let (u, e, bare) = spare.bare in
    let (c, at) = spare.held in
    let (u', e', pl) = Table-user ai.public 3 s.sound.table (omega arith) in
    let same : u' ≡ u = some-injective _ _ (sym e' ∙ e) in
    let g : Going p q (all_cells 0 u.now) ai = record {
      steady = s;
      now = u.now;
      down = u.down;
      own = record { user = u; there = e; now_eq = refl; down_eq = refl };
      coming = all_cells-Grid u.now (subst (λ (v : UserPublic). Grid v.now) same pl.now.grid);
      held = (c, rw e at at);
      spare = bare;
    } in
    let done : (ai' : Ai) → Going p q [] ai' → Steady ai' × InHand p q ai' = λ ai' g'. (
      g'.steady,
      (g'.held.0, rw g'.own.there (ap (λ rows. cell rows p q) g'.own.now_eq ∙ g'.held.1)),
    ) in
    let (f, e1, _) = full in
    rw (e1, e)
      (elim (Bool-cases (ltb 0 f)) [
        | inl won ↦ rw won ((pos 33, ai), refl, done ai (Going-end p q (all_cells 0 u.now) ai g))
        | inr playing ↦ rw playing (
            let (r, e2, g') =
              see_cells-Going isf c_out p q (all_cells 0 u.now) ai (all_cells-Unlike 0 u.now) g in
            (r, e2, done r.1 g'))
      ])
  where
    full : Returns (if c_out ==ℤ minus_one then check_full true ai else some 0)
    full = elim (Bool-cases (c_out ==ℤ minus_one)) [
      | inl no_tile ↦ rw no_tile (check_full-Returns true ai s.sound)
      | inr tile ↦ rw tile (0, refl, tt)
    ]

-- The cell after its change.
pub change_now-there :
    (f : ℤ → ℤ) (i j : ℕ) (ai ai' : Ai) (c : ℤ)
    → now_cell i j ai ≡ some c
    → change_now f i j ai ≡ some ai'
    → now_cell i j ai' ≡ some (f c)
change_now-there f i j ai ai' c at h =
    let (u, e1, h1) = >>=-eq-some (get_elem? ai.public 3) _ h in
    let (now, e2, h2) = >>=-eq-some (change f u.now i j) _ h1 in
    let (d, before, after) = change-there f u.now now i j e2 in
    let u' : UserPublic = record u { now = now } in
    let own : get_elem? (set ai.public 3 u') 3 ≡ some u' =
      get_elem?-set_self ai.public 3 u' (lt-length_of_get_elem? ai.public 3 e1) in
    let same : d ≡ c = some-injective _ _ (sym before ∙ (rw e1 at at)) in
    ap (λ (a : Ai). now_cell i j a) (sym (some-injective _ _ h2))
    ∙ rw own (after ∙ ap (λ m. some (f m)) same)
