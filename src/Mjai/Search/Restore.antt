-- ===== src/Mjai/Search/Restore.antt =====
-- What the searches of mjai/Ai.go leave behind: every tile that they try is put back.
use mathlib.Core.Option.{some-injective}
use route_server.Prelude.{
  ℕ, ℤ, pos, +ℤ-ℤ_cancel, -ℤ+ℤ_cancel, Bool, true, Option, some, List, [], ◌∷◌, ◌≡◌, sym, ap, ◌∙◌,
  subst, inl, inr, ◌==ℤ◌, gtb_ℤ, ltb, get_elem?, set, length, ◌==◌, ◌>>=◌, Bool-cases, >>=-eq-some,
  set-get_elem?, set-set, get_elem?-set_self, lt-length_of_get_elem?,
}
use route_server.Mjai.Grain.{MjGrain}
use route_server.Mjai.Weight.{Row}
use route_server.Mjai.NewBlock.{NewBlock, ChildBlock, update}
use route_server.Mjai.NewBlock.Again.{update-suit}
use route_server.Mjai.Ai.{
  Ai, UserPublic, now_cell, change, change_now, update_block, update_in, find_block, all_blocks,
}
use route_server.Mjai.Full.{check_full}
use route_server.Mjai.Search.{
  inc, dec, places, suits, keep_jiao, try_tile, try_tiles, try_suits, check_jiao, jiao_grain, Found,
  note_jiao, give_tile, give_run, give_runs, give_suits, choose_found, check_all_jiao,
}

-- The suits of the blocks, and all that is neither a block nor what a player has.
abbrev rest : Ai → Ai × List ℕ
rest ai = (record ai { public = []; blocks = [] }, suits ai.blocks)

-- All but the contents of the blocks.
abbrev pub frame : Ai → List UserPublic × Ai × List ℕ
frame ai = (ai.public, record ai { public = []; blocks = [] }, suits ai.blocks)

update_in-suits :
    (i : ℕ) (row : Row) (bs bs' : List NewBlock)
    → update_in i row bs ≡ some bs'
    → suits bs' ≡ suits bs
unfolding update_in
update_in-suits i row [] bs' h = absurd cc
update_in-suits i row (b ∷ bs) bs' h = elim (Bool-cases (b.i == i)) [
  | inl here ↦
      let (b', e, h1) = >>=-eq-some (update row b) _ (rw here at h) in
      sym (ap suits (some-injective _ _ h1)) ∙ ap (λ k. k ∷ suits bs) (update-suit row b b' e)
  | inr other ↦
      let (bs1, e, h1) = >>=-eq-some (update_in i row bs) _ (rw other at h) in
      sym (ap suits (some-injective _ _ h1)) ∙ ap (λ t. b.i ∷ t) (update_in-suits i row bs bs1 e)
]

pub update_block-public :
    (i : ℕ) (ai ai' : Ai) → update_block i ai ≡ some ai' → ai'.public ≡ ai.public
unfolding update_block
update_block-public i ai ai' h =
    let (u, e1, h1) = >>=-eq-some (get_elem? ai.public 3) _ h in
    let (row, e2, h2) = >>=-eq-some (get_elem? u.now i) _ h1 in
    let (bs, e3, h3) = >>=-eq-some (update_in i row ai.blocks) _ h2 in
    sym (ap (λ (a : Ai). a.public) (some-injective _ _ h3))

pub update_block-frame : (i : ℕ) (ai ai' : Ai) → update_block i ai ≡ some ai' → frame ai' ≡ frame ai
unfolding update_block
update_block-frame i ai ai' h =
    let (u, e1, h1) = >>=-eq-some (get_elem? ai.public 3) _ h in
    let (row, e2, h2) = >>=-eq-some (get_elem? u.now i) _ h1 in
    let (bs, e3, h3) = >>=-eq-some (update_in i row ai.blocks) _ h2 in
    sym (ap frame (some-injective _ _ h3))
    ∙ ap (λ s. (ai.public, record ai { public = []; blocks = [] }, s))
        (update_in-suits i row ai.blocks bs e3)

-- The change `g` of a cell undoes the change `f` of it.
change-back :
    (f g : ℤ → ℤ) (rows rows' : List Row) (i j : ℕ)
    → ((c : ℤ) → g (f c) ≡ c)
    → change f rows i j ≡ some rows'
    → change g rows' i j ≡ some rows
change-back f g rows rows' i j undo h =
    let (row, e1, h1) = >>=-eq-some (get_elem? rows i) _ h in
    let (c, e2, h2) = >>=-eq-some (get_elem? row j) _ h1 in
    subst (λ (r : List Row). change g r i j ≡ some rows) (some-injective _ _ h2)
      (written row c e1 e2)
  where
    written :
        (row : Row) (c : ℤ)
        → get_elem? rows i ≡ some row
        → get_elem? row j ≡ some c
        → change g (set rows i (set row j (f c))) i j ≡ some rows
    written row c e1 e2 = rw (
      get_elem?-set_self rows i (set row j (f c)) (lt-length_of_get_elem? rows i e1),
      get_elem?-set_self row j (f c) (lt-length_of_get_elem? row j e2),
      undo c,
      set-set row j (f c) c,
      set-get_elem? row j c e2,
      set-set rows i (set row j (f c)) row,
      set-get_elem? rows i row e1,
    )

pub change_now-back :
    (f g : ℤ → ℤ) (i j : ℕ) (ai ai1 ai2 ai3 : Ai)
    → ((c : ℤ) → g (f c) ≡ c)
    → change_now f i j ai ≡ some ai1
    → ai2.public ≡ ai1.public
    → change_now g i j ai2 ≡ some ai3
    → ai3.public ≡ ai.public
change_now-back f g i j ai ai1 ai2 ai3 undo h same k =
    let (u, e1, h1) = >>=-eq-some (get_elem? ai.public 3) _ h in
    let (now, e2, h2) = >>=-eq-some (change f u.now i j) _ h1 in
    let u' : UserPublic = record u { now = now } in
    let public1 : ai2.public ≡ set ai.public 3 u' =
      same ∙ sym (ap (λ (a : Ai). a.public) (some-injective _ _ h2)) in
    let (v, e3, k1) = >>=-eq-some (get_elem? ai2.public 3) _ k in
    let (now', e4, k2) = >>=-eq-some (change g v.now i j) _ k1 in
    let at_three = get_elem?-set_self ai.public 3 u' (lt-length_of_get_elem? ai.public 3 e1) in
    let v_is : v ≡ u' =
      some-injective _ _
        (sym e3 ∙ ap (λ (p : List UserPublic). get_elem? p 3) public1 ∙ at_three) in
    let back = change-back f g u.now now i j undo e2 in
    let now'_is : now' ≡ u.now =
      some-injective _ _ (sym e4 ∙ ap (λ (w : UserPublic). change g w.now i j) v_is ∙ back) in
    sym (ap (λ (a : Ai). a.public) (some-injective _ _ k2))
    ∙ (λ t. set (public1 t) 3 (record (v_is t) { now = now'_is t }))
    ∙ set-set ai.public 3 u' u
    ∙ set-get_elem? ai.public 3 u e1

change_now-rest :
    (f : ℤ → ℤ) (i j : ℕ) (ai ai' : Ai) → change_now f i j ai ≡ some ai' → rest ai' ≡ rest ai
change_now-rest f i j ai ai' h =
    let (u, e1, h1) = >>=-eq-some (get_elem? ai.public 3) _ h in
    let (now, e2, h2) = >>=-eq-some (change f u.now i j) _ h1 in
    sym (ap rest (some-injective _ _ h2))

-- So is the change `g` of the cell after what keeps the frame.
pub change_now-frame :
    (f g : ℤ → ℤ) (i j : ℕ) (ai ai1 ai2 ai3 : Ai)
    → ((c : ℤ) → g (f c) ≡ c)
    → change_now f i j ai ≡ some ai1
    → frame ai2 ≡ frame ai1
    → change_now g i j ai2 ≡ some ai3
    → frame ai3 ≡ frame ai
change_now-frame f g i j ai ai1 ai2 ai3 undo h same k =
    let back = change_now-back f g i j ai ai1 ai2 ai3 undo h (ap (λ p. p.0) same) k in
    let kept : rest ai3 ≡ rest ai =
      change_now-rest g i j ai2 ai3 k
      ∙ ap (λ p. (p.1, p.2)) same
      ∙ change_now-rest f i j ai ai1 h in
    λ t. (back t, (kept t).0, (kept t).1)

-- Of two players with the same frame, a change of a cell leaves the same.
pub change_now-alike :
    (f : ℤ → ℤ) (i j : ℕ) (ai ai' next next' : Ai)
    → frame ai' ≡ frame ai
    → change_now f i j ai ≡ some next
    → change_now f i j ai' ≡ some next'
    → frame next' ≡ frame next
change_now-alike f i j ai ai' next next' same h h' =
    some-injective _ _ (sym (moved ai' next' h') ∙ ap after same ∙ moved ai next h)
  where
    after : List UserPublic × Ai × List ℕ → Option (List UserPublic × Ai × List ℕ)
    after p = do
      u ← get_elem? p.0 3
      now ← change f u.now i j
      some (set p.0 3 (record u { now = now }), p.1, p.2)

    moved : (a b : Ai) → change_now f i j a ≡ some b → after (frame a) ≡ some (frame b)
    moved a b k =
        let (u, e1, k1) = >>=-eq-some (get_elem? a.public 3) _ k in
        let (now, e2, k2) = >>=-eq-some (change f u.now i j) _ k1 in
        rw (e1, e2) (ap (λ m. some (frame m)) (some-injective _ _ k2))

pub dec-inc : (c : ℤ) → dec (inc c) ≡ c
dec-inc c = +ℤ-ℤ_cancel c (pos 1)

pub inc-dec : (c : ℤ) → inc (dec c) ≡ c
inc-dec c = -ℤ+ℤ_cancel c (pos 1)

-- A search with result `m` puts back every tile, and has changed at most the blocks' contents.
abbrev Restores {ℓ} : {R : Type ℓ} → Ai → Option (R × Ai) → Type ℓ
Restores {R} ai m = (r : R) (ai' : Ai) → m ≡ some (r, ai') → frame ai' ≡ frame ai

try_tile-Restores :
    (isf : ℤ) (is_m : Bool) (i j : ℕ) (gr : List MjGrain) (ai : Ai)
    → Restores ai (try_tile isf is_m i j (gr, ai))
unfolding try_tile
try_tile-Restores isf is_m i j gr ai gr' ai' h =
    let (n, e0, h0) = >>=-eq-some (now_cell i j ai) _ h in
    elim (Bool-cases (n ==ℤ pos 4)) [
      | inl four ↦ sym (ap (λ p. frame p.1) (some-injective _ _ (rw four at h0)))
      | inr other ↦
          let (more, e1, h1) = >>=-eq-some (change_now inc i j ai) _ (rw other at h0) in
          let (fresh, e2, h2) = >>=-eq-some (update_block i more) _ h1 in
          let (fn, e3, h3) = >>=-eq-some (check_full is_m fresh) _ h2 in
          let (kept, e4, h4) = >>=-eq-some (keep_jiao isf i j fn gr) _ h3 in
          let (back, e5, h5) = >>=-eq-some (change_now dec i j fresh) _ h4 in
          sym (ap (λ p. frame p.1) (some-injective _ _ h5))
          ∙ change_now-frame inc dec i j ai more fresh back dec-inc e1
              (update_block-frame i more fresh e2) e5
    ]

try_tiles-Restores :
    (isf : ℤ) (is_m : Bool) (i : ℕ) (js : List ℕ) (gr : List MjGrain) (ai : Ai)
    → Restores ai (try_tiles isf is_m i js (gr, ai))
unfolding try_tiles
try_tiles-Restores isf is_m i [] gr ai gr' ai' h = sym (ap (λ p. frame p.1) (some-injective _ _ h))
try_tiles-Restores isf is_m i (j ∷ js) gr ai gr' ai' h =
    let ((gr1, ai1), e1, h1) = >>=-eq-some (try_tile isf is_m i j (gr, ai)) _ h in
    try_tiles-Restores isf is_m i js gr1 ai1 gr' ai' h1
    ∙ try_tile-Restores isf is_m i j gr ai gr1 ai1 e1

try_suits-Restores :
    (isf : ℤ) (is_m : Bool) (is : List ℕ) (gr : List MjGrain) (ai : Ai)
    → Restores ai (try_suits isf is_m is (gr, ai))
unfolding try_suits
try_suits-Restores isf is_m [] gr ai gr' ai' h = sym (ap (λ p. frame p.1) (some-injective _ _ h))
try_suits-Restores isf is_m (i ∷ is) gr ai gr' ai' h =
    let (u, e1, h1) = >>=-eq-some (get_elem? ai.public 3) _ h in
    let (b, e2, h2) = >>=-eq-some (find_block i ai.blocks) _ h1 in
    elim (Bool-cases (pos i ==ℤ u.inv)) [
      | inl unwanted ↦ elim (Bool-cases (gtb_ℤ b.sum_len (pos 0))) [
        | inl tiles ↦ sym (ap (λ p. frame p.1) (some-injective _ _ (rw (unwanted, tiles) at h2)))
        | inr none_left ↦
            try_suits-Restores isf is_m is gr ai gr' ai' (rw (unwanted, none_left) at h2)
      ]
      | inr wanted ↦
          let ((gr1, ai1), e3, h3) =
            >>=-eq-some (try_tiles isf is_m i places (gr, ai)) _ (rw wanted at h2) in
          let (ai2, e4, h4) = >>=-eq-some (update_block i ai1) _ h3 in
          try_suits-Restores isf is_m is gr1 ai2 gr' ai' h4
          ∙ update_block-frame i ai1 ai2 e4
          ∙ try_tiles-Restores isf is_m i places gr ai gr1 ai1 e3
    ]

pub check_jiao-Restores : (isf : ℤ) (is_m : Bool) (ai : Ai) → Restores ai (check_jiao isf is_m ai)
unfolding check_jiao
check_jiao-Restores isf is_m ai gr ai' h =
    let (bs, e, h1) = >>=-eq-some (all_blocks ai) _ h in
    try_suits-Restores isf is_m (suits bs) [] ai gr ai' h1

-- If `CheckJiao` returns, the hand, and all else that the players have, is as it was.
pub check_jiao-public :
    (isf : ℤ) (is_m : Bool) (ai : Ai) (gr : List MjGrain) (ai' : Ai)
    → check_jiao isf is_m ai ≡ some (gr, ai')
    → ai'.public ≡ ai.public
check_jiao-public isf is_m ai gr ai' h = ap (λ p. p.0) (check_jiao-Restores isf is_m ai gr ai' h)

note_jiao-Restores :
    (isf : ℤ) (i j : ℕ) (gs : List MjGrain) (r : Found) (ai : Ai)
    → Restores ai (note_jiao isf i j gs (r, ai))
unfolding note_jiao
note_jiao-Restores isf i j gs r ai r' ai' h = elim (Bool-cases (ltb 0 (length gs))) [
  | inr missing ↦ sym (ap (λ p. frame p.1) (some-injective _ _ (rw missing at h)))
  | inl found ↦
      let (g, e1, h1) = >>=-eq-some (jiao_grain i j gs ai) _ (rw found at h) in
      let (c, e2, h2) = >>=-eq-some (now_cell i j ai) _ h1 in
      sym (ap (λ p. frame p.1) (some-injective _ _ h2))
]

pub give_tile-Restores :
    (isf : ℤ) (i j : ℕ) (r : Found) (ai : Ai) → Restores ai (give_tile isf i j (r, ai))
unfolding give_tile
give_tile-Restores isf i j r ai r' ai' h =
    let (less, e1, h1) = >>=-eq-some (change_now dec i j ai) _ h in
    let (fresh, e2, h2) = >>=-eq-some (update_block i less) _ h1 in
    let ((gs, searched), e3, h3) = >>=-eq-some (check_jiao isf true fresh) _ h2 in
    let (back, e4, h4) = >>=-eq-some (change_now inc i j searched) _ h3 in
    let restored =
      change_now-frame dec inc i j ai less searched back inc-dec e1
        (check_jiao-Restores isf true fresh gs searched e3 ∙ update_block-frame i less fresh e2)
        e4 in
    note_jiao-Restores isf i j gs r back r' ai' h4 ∙ restored

pub give_run-Restores :
    (isf : ℤ) (i : ℕ) (js : List ℕ) (r : Found) (ai : Ai) → Restores ai (give_run isf i js (r, ai))
unfolding give_run
give_run-Restores isf i [] r ai r' ai' h = sym (ap (λ p. frame p.1) (some-injective _ _ h))
give_run-Restores isf i (j ∷ js) r ai r' ai' h =
    let ((r1, ai1), e1, h1) = >>=-eq-some (give_tile isf i j (r, ai)) _ h in
    give_run-Restores isf i js r1 ai1 r' ai' h1 ∙ give_tile-Restores isf i j r ai r1 ai1 e1

give_runs-Restores :
    (isf : ℤ) (i : ℕ) (cs : List ChildBlock) (r : Found) (ai : Ai)
    → Restores ai (give_runs isf i cs (r, ai))
unfolding give_runs
give_runs-Restores isf i [] r ai r' ai' h = sym (ap (λ p. frame p.1) (some-injective _ _ h))
give_runs-Restores isf i (c ∷ cs) r ai r' ai' h =
    let ((r1, ai1), e1, h1) = >>=-eq-some (give_run isf i c.bl (r, ai)) _ h in
    give_runs-Restores isf i cs r1 ai1 r' ai' h1 ∙ give_run-Restores isf i c.bl r ai r1 ai1 e1

give_suits-Restores :
    (isf : ℤ) (is : List ℕ) (r : Found) (ai : Ai) → Restores ai (give_suits isf is (r, ai))
unfolding give_suits
give_suits-Restores isf [] r ai r' ai' h = sym (ap (λ p. frame p.1) (some-injective _ _ h))
give_suits-Restores isf (i ∷ is) r ai r' ai' h =
    let (b, e0, h0) = >>=-eq-some (find_block i ai.blocks) _ h in
    let ((r1, ai1), e1, h1) = >>=-eq-some (give_runs isf i b.child (r, ai)) _ h0 in
    let (ai2, e2, h2) = >>=-eq-some (update_block i ai1) _ h1 in
    give_suits-Restores isf is r1 ai2 r' ai' h2
    ∙ update_block-frame i ai1 ai2 e2
    ∙ give_runs-Restores isf i b.child r ai r1 ai1 e1

pub check_all_jiao-Restores : (isf : ℤ) (ai : Ai) → Restores ai (check_all_jiao isf ai)
unfolding check_all_jiao
check_all_jiao-Restores isf ai g ai' h =
    let (bs, e0, h0) = >>=-eq-some (all_blocks ai) _ h in
    let ((r, ai1), e1, h1) =
      >>=-eq-some (give_suits isf (suits bs) (record { jiao = []; for4 = [] }, ai)) _ h0 in
    let (g', e2, h2) = >>=-eq-some (choose_found isf r) _ h1 in
    sym (ap (λ p. frame p.1) (some-injective _ _ h2))
    ∙ give_suits-Restores isf (suits bs) _ ai r ai1 e1

-- If `CheckAllJiao` returns, the hand, and all else that the players have, is as it was.
pub check_all_jiao-public :
    (isf : ℤ) (ai : Ai) (g : Option MjGrain) (ai' : Ai)
    → check_all_jiao isf ai ≡ some (g, ai')
    → ai'.public ≡ ai.public
check_all_jiao-public isf ai g ai' h = ap (λ p. p.0) (check_all_jiao-Restores isf ai g ai' h)
