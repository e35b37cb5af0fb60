-- ===== src/Mjai/Sound/Waits.antt =====
-- `CheckJiao` returns on a sound player, and leaves it sound.
use mathlib.Core.Option.{some-injective}
use route_server.Prelude.{
  ℕ, ◌<◌, ℤ, pos, neg_part, ◌+ℤ◌, Bool, false, some, List, [], ◌∷◌, ◌>>=◌, ◌≡◌, refl, sym, ap, ◌∙◌,
  inl, inr, ◌⊎◌, get_elem?, All, arith, Bool-cases, Gives, Gives-bind, All-map, ◌==ℤ◌, ◌==◌, gtb_ℤ,
}
use route_server.Mjai.Weight.{Row}
use route_server.Mjai.Grain.{MjGrain}
use route_server.Mjai.NewBlock.{NewBlock}
use route_server.Mjai.Ai.{Ai, UserPublic, cell, now_cell, change_now, update_block, find_block}
use route_server.Mjai.Search.{inc, dec, places, suits, try_tile, try_tiles, try_suits, check_jiao}
use route_server.Mjai.Search.Restore.{dec-inc}
use route_server.Mjai.Sound.{Has, InRange, Sound, Fresh, FreshIf, FreshBut, AllFresh, hand}
use route_server.Mjai.Sound.Rows.{Table-user, now_cell-gives, change_now-gives}
use route_server.Mjai.Sound.Renewal.{Without, update_block-gives}
use route_server.Mjai.Sound.Readings.{IsTile, check_full-Returns, all_blocks-Sound}
use route_server.Mjai.Sound.Tiles.{keep_jiao-returns}

-- A sound player, all of whose blocks match the hand.
pub record Steady (ai : Ai) : Type 0 where
  pub sound : Sound ai
  pub fresh : AllFresh (hand ai.public) ai.blocks

-- A sound player, all of whose blocks match the hand but perhaps that of suit `i`.
pub record Trying (i : ℕ) (ai : Ai) : Type 0 where
  pub sound : Sound ai
  pub fresh : FreshBut i (hand ai.public) ai.blocks

pub Trying-of_Steady : (i : ℕ) (ai : Ai) → Steady ai → Trying i ai
Trying-of_Steady i ai s = record {
  sound = s.sound;
  fresh =
      All-map (Fresh (hand ai.public)) (λ (b : NewBlock). (b.i ≡ i) ⊎ Fresh (hand ai.public) b)
        ai.blocks (λ b f. inr f) s.fresh;
}

-- No suit is left out.
pub FreshIf-AllFresh :
    (S : ℕ → Type 0) (rows : List Row) (bs : List NewBlock)
    → ((k : ℕ) → ¬ (S k))
    → FreshIf S rows bs
    → AllFresh rows bs
FreshIf-AllFresh S rows bs never f =
    All-map (λ (b : NewBlock). S b.i ⊎ Fresh rows b) (Fresh rows) bs (λ b h. settled b h) f
  where
    settled : (b : NewBlock) → S b.i ⊎ Fresh rows b → Fresh rows b
    settled b (inl stale) = absurd (never b.i stale)
    settled b (inr fresh) = fresh

-- The update of the block of suit `i`.
pub settle_block :
    (i : ℕ) (ai : Ai)
    → Trying i ai
    → i < 3
    → Gives (update_block i ai) (λ ai'. Steady ai' × (ai'.public ≡ ai.public))
settle_block i ai t l =
    let (ai', e, r) = update_block-gives (λ k. k ≡ i) i ai t.sound l in
    (
      ai',
      e,
      (
        record {
          sound = r.sound;
          fresh =
              FreshIf-AllFresh (Without (λ k. k ≡ i) i) _ ai'.blocks (λ k h. h.1 h.0)
                (r.fresh t.fresh);
        },
        r.public_eq,
      ),
    )

-- A change of a cell that leaves a count there.
pub try_change :
    (f : ℤ → ℤ) (i j : ℕ) (ai : Ai)
    → Trying i ai
    → i < 3
    → j < 9
    → ((c : ℤ) → now_cell i j ai ≡ some c → neg_part c ≡ 0 → neg_part (f c) ≡ 0)
    → Gives
        (change_now f i j ai)
        (λ ai'. Trying i ai' × ((c : ℤ) → now_cell i j ai ≡ some c → now_cell i j ai' ≡ some (f c)))
try_change f i j ai t l k keeps =
    let (ai', e, c) = change_now-gives f i j ai t.sound l k keeps in
    (ai', e, (record { sound = c.sound; fresh = c.fresh t.fresh }, c.moved))

pub inc-count : (c : ℤ) → neg_part c ≡ 0 → neg_part (inc c) ≡ 0
unfolding ◌+ℤ◌
inc-count c h = ground arith

pub now_cell-public :
    (i j : ℕ) (ai ai' : Ai) → ai'.public ≡ ai.public → now_cell i j ai' ≡ now_cell i j ai
now_cell-public i j ai ai' e = ap (λ us. get_elem? us 3 >>= (λ (u : UserPublic). cell u.now i j)) e

try_tile-returns :
    (isf : ℤ) (is_m : Bool) (i j : ℕ) (gr : List MjGrain) (ai : Ai)
    → i < 3
    → j < 9
    → All IsTile gr
    → Trying i ai
    → Gives (try_tile isf is_m i j (gr, ai)) (λ r. All IsTile r.0 × Trying i r.1)
unfolding try_tile
try_tile-returns isf is_m i j gr ai l k tiles t =
    Gives-bind (now_cell-gives i j ai t.sound l k) (λ n e0 nn. elim (Bool-cases (n ==ℤ pos 4)) [
      | inl four ↦ rw four ((gr, ai), refl, (tiles, t))
      | inr other ↦ rw other (
          Gives-bind (try_change inc i j ai t l k (λ c _ h. inc-count c h)) (λ more e1 c1.
            Gives-bind (settle_block i more c1.0 l) (λ fresh e2 s.
              Gives-bind (check_full-Returns is_m fresh s.0.sound) (λ fn e3 _.
                Gives-bind (keep_jiao-returns isf i j fn gr l k tiles) (λ gr' e4 tiles'.
                  Gives-bind
                    (try_change dec i j fresh (Trying-of_Steady i fresh s.0) l k (λ c at h.
                      let there = sym (c1.1 n e0) ∙ sym (now_cell-public i j more fresh s.1) ∙ at in
                      ap (λ d. neg_part (dec d)) (sym (some-injective _ _ there))
                      ∙ ap neg_part (dec-inc n)
                      ∙ nn))
                    (λ back e5 c5. ((gr', back), refl, (tiles', c5.0))))))))
    ])

try_tiles-returns :
    (isf : ℤ) (is_m : Bool) (i : ℕ) (js : List ℕ) (gr : List MjGrain) (ai : Ai)
    → i < 3
    → All (λ j. j < 9) js
    → All IsTile gr
    → Trying i ai
    → Gives (try_tiles isf is_m i js (gr, ai)) (λ r. All IsTile r.0 × Trying i r.1)
unfolding try_tiles
try_tiles-returns isf is_m i [] gr ai l js_low tiles t = ((gr, ai), refl, (tiles, t))
try_tiles-returns isf is_m i (j ∷ js) gr ai l (k, ks) tiles t =
    Gives-bind (try_tile-returns isf is_m i j gr ai l k tiles t)
      (λ r e p. try_tiles-returns isf is_m i js r.0 r.1 l ks p.0 p.1)

-- A suit that is among those of the blocks has a block.
pub find_block-gives :
    (P : NewBlock → Type 0) (i : ℕ) (bs : List NewBlock)
    → All P bs
    → Has i (suits bs)
    → Gives (find_block i bs) (λ b. P b × (b.i ≡ i))
unfolding find_block
find_block-gives P i [] h has = elim has [ ]
find_block-gives P i (b ∷ bs) (p, h) has = elim (Bool-cases (b.i == i)) [
  | inl here ↦ rw here (b, refl, (p, ground arith))
  | inr other ↦ rw other (find_block-gives P i bs h (later has other))
]
  where
    later : Has i (suits (b ∷ bs)) → (b.i == i) ≡ false → Has i (suits bs)
    later (inl same) other = absurd (ground arith)
    later (inr rest) other = rest

pub places-low : All (λ j. j < 9) places
places-low = (
  omega arith,
  (
    omega arith,
    (
      omega arith,
      (omega arith, (omega arith, (omega arith, (omega arith, (omega arith, (omega arith, tt)))))),
    ),
  ),
)

try_suits-returns :
    (isf : ℤ) (is_m : Bool) (is : List ℕ) (gr : List MjGrain) (ai : Ai)
    → All (λ i. i < 3) is
    → All IsTile gr
    → Steady ai
    → Gives (try_suits isf is_m is (gr, ai)) (λ r. All IsTile r.0 × Steady r.1)
unfolding try_suits
try_suits-returns isf is_m [] gr ai ls tiles s = ((gr, ai), refl, (tiles, s))
try_suits-returns isf is_m (i ∷ is) gr ai (l, ls) tiles s =
    Gives-bind (Table-user ai.public 3 s.sound.table (omega arith)) (λ u e p.
      Gives-bind
        (find_block-gives InRange i ai.blocks s.sound.blocks.range (s.sound.blocks.each.all i l))
        (λ b e1 _. elim (Bool-cases (pos i ==ℤ u.inv)) [
          | inl unwanted ↦ elim (Bool-cases (gtb_ℤ b.sum_len (pos 0))) [
            | inl has ↦ rw (unwanted, has) (([], ai), refl, (tt, s))
            | inr empty ↦ rw (unwanted, empty) (try_suits-returns isf is_m is gr ai ls tiles s)
          ]
          | inr wanted ↦ rw wanted (
              Gives-bind
                (try_tiles-returns isf is_m i places gr ai l places-low tiles
                  (Trying-of_Steady i ai s))
                (λ r e2 q.
                  Gives-bind (settle_block i r.1 q.1 l)
                    (λ done e3 s'. try_suits-returns isf is_m is r.0 done ls q.0 s'.0)))
        ]))

pub suits-low : (bs : List NewBlock) → All InRange bs → All (λ i. i < 3) (suits bs)
suits-low [] h = tt
suits-low (b ∷ bs) (r, h) = (r.suit, suits-low bs h)

-- On a sound player whose blocks match the hand `CheckJiao` returns a list of tiles, and the player
-- is sound and its blocks match the hand.
pub check_jiao-returns :
    (isf : ℤ) (is_m : Bool) (ai : Ai)
    → Steady ai
    → Gives (check_jiao isf is_m ai) (λ r. All IsTile r.0 × Steady r.1)
unfolding check_jiao
check_jiao-returns isf is_m ai s = rw (all_blocks-Sound ai s.sound) (
    try_suits-returns isf is_m (suits ai.blocks) [] ai (suits-low ai.blocks s.sound.blocks.range) tt
      s)
