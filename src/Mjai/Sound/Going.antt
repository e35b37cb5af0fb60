-- ===== src/Mjai/Sound/Going.antt =====
-- `SelfSee` in the middle of its loop: what it keeps of the player, and a fourth tile that it takes out.
use mathlib.Core.Option.{some-injective}
use route_server.Prelude.{
  ℕ, suc, ℤ, pos, negsuc, neg_part, ◌+ℤ◌, ◌-ℤ◌, true, false, some, List, [], ◌∷◌, ◌≡◌, refl, sym,
  ap, ◌∙◌, get_elem?, All, arith, >>=-eq-some, Gives, get_elem?-set_self, lt-length_of_get_elem?,
}
use route_server.Mjai.Weight.{Row}
use route_server.Mjai.Ai.{Ai, UserPublic, cell, change, now_cell, change_now, update_blocks_weight}
use route_server.Mjai.Search.{check_jiao}
use route_server.Mjai.Search.Restore.{check_jiao-public}
use route_server.Mjai.Sound.Waits.{
  Steady, Trying-of_Steady, settle_block, try_change, check_jiao-returns,
}
use route_server.Mjai.Sound.Cells.{Cell, Different, At, change-others}

-- The player's own user has the rows `now`, and `down` on the table.
pub record Own (ai : Ai) (now down : List Row) : Type 0 where
  pub user : UserPublic
  pub there : get_elem? ai.public 3 ≡ some user
  pub now_eq : user.now ≡ now
  pub down_eq : user.down ≡ down

pub Own-public :
    (ai ai' : Ai) (now down : List Row)
    → ai'.public ≡ ai.public
    → Own ai now down
    → Own ai' now down
Own-public ai ai' now down e o = record {
  user = o.user;
  there = ap (λ us. get_elem? us 3) e ∙ o.there;
  now_eq = o.now_eq;
  down_eq = o.down_eq;
}

change_now-Own :
    (f : ℤ → ℤ) (i j : ℕ) (ai ai' : Ai) (now down : List Row)
    → Own ai now down
    → change_now f i j ai ≡ some ai'
    → (now' : List Row) × (change f now i j ≡ some now') × Own ai' now' down
change_now-Own f i j ai ai' now down o h =
    let (u, e1, h1) = >>=-eq-some (get_elem? ai.public 3) _ h in
    let (now', e2, h2) = >>=-eq-some (change f u.now i j) _ h1 in
    let same : u ≡ o.user = some-injective _ _ (sym e1 ∙ o.there) in
    let u' : UserPublic = record u { now = now' } in
    (
      now',
      ap (λ rows. change f rows i j) (sym (ap (λ (v : UserPublic). v.now) same ∙ o.now_eq)) ∙ e2,
      record {
        user = u';
        there =
            ap (λ (a : Ai). get_elem? a.public 3) (sym (some-injective _ _ h2))
            ∙ get_elem?-set_self ai.public 3 u' (lt-length_of_get_elem? ai.public 3 e1);
        now_eq = refl;
        down_eq = ap (λ (v : UserPublic). v.down) same ∙ o.down_eq;
      },
    )

-- What `SelfSee` keeps: cells still to come, and the tile `q` of suit `p`.
pub record Going (p q : ℕ) (cs : List Cell) (ai : Ai) : Type 0 where
  pub steady : Steady ai
  pub now : List Row
  pub down : List Row
  pub own : Own ai now down
  pub coming : All (At now) cs
  pub held : (c : ℕ) × (cell now p q ≡ some (pos (suc c)))
  pub spare : cell down p q ≡ some (pos 0)

pub Going-tail :
    (p q : ℕ) (c : Cell) (cs : List Cell) (ai : Ai) → Going p q (c ∷ cs) ai → Going p q cs ai
Going-tail p q c cs ai g = record {
  steady = g.steady;
  now = g.now;
  down = g.down;
  own = g.own;
  coming = g.coming.1;
  held = g.held;
  spare = g.spare;
}

-- The searches leave the hand alone.
Going-public :
    (p q : ℕ) (cs : List Cell) (ai ai' : Ai)
    → Steady ai'
    → ai'.public ≡ ai.public
    → Going p q cs ai
    → Going p q cs ai'
Going-public p q cs ai ai' s e g = record {
  steady = s;
  now = g.now;
  down = g.down;
  own = Own-public ai ai' g.now g.down e g.own;
  coming = g.coming;
  held = g.held;
  spare = g.spare;
}

pub search-Going :
    (isf : ℤ) (p q : ℕ) (cs : List Cell) (ai : Ai)
    → Going p q cs ai
    → Gives (check_jiao isf true ai) (λ r. Going p q cs r.1)
search-Going isf p q cs ai g =
    let (r, e, (_, s)) = check_jiao-returns isf true ai g.steady in
    (r, e, Going-public p q cs ai r.1 s (check_jiao-public isf true ai r.0 r.1 e) g)

minus-count : (n : ℤ) → neg_part n ≡ 0 → neg_part (n -ℤ n) ≡ 0
unfolding ◌-ℤ◌ ◌+ℤ◌
minus-count (pos n) h = ground arith
minus-count (negsuc n) h = absurd (ground arith)

-- The cell that the fourth tile is taken from is neither a coming one nor that of the spared tile.
pub take_out-Going :
    (p q : ℕ) (c : Cell) (cs : List Cell) (ai : Ai)
    → Going p q (c ∷ cs) ai
    → All (Different c) cs
    → ¬ ((c.0 ≡ p) × (c.1 ≡ q))
    → Gives (update_blocks_weight false c.0 c.1 c.2 ai) (Going p q cs)
unfolding update_blocks_weight
take_out-Going p q (i, j, n) cs ai g others apart =
    let (l, k, at) = g.coming.0 in
    let at_cell : now_cell i j ai ≡ some n =
      rw g.own.there (ap (λ rows. cell rows i j) g.own.now_eq ∙ at) in
    let (less, e1, t) =
      try_change (λ m. m -ℤ n) i j ai (Trying-of_Steady i ai g.steady) l k
        (λ m there nn.
          let same : n ≡ m = some-injective _ _ (sym at_cell ∙ there) in
          ap (λ x. neg_part (m -ℤ x)) same ∙ minus-count m nn) in
    let (done, e2, (s, kept)) = settle_block i less t.0 l in
    let (now', changed, own) = change_now-Own (λ m. m -ℤ n) i j ai less g.now g.down g.own e1 in
    let stays : (d : Cell) → ¬ ((i ≡ d.0) × (j ≡ d.1)) → cell now' d.0 d.1 ≡ cell g.now d.0 d.1 =
      λ d ne. change-others (λ m. m -ℤ n) g.now now' i j d.0 d.1 changed ne in
    rw (e1, e2)
      (
        done,
        refl,
        record {
          steady = s;
          now = now';
          down = g.down;
          own = Own-public less done now' g.down kept own;
          coming = still now' stays cs others g.coming.1;
          held = (g.held.0, stays (p, q, n) apart ∙ g.held.1);
          spare = g.spare;
        },
      )
  where
    still :
        (now' : List Row)
        → ((d : Cell) → ¬ ((i ≡ d.0) × (j ≡ d.1)) → cell now' d.0 d.1 ≡ cell g.now d.0 d.1)
        → (ds : List Cell) → All (Different (i, j, n)) ds
        → All (At g.now) ds
        → All (At now') ds
    still now' stays [] ne h = tt
    still now' stays (d ∷ ds) (ne, nes) ((l, k, at), h) =
        ((l, k, stays d ne ∙ at), still now' stays ds nes h)
