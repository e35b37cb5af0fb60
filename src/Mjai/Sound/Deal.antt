-- ===== src/Mjai/Sound/Deal.antt =====
-- What `InitNow` makes of the hand and of the suit that is given up.
use mathlib.Core.Option.{some-injective}
use route_server.Prelude.{
  ℕ, ◌/◌, ◌%◌, ◌<◌, ℤ, pos, minus_one, false, Option, none, some, List, [], ◌∷◌, ◌++◌, ◌>>=◌, ◌≡◌,
  refl, sym, ap, ◌∙◌, subst, inl, inr, get_elem?, set, arith, Bool-cases, >>=-eq-some, Gives, ◌==ℤ◌,
  if◌then◌else◌, get_elem?-set_self, lt-length_of_get_elem?,
}
use route_server.Mjai.Weight.{Row}
use route_server.Mjai.NewBlock
use route_server.Mjai.NewBlock.{NewBlock, sort_new_block}
use route_server.Mjai.Ai.{
  Ai, UserPublic, zero_rows, cell, put_user, set_now_cells, set_now, update_block, init_block,
  get_discard, reload_self_inv, init_now, get_valid,
}
use route_server.Mjai.Search.Restore.{update_block-public}
use route_server.Mjai.Sound.{GivenUp, Logged, Table}
use route_server.Mjai.Sound.Rows.{Table-user}
use route_server.Mjai.Sound.Waits.{Steady}
use route_server.Mjai.Sound.Choice.{InHand}
use route_server.Mjai.Sound.Start.{Dealt, zero_rows-Counts, init_now-Steady}
use route_server.Mjai.Sound.Shows.{Spare}
use route_server.Mjai.Sound.Counted.{set_now_cells-holds}

init_block-public :
    (old : List NewBlock) (i : ℕ) (ai ai' : Ai)
    → init_block old i ai ≡ some ai'
    → ai'.public ≡ ai.public
unfolding init_block
init_block-public old i ai ai' h =
    let (mid, e, h1) = >>=-eq-some _ _ h in
    let (bs, e1, h2) = >>=-eq-some (sort_new_block mid.blocks i) _ h1 in
    sym (ap (λ (a : Ai). a.public) (some-injective _ _ h2)) ∙ updated (get_elem? old i) mid e
  where
    updated :
        (m : Option NewBlock) (mid : Ai)
        → elim m as (λ _. Option Ai) [
          | some b ↦ update_block b.i ai
          | none ↦ do
            u ← get_elem? ai.public 3
            row ← get_elem? u.now i
            b ← NewBlock.init row i
            some (record ai { blocks = ai.blocks ++ b ∷ [] })
        ]
          ≡ some mid
        → mid.public ≡ ai.public
    updated (some b) mid e = update_block-public b.i ai mid e
    updated none mid e =
        let (u, e1, k1) = >>=-eq-some (get_elem? ai.public 3) _ e in
        let (row, e2, k2) = >>=-eq-some (get_elem? u.now i) _ k1 in
        let (b, e3, k3) = >>=-eq-some (NewBlock.init row i) _ k2 in
        sym (ap (λ (a : Ai). a.public) (some-injective _ _ k3))

-- The player's own user after `InitNow`: the hand is that of the bytes, and a suit is given up.
record Redealt (str : List ℕ) (u u' : UserPublic) : Type 0 where
  tiles : List Row × List ℕ
  counted : set_now_cells zero_rows str ≡ some tiles
  now_eq : u'.now ≡ tiles.0
  down_eq : u'.down ≡ u.down
  chosen : (u'.inv ==ℤ minus_one) ≡ false

reload_self_inv-user :
    (ai ai' : Ai) (u : UserPublic)
    → get_elem? ai.public 3 ≡ some u
    → reload_self_inv ai ≡ some ai'
    → (i : ℕ) × (get_elem? ai'.public 3 ≡ some (record u { inv = pos i }))
unfolding reload_self_inv
reload_self_inv-user ai ai' u e h =
    let (i, e1, h1) = >>=-eq-some (get_discard ai) _ h in
    let (v, e2, h2) = >>=-eq-some (get_elem? ai.public 3) _ h1 in
    let same : v ≡ u = some-injective _ _ (sym e2 ∙ e) in
    let v' : UserPublic = record v { inv = pos i } in
    (
      i,
      ap (λ (a : Ai). get_elem? a.public 3) (sym (some-injective _ _ h2))
          ∙ get_elem?-set_self ai.public 3 v' (lt-length_of_get_elem? ai.public 3 e2)
          ∙ ap (λ (w : UserPublic). some (record w { inv = pos i })) same,
    )

-- The last lines of `InitNow`.
last_round :
    (inv : ℤ) (u : UserPublic) (ai ai' : Ai)
    → u.inv ≡ inv
    → get_elem? ai.public 3 ≡ some u
    → (if inv ==ℤ minus_one then reload_self_inv ai else some ai) ≡ some ai'
    → Gives
        (get_elem? ai'.public 3)
        (λ w. (w.now ≡ u.now) × (w.down ≡ u.down) × ((w.inv ==ℤ minus_one) ≡ false))
last_round inv u ai ai' same e h = elim (Bool-cases (inv ==ℤ minus_one)) [
  | inl unset ↦
      let (i, at) = reload_self_inv-user ai ai' u e (rw unset at h) in
      (record u { inv = pos i }, at, (refl, refl, ground arith))
  | inr chosen ↦ (
    u,
    ap (λ (a : Ai). get_elem? a.public 3) (sym (some-injective _ _ (rw chosen at h))) ∙ e,
    (refl, refl, ap (λ n. n ==ℤ minus_one) same ∙ chosen),
  )
]

init_now-user :
    (str : List ℕ) (ai ai' : Ai) (u : UserPublic)
    → get_elem? ai.public 3 ≡ some u
    → init_now str ai ≡ some ai'
    → Gives (get_elem? ai'.public 3) (Redealt str u)
unfolding init_now set_now
init_now-user str ai ai' u e h =
    let (v, e1, h1) = >>=-eq-some (get_elem? ai.public 3) _ h in
    let same : v ≡ u = some-injective _ _ (sym e1 ∙ e) in
    let ((v', yu), e2, h2) = >>=-eq-some (set_now v str) _ h1 in
    let (r, e3, h3) = >>=-eq-some (set_now_cells zero_rows str) _ e2 in
    let (ai0, e4, h4) = >>=-eq-some (init_block ai.blocks 0 (put_user 3 v' ai)) _ h2 in
    let (ai1, e5, h5) = >>=-eq-some (init_block ai.blocks 1 ai0) _ h4 in
    let (ai2, e6, h6) = >>=-eq-some (init_block ai.blocks 2 ai1) _ h5 in
    let kept : ai2.public ≡ set ai.public 3 v' =
      init_block-public ai.blocks 2 ai1 ai2 e6
      ∙ init_block-public ai.blocks 1 ai0 ai1 e5
      ∙ init_block-public ai.blocks 0 (put_user 3 v' ai) ai0 e4 in
    let there : get_elem? ai2.public 3 ≡ some v' =
      ap (λ us. get_elem? us 3) kept
      ∙ get_elem?-set_self ai.public 3 v' (lt-length_of_get_elem? ai.public 3 e1) in
    let v'_is : record v { now = r.0 } ≡ v' = ap (λ p. p.0) (some-injective _ _ h3) in
    let now_is : v'.now ≡ r.0 = sym (ap (λ (w : UserPublic). w.now) v'_is) in
    let down_is : v'.down ≡ u.down =
      sym (ap (λ (w : UserPublic). w.down) v'_is) ∙ ap (λ (w : UserPublic). w.down) same in
    let inv_is : v'.inv ≡ v.inv = sym (ap (λ (w : UserPublic). w.inv) v'_is) in
    let (w, e7, (now_eq, down_eq, chosen)) = last_round v.inv v' ai2 ai' inv_is there h6 in
    (
      w,
      e7,
      record {
        tiles = r;
        counted = e3;
        now_eq = now_eq ∙ now_is;
        down_eq = down_eq ∙ down_is;
        chosen = chosen;
      },
    )

given_up : (n : ℤ) → GivenUp n → (n ==ℤ minus_one) ≡ false → (i : ℕ) × (n ≡ pos i) × (i < 3)
given_up n (inl unset) h = absurd (ground arith)
given_up n (inr given) h = given

-- A player that is to discard: a suit is given up, and it holds tile `t`.
pub record Discarding (t : ℕ) (ai : Ai) : Type 0 where
  pub unwanted : ℕ
  pub low : unwanted < 3
  pub given : get_valid 3 ai ≡ some (pos unwanted)
  pub held : InHand (t / 9) (t % 9) ai

-- After `InitNow` with a list that has the tile `t`.
pub init_now-Discarding :
    (str : List ℕ) (k t : ℕ) (ai : Ai)
    → Dealt ai.blocks
    → Table ai.public
    → Logged ai.see_list
    → get_elem? str k ≡ some t
    → t < 27
    → Gives (init_now str ai) (λ ai'. Steady ai' × Discarding t ai')
unfolding get_valid
init_now-Discarding str k t ai dealt table log e l =
    let (ai', e1, s) = init_now-Steady str ai dealt table log in
    let (u, e2, p) = Table-user ai.public 3 table (omega arith) in
    let (u', e3, r) = init_now-user str ai ai' u e2 e1 in
    let (v, e4, p') = Table-user ai'.public 3 s.sound.table (omega arith) in
    let same : v ≡ u' = some-injective _ _ (sym e4 ∙ e3) in
    let (i, inv_is, low) =
      given_up u'.inv (subst (λ (w : UserPublic). GivenUp w.inv) same p'.inv) r.chosen in
    let (c, at) = set_now_cells-holds zero_rows str r.tiles k t zero_rows-Counts e l r.counted in
    (
      ai',
      e1,
      (
        s,
        record {
          unwanted = i;
          low = low;
          given = rw e3 (ap some inv_is);
          held = (c, rw e3 (ap (λ rows. cell rows (t / 9) (t % 9)) r.now_eq ∙ at));
        },
      ),
    )

-- The table before the player is as it was.
pub init_now-Spare :
    (str : List ℕ) (t : ℕ) (ai ai' : Ai) (u : UserPublic)
    → get_elem? ai.public 3 ≡ some u
    → init_now str ai ≡ some ai'
    → cell u.down (t / 9) (t % 9) ≡ some (pos 0)
    → InHand (t / 9) (t % 9) ai'
    → Spare (t / 9) (t % 9) ai'
init_now-Spare str t ai ai' u e h bare held =
    let (u', e1, r) = init_now-user str ai ai' u e h in
    record { held = held; bare = (u', e1, ap (λ rows. cell rows (t / 9) (t % 9)) r.down_eq ∙ bare) }
