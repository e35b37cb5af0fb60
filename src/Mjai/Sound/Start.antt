-- ===== src/Mjai/Sound/Start.antt =====
-- `InitNow` returns, and leaves the player sound, with blocks that match the hand.
use route_server.Prelude.{
  ◌<◌, All, Bool, true, false, not, if◌then◌else◌, get_elem?-All, Option, ◌⊎◌, ◌>>=◌, ℕ, ◌/◌, ◌%◌,
  pos, minus_one, List, [], ◌∷◌, ◌≡◌, refl, sym, ◌∙◌, subst, inl, inr, set, length, arith,
  Bool-cases, Gives, Gives-bind, get_elem?-set_self, ◌==ℤ◌, ltb, replicate,
}
use route_server.Mjai.Weight.{Row}
use route_server.Mjai.NewBlock.{NewBlock}
use route_server.Mjai.NewBlock.Ends.{NonNegative}
use route_server.Mjai.Ai.{
  Ai, UserPublic, zero_rows, put_user, set_now_cells, set_now, init_block, get_discard,
  reload_self_inv, init_now,
}
use route_server.Mjai.Search.{inc, suits}
use route_server.Mjai.Sound.{InRange, Logged, Blocks, Sound, Counts, Player, Table}
use route_server.Mjai.Sound.Rows.{Table-user, Table-set, change-Put}
use route_server.Mjai.Sound.Readings.{suits-length}
use route_server.Mjai.Sound.Restart.{Reopened, init_blocks-Reopened, pending-Reopened}
use route_server.Mjai.Sound.Waits.{Steady, inc-count}
use route_server.Mjai.Sound.Rounds.{no_blocks, init_blocks-Opened}

set_now_cells-Counts :
    (rows : List Row) (str : List ℕ)
    → Counts rows
    → Gives (set_now_cells rows str) (λ r. Counts r.0)
unfolding set_now_cells
set_now_cells-Counts rows [] c = ((rows, []), refl, c)
set_now_cells-Counts rows (s ∷ str) c = elim (Bool-cases (ltb s 27)) [
  | inl tile ↦ rw tile (
      Gives-bind
        (change-Put inc rows (s / 9) (s % 9) c (ground arith) (omega arith)
          (λ d _ h. inc-count d h))
        (λ rows' e put. set_now_cells-Counts rows' str put.counts))
  | inr other ↦
      rw other (Gives-bind (set_now_cells-Counts rows str c) (λ r e h. ((r.0, s ∷ r.1), refl, h)))
]

pub zero_rows-Counts : Counts zero_rows
zero_rows-Counts = record {
  grid = record { three = refl; nine = (refl, (refl, (refl, tt))) };
  counts = (zeros, (zeros, (zeros, tt)));
}
  where
    zeros : NonNegative (replicate 9 (pos 0))
    zeros = (refl, (refl, (refl, (refl, (refl, (refl, (refl, (refl, (refl, tt)))))))))

-- The choice of the suit to be rid of, between the first two blocks.
get_discard-low :
    (ai : Ai) → length ai.blocks ≡ 3 → All InRange ai.blocks → Gives (get_discard ai) (λ i. i < 3)
unfolding get_discard
get_discard-low ai three range =
    Gives-bind (get_elem?-All InRange ai.blocks 0 range (omega arith)) (λ a e r.
      Gives-bind (get_elem?-All InRange ai.blocks 1 range (omega arith)) (λ b e1 r1. (
        _,
        refl,
        if-low (not (a.sum_len ==ℤ b.sum_len)) r.suit (
            if-low (ltb b.sum_wei a.sum_wei) r.suit (
              if-low (ltb a.sum_wei b.sum_wei) r1.suit (
                if-low (ltb (length b.child) (length a.child)) r.suit
                  (if-low (ltb (length a.child) (length b.child)) r1.suit r.suit)))),
      )))
  where
    if-low : (t : Bool) {m n : ℕ} → m < 3 → n < 3 → (if t then m else n) < 3
    if-low true l k = l
    if-low false l k = k

reload_self_inv-Steady : (ai : Ai) → Steady ai → Gives (reload_self_inv ai) Steady
unfolding reload_self_inv
reload_self_inv-Steady ai s =
    let t = s.sound.table in
    let three = sym (suits-length ai.blocks) ∙ s.sound.blocks.each.three in
    let (i, e, low) = get_discard-low ai three s.sound.blocks.range in
    let (u, e1, p) = Table-user ai.public 3 t (omega arith) in
    let u' : UserPublic = record u { inv = pos i } in
    let four = t.four in
    let there = get_elem?-set_self ai.public 3 u' (omega arith) in
    rw (e, e1)
      (
        put_user 3 u' ai,
        refl,
        record {
          sound = record {
            table =
                Table-set ai.public 3 u' t
                  (record { now = p.now; see = p.see; down = p.down; inv = inr (i, refl, low) });
            blocks = s.sound.blocks;
            logged = s.sound.logged;
          };
          fresh = let f = s.fresh in rw there (rw e1 at f);
        },
      )

set_now-Player :
    (u : UserPublic) (str : List ℕ) → Player u → Gives (set_now u str) (λ r. Player r.0)
unfolding set_now
set_now-Player u str p =
    Gives-bind (set_now_cells-Counts zero_rows str zero_rows-Counts)
      (λ r e c. (_, refl, record { now = c; see = p.see; down = p.down; inv = p.inv }))

-- A player has no blocks yet, or one block for each suit.
abbrev pub Dealt : List NewBlock → Type 0
Dealt bs = (bs ≡ []) ⊎ Blocks bs

init_blocks-Steady :
    (us : List UserPublic) (old : List NewBlock) (ai : Ai) (k : Ai → Option Ai)
    → ai.public ≡ us
    → ai.blocks ≡ old
    → Table us
    → Dealt old
    → Logged ai.see_list
    → ((ai' : Ai) → Steady ai' → Gives (k ai') Steady)
    → Gives
        (do
          ai0 ← init_block old 0 ai
          ai1 ← init_block old 1 ai0
          ai2 ← init_block old 2 ai1
          k ai2)
        Steady
init_blocks-Steady us old ai k e e1 t (inl first) log next =
    init_blocks-Opened us old ai k first t (no_blocks us ai e (e1 ∙ first) log) next
init_blocks-Steady us [] ai k e e1 t (inr b) log next =
    init_blocks-Opened us [] ai k refl t (no_blocks us ai e e1 log) next
init_blocks-Steady us (a ∷ []) ai k e e1 t (inr b) log next =
    let n = b.each.three in absurd (omega arith)
init_blocks-Steady us (a ∷ a' ∷ []) ai k e e1 t (inr b) log next =
    let n = b.each.three in absurd (omega arith)
init_blocks-Steady us (a ∷ a' ∷ a'' ∷ []) ai k e e1 t (inr b) log next =
    let old : List NewBlock = a ∷ a' ∷ a'' ∷ [] in
    let s : Sound ai = record {
      table = subst Table (sym e) t;
      blocks = subst Blocks (sym e1) b;
      logged = log;
    } in
    init_blocks-Reopened us a a' a'' ai k b.range
      (subst (λ (bs : List NewBlock). Reopened us (suits bs) ai) e1 (pending-Reopened us ai e s))
      next
init_blocks-Steady us (a ∷ a' ∷ a'' ∷ c ∷ bs) ai k e e1 t (inr b) log next =
    let n = b.each.three in absurd (omega arith)

-- With four users at the table whose rows have the code's sizes and no negative count and whose given-up
-- suit is one of the three or -1, with either no block yet or one for each suit, and with logged
-- moves of at least three bytes, `InitNow` returns for every list of bytes; the player is then sound,
-- and its blocks match the hand.
pub init_now-Steady :
    (str : List ℕ) (ai : Ai)
    → Dealt ai.blocks
    → Table ai.public
    → Logged ai.see_list
    → Gives (init_now str ai) Steady
unfolding init_now
init_now-Steady str ai dealt t log = Gives-bind (Table-user ai.public 3 t (omega arith)) (λ u e p.
    Gives-bind (set_now-Player u str p) (λ r e1 p'.
      init_blocks-Steady (set ai.public 3 r.0) ai.blocks (put_user 3 r.0 ai) _ refl refl
        (Table-set ai.public 3 r.0 t p') dealt log
        (λ ai2 steady. elim (Bool-cases (u.inv ==ℤ minus_one)) [
          | inl unset ↦ rw unset (reload_self_inv-Steady ai2 steady)
          | inr chosen ↦ rw chosen (ai2, refl, steady)
        ])))
