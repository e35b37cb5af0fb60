-- ===== src/Mjai/Sound/Found.antt =====
-- `CheckJiao` finds what it is to find: each tile is judged as if it alone had been tried.

use mathlib.Core.List.{Perm, append-nil}
use mathlib.Core.List.Perm
use route_server.Prelude.{
  ℕ, ◌<◌, ℤ, pos, negsuc, Bool, true, false, some, List, [], ◌∷◌, ◌++◌, ◌≡◌, refl, sym, ap, subst,
  ◌∙◌, inl, inr, get_elem?, length, All, arith, Bool-cases, Gives, ◌==ℤ◌, ==ℤ→eq, gtb_ℤ, Option,
  none, lt-length_of_get_elem?, ◌>>=◌,
}
use route_server.Mjai.Weight.{Row}
use route_server.Mjai.Grain.{MjGrain}
use route_server.Mjai.NewBlock.{NewBlock}
use route_server.Mjai.Ai.{Ai, UserPublic, update_block, find_block}
use route_server.Mjai.Search.{places, suits, try_tiles, try_suits, check_jiao}
use route_server.Mjai.Search.Restore.{frame, update_block-frame}
use route_server.Mjai.Search.Expected.{suit_waits, all_waits, holds_unwanted, expected_waits}
use route_server.Mjai.Sound.{Has, Fresh}
use route_server.Mjai.Sound.Rows.{Table-user}
use route_server.Mjai.Sound.Readings.{all_blocks-Sound}
use route_server.Mjai.Sound.Waits.{
  Steady, Trying-of_Steady, settle_block, places-low, suits-low, find_block-gives,
}
use route_server.Mjai.Sound.Judged.{Ranked, found_both, try_tiles-waits}
use route_server.Mjai.Sound.Same.{shed, Steady-settled}

-- A steady player with the frame of `ai`.
record Again (ai ai' : Ai) : Type 0 where
  steady : Steady ai'
  kept : frame ai' ≡ frame ai

-- The search of a suit that is wanted has put `ws` into the list.
record Searched (isf : ℤ) (is_m : Bool) (i : ℕ) (gr : List MjGrain) (ai ai' : Ai)
    (ws : List MjGrain) : Type 0 where
  result : List MjGrain × Ai
  tried : try_tiles isf is_m i places (gr, ai') ≡ some result
  done : Ai
  settled : update_block i result.1 ≡ some done
  again : Again ai done
  ranked : Ranked result.0
  found : Perm result.0 (ws ++ gr)

suit-Searched :
    (isf : ℤ) (is_m : Bool) (i : ℕ) (gr : List MjGrain) (ai ai' : Ai)
    → Steady ai
    → Again ai ai'
    → i < 3
    → Ranked gr
    → Gives (suit_waits isf is_m i places ai) (Searched isf is_m i gr ai ai')
suit-Searched isf is_m i gr ai ai' s a l ranked =
    let (ws, e, (r, e1, n)) =
      try_tiles-waits isf is_m i places gr ai ai' s l places-low ranked
        (record { trying = Trying-of_Steady i ai' a.steady; kept = a.kept }) in
    let (done, e2, s') = settle_block i r.1 n.amid.trying l in
    (
      ws,
      e,
      record {
        result = r;
        tried = e1;
        done = done;
        settled = e2;
        again = record { steady = s'.0; kept = update_block-frame i r.1 done e2 ∙ n.amid.kept };
        ranked = n.ranked;
        found = n.found;
      },
    )

bind_then :
    {A B : Type 0} {m : Option A} {a : A} {x : Option B} (f : A → Option B)
    → m ≡ some a
    → f a ≡ x
    → (m >>= f) ≡ x
bind_then f e h = ap (λ m. m >>= f) e ∙ h

-- The block of the unwanted suit tells whether the hand has tiles of it.
Fresh-unwanted :
    (i : ℕ) (u : UserPublic) (b : NewBlock)
    → Fresh u.now b
    → b.i ≡ i
    → (pos i ==ℤ u.inv) ≡ true
    → holds_unwanted u.inv u.now ≡ gtb_ℤ b.sum_len (pos 0)
Fresh-unwanted i u b (row, e, x) here h =
    let inv_is : u.inv ≡ pos i = sym (==ℤ→eq (pos i) u.inv h) in
    let at_row : get_elem? u.now i ≡ some row = ap (get_elem? u.now) (sym here) ∙ e in
    ap (λ v. holds_unwanted v u.now) inv_is ∙ rw at_row (ap (λ n. gtb_ℤ n (pos 0)) (sym x.len))

block_at :
    (i : ℕ) (ai : Ai) (u : UserPublic)
    → Steady ai
    → i < 3
    → get_elem? ai.public 3 ≡ some u
    → Gives (find_block i ai.blocks) (λ b. Fresh u.now b × (b.i ≡ i))
block_at i ai u s l e =
    find_block-gives (Fresh u.now) i ai.blocks (rw e at s.fresh) (s.sound.blocks.each.all i l)

at_user :
    (ai ai' : Ai) (u : UserPublic)
    → Again ai ai'
    → get_elem? ai.public 3 ≡ some u
    → get_elem? ai'.public 3 ≡ some u
at_user ai ai' u a e = ap (λ p. get_elem? p.0 3) a.kept ∙ e

try_suits-waits :
    (isf : ℤ) (is_m : Bool) (is : List ℕ) (gr : List MjGrain) (ai ai' : Ai) (u : UserPublic)
    → Steady ai
    → Again ai ai'
    → All (λ i. i < 3) is
    → Ranked gr
    → get_elem? ai.public 3 ≡ some u
    → holds_unwanted u.inv u.now ≡ false
    → Gives (all_waits isf is_m u.inv is ai) (λ ws.
      (r : List MjGrain × Ai) × (try_suits isf is_m is (gr, ai') ≡ some r)
      × Perm r.0 (ws ++ gr)
      × Ranked r.0
      × Again ai r.1)
unfolding all_waits try_suits
try_suits-waits isf is_m [] gr ai ai' u s a low ranked e h =
    ([], refl, ((gr, ai'), refl, Perm.refl gr, ranked, a))
try_suits-waits isf is_m (i ∷ is) gr ai ai' u s a (l, low) ranked e h =
    let e' = at_user ai ai' u a e in
    let (b, e1, (f, here)) = block_at i ai' u a.steady l e' in
    elim (Bool-cases (pos i ==ℤ u.inv)) [
      | inl unwanted ↦
          let empty = sym (Fresh-unwanted i u b f here unwanted) ∙ h in
          let (ws, e2, (r, e3, p, k, b')) =
            try_suits-waits isf is_m is gr ai ai' u s a low ranked e h in
          (
            ws,
            bind_then _ e2 (rw unwanted refl),
            (r, bind_then _ e' (bind_then _ e1 (rw (unwanted, empty) e3)), p, k, b'),
          )
      | inr wanted ↦
          let (here_ws, e2, q) = suit-Searched isf is_m i gr ai ai' s a l ranked in
          let (ws, e3, (r, e4, p, k, b')) =
            try_suits-waits isf is_m is q.result.0 ai q.done u s q.again low q.ranked e h in
          (
            here_ws ++ ws,
            bind_then _ e3 (rw wanted (bind_then _ e2 refl)),
            (
              r,
              bind_then _ e'
                  (bind_then _ e1 (rw wanted (bind_then _ q.tried (bind_then _ q.settled e4)))),
              found_both here_ws ws gr q.found p,
              k,
              b',
            ),
          )
    ]

-- A tile of the unwanted suit ends the search with no result.
try_suits-rejects :
    (isf : ℤ) (is_m : Bool) (k : ℕ) (is : List ℕ) (gr : List MjGrain) (ai ai' : Ai) (u : UserPublic)
    → Steady ai
    → Again ai ai'
    → All (λ i. i < 3) is
    → Ranked gr
    → get_elem? ai.public 3 ≡ some u
    → u.inv ≡ pos k
    → Has k is
    → holds_unwanted u.inv u.now ≡ true
    → Gives (try_suits isf is_m is (gr, ai')) (λ r. (r.0 ≡ []) × Again ai r.1)
unfolding try_suits
try_suits-rejects isf is_m k [] gr ai ai' u s a low ranked e inv_is has h = elim has [ ]
try_suits-rejects isf is_m k (i ∷ is) gr ai ai' u s a (l, low) ranked e inv_is has h =
    let e' = at_user ai ai' u a e in
    let (b, e1, (f, here)) = block_at i ai' u a.steady l e' in
    elim (Bool-cases (pos i ==ℤ u.inv)) [
      | inl unwanted ↦
          let tiles = sym (Fresh-unwanted i u b f here unwanted) ∙ h in
          (([], ai'), bind_then _ e' (bind_then _ e1 (rw (unwanted, tiles) refl)), (refl, a))
      | inr wanted ↦
          let (ws, e2, q) = suit-Searched isf is_m i gr ai ai' s a l ranked in
          let (r, e3, p) =
            try_suits-rejects isf is_m k is q.result.0 ai q.done u s q.again low q.ranked e inv_is
              (later has wanted) h in
          (
            r,
            bind_then _ e'
                (bind_then _ e1 (rw wanted (bind_then _ q.tried (bind_then _ q.settled e3)))),
            p,
          )
    ]
  where
    later : Has k (i ∷ is) → (pos i ==ℤ u.inv) ≡ false → Has k is
    later (inl same) other = let v = inv_is in absurd (ground arith)
    later (inr rest) other = rest

unwanted_suit :
    (inv : ℤ) (rows : List Row)
    → holds_unwanted inv rows ≡ true
    → (k : ℕ) × (inv ≡ pos k) × (k < length rows)
unwanted_suit (pos k) rows h = (k, refl, there (get_elem? rows k) refl)
  where
    there : (m : Option Row) → get_elem? rows k ≡ m → k < length rows
    there none e = absurd cc
    there (some row) e = lt-length_of_get_elem? rows k e
unwanted_suit (negsuc n) rows h = absurd cc

-- On a sound player whose blocks match the hand `CheckJiao` finds the tiles that it is to find,
-- each judged by itself and on the hand as it is, in the order of their values. It leaves all of the
-- player as it was but for the scores that the blocks keep, and the blocks match the hand again.
pub check_jiao-waits :
    (isf : ℤ) (is_m : Bool) (ai : Ai)
    → Steady ai
    → Gives (expected_waits isf is_m ai) (λ ws.
      (gr : List MjGrain) × (ai' : Ai) × (check_jiao isf is_m ai ≡ some (gr, ai'))
      × Perm gr ws
      × Ranked gr
      × Steady ai'
      × (shed ai' ≡ shed ai))
unfolding expected_waits check_jiao
check_jiao-waits isf is_m ai s =
    let (u, e, p) = Table-user ai.public 3 s.sound.table (omega arith) in
    let low = suits-low ai.blocks s.sound.blocks.range in
    let start : Ranked [] = record { keyed = tt; sorted = tt } in
    let begin : Again ai ai = record { steady = s; kept = refl } in
    elim (Bool-cases (holds_unwanted u.inv u.now)) [
      | inl held ↦
          let (k, inv_is, l) = unwanted_suit u.inv u.now held in
          let three = p.now.grid.three in
          let (r, e1, (none_found, a)) =
            try_suits-rejects isf is_m k (suits ai.blocks) [] ai ai u s begin low start e inv_is
              (s.sound.blocks.each.all k (omega arith)) held in
          let same = Steady-settled ai r.1 s a.steady a.kept in
          rw (all_blocks-Sound ai s.sound, e, held)
            (
              [],
              refl,
              (
                r.0,
                r.1,
                e1,
                subst (λ gr. Perm gr []) (sym none_found) (Perm.refl []),
                subst Ranked (sym none_found) start,
                a.steady,
                same,
              ),
            )
      | inr free ↦
          let (ws, e1, (r, e2, q, k, a)) =
            try_suits-waits isf is_m (suits ai.blocks) [] ai ai u s begin low start e free in
          let same = Steady-settled ai r.1 s a.steady a.kept in
          rw (all_blocks-Sound ai s.sound, e, free)
            (ws, e1, (r.0, r.1, e2, rw (append-nil ws) at q, k, a.steady, same))
    ]
