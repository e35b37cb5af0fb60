-- ===== src/Mjai/Sound/Weighed.antt =====
-- The choice by the weights of the runs returns on a sound player whose blocks match the hand.
use mathlib.Core.Bool.{Bool-set}
use route_server.Prelude.{
  ℕ, ◌<◌, ◌≤◌, ℤ, pos, true, false, ◌&&◌, some, List, [], ◌∷◌, ◌++◌, ◌≡◌, refl, sym, ap, subst, inl,
  inr, length, All, arith, Bool-cases, Gives, Gives-bind, All-map, All-append, length-append, ◌==ℤ◌,
  gtb_ℤ, ltb, Option, none,
}
use route_server.Mjai.Weight.{Row}
use route_server.Mjai.Grain.{MjGrain}
use route_server.Mjai.Grain.Laws.{mem-All}
use route_server.Mjai.Grain.Pick.{sort_grain_arrs-picks}
use route_server.Mjai.NewBlock.{NewBlock}
use route_server.Mjai.NewBlock.Tagged.{Named}
use route_server.Mjai.Ai.{Ai}
use route_server.Mjai.Full.{suit}
use route_server.Mjai.Search.{suits}
use route_server.Mjai.Outs.{tile_of, easy_outs, add_scores, run_find, weighed_out}
use route_server.Mjai.Sound.{InRange, EachSuit, AllFresh, Sound, hand}
use route_server.Mjai.Sound.Rows.{now_cell-gives}
use route_server.Mjai.Sound.Readings.{Returns, get_public_num-Returns, all_blocks-Sound}
use route_server.Mjai.Sound.Waits.{Steady}
use route_server.Mjai.Sound.Choice.{InHand}
use route_server.Mjai.Sound.Easy.{in_hand, easy_outs-in_hand}
use route_server.Mjai.Sound.Board.{
  on_board, on_board-tile, on_board-OnBoard, suit-OnBoard, tile_of-OnBoard,
}

-- A tile of a suit with at least four scores.
abbrev Scored : MjGrain → Type 0
Scored g = (4 ≤ length g.o) × (on_board g ≡ true)

add_scores-Scored :
    (i : ℕ) (gs : List MjGrain) (ai : Ai)
    → i < 3
    → Sound ai
    → All (Named i) gs
    → Gives (add_scores gs ai) (λ gs'. All (Named i) gs' × All Scored gs')
unfolding add_scores
add_scores-Scored i [] ai l s h = ([], refl, (tt, tt))
add_scores-Scored i (g ∷ gs) ai l s ((e, low, size), h) =
    Gives-bind (get_public_num-Returns g false i ai s e l low) (λ p e1 _.
      Gives-bind (add_scores-Scored i gs ai l s h) (λ rest e2 q.
        let more = length-append g.o (p ∷ []) in
        (
          _,
          refl,
          (
            ((e, low, omega arith), q.0),
            ((omega arith, on_board-tile (record g { o = g.o ++ p ∷ [] }) i e l low), q.1),
          ),
        )))

-- The blocks after `RunFind`, with what it found.
record Aged (rows : List Row) (bs : List NewBlock) (r : List NewBlock × List MjGrain) : Type 0 where
  suits_eq : suits r.0 ≡ suits bs
  range : All InRange r.0
  fresh : AllFresh rows r.0
  scored : All Scored r.1

run_find-Aged :
    (rows : List Row) (bs : List NewBlock) (ai : Ai)
    → Sound ai
    → All InRange bs
    → AllFresh rows bs
    → Gives (run_find bs ai) (Aged rows bs)
unfolding run_find
run_find-Aged rows [] ai s rs fs =
    (([], []), refl, record { suits_eq = refl; range = tt; fresh = tt; scored = tt })
run_find-Aged rows (b ∷ bs) ai s (r, rs) ((row, e, x), fs) =
    let (q, e2, a) = run_find-Aged rows bs ai s rs fs in
    elim (Bool-cases (b.sum_len ==ℤ pos 0)) [
      | inl empty ↦
          rw (empty, e2)
            (
              _,
              refl,
              record {
                suits_eq = ap (λ is. b.i ∷ is) a.suits_eq;
                range = (r, a.range);
                fresh = ((row, e, x), a.fresh);
                scored = a.scored;
              },
            )
      | inr tiles ↦
          let (we, e1, (named, scored)) = add_scores-Scored b.i b.we ai r.suit s x.named in
          rw (tiles, e1, e2)
            (
              _,
              refl,
              record {
                suits_eq = ap (λ is. b.i ∷ is) a.suits_eq;
                range = (record { suit = r.suit; places = r.places }, a.range);
                fresh = (
                  (
                    row,
                    e,
                    record {
                      places = x.places;
                      len = x.len;
                      wei = x.wei;
                      named = named;
                      again = x.again;
                    },
                  ),
                  a.fresh,
                );
                scored = All-append Scored we q.1 scored a.scored;
              },
            )
    ]

in_hand-tile_of : (ai : Ai) (g : MjGrain) → in_hand ai g ≡ true → Returns (tile_of g)
in_hand-tile_of ai g h = of_suit (suit g) refl
  where
    of_suit : (m : Option ℕ) → suit g ≡ m → Returns (tile_of g)
    of_suit none e = absurd (let k = rw e at h in cc)
    of_suit (some i) e = rw e (_, refl, tt)

-- With a tile in the hand.
easy_out :
    (i j : ℕ) (ai : Ai)
    → Steady ai
    → i < 3
    → InHand i j ai
    → Gives (easy_outs ai) (λ g. Returns (tile_of g))
easy_out i j ai s l (c, at) =
    let (g, e, h) = easy_outs-in_hand i j c ai s l at in (g, e, in_hand-tile_of ai g h)

pub weighed_out-Steady :
    (isf : ℤ) (i j : ℕ) (ai : Ai)
    → Steady ai
    → i < 3
    → InHand i j ai
    → Gives (weighed_out isf ai) (λ r. Steady r.1)
unfolding weighed_out
weighed_out-Steady isf i j ai s l held =
    let (q, e, a) =
      run_find-Aged (hand ai.public) ai.blocks ai s.sound s.sound.blocks.range s.fresh in
    let aged : Ai = record ai { blocks = q.0 } in
    let s' : Steady aged = record {
      sound = record {
        table = s.sound.table;
        blocks = record {
          each = subst EachSuit (sym a.suits_eq) s.sound.blocks.each;
          range = a.range;
        };
        logged = s.sound.logged;
      };
      fresh = a.fresh;
    } in
    let (plain, e1, (t, e2, _)) = easy_out i j aged s' l held in
    rw (all_blocks-Sound ai s.sound, e)
      (elim (Bool-cases (ltb 0 (length q.1))) [
        | inr missing ↦ rw (missing, e1, e2) (_, refl, s')
        | inl found ↦
            let (g, e3, m) =
              sort_grain_arrs-picks (false ∷ false ∷ false ∷ true ∷ []) q.1 0 4 (omega arith)
                (ground arith)
                (All-map Scored (λ (g : MjGrain). 4 ≤ length g.o) q.1 (λ g h. h.0) a.scored) in
            let ok =
              mem-All (λ g. on_board g ≡ true) (λ g. Bool-set (on_board g) true) q.1 g
                (All-map Scored (λ g. on_board g ≡ true) q.1 (λ g h. h.1) a.scored) m in
            let b = on_board-OnBoard g ok in
            let (c, e4, _) = now_cell-gives b.number g.n aged s'.sound b.suit_low b.place in
            rw (found, e3, suit-OnBoard g b, e4)
              (elim (Bool-cases (gtb_ℤ isf (pos 0) && gtb_ℤ c (pos 1))) [
                | inl several ↦ rw (several, e1, e2) (_, refl, s')
                | inr one ↦ rw (one, tile_of-OnBoard g b) (_, refl, s')
              ])
      ])
