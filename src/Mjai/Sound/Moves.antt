-- ===== src/Mjai/Sound/Moves.antt =====
-- `SetSeeList`: a move of a player is logged, and the player stays sound.

use route_server.Prelude.{
  ℕ, ◌/◌, ◌%◌, ◌<◌, ℤ, pos, ◌+ℤ◌, Bool, true, false, ◌&&◌, not, Option, none, some, List, [], ◌∷◌,
  ◌>>=◌, ◌≡◌, refl, ◌∙◌, inl, inr, reverse, get_elem?, set, length, drop, arith, Bool-cases, Gives,
  Gives-bind, get_elem?-of_lt, All-set, All-append, length-set, ◌==◌, ltb, if◌then◌else◌,
}
use route_server.Comm.{byte_to_int}
use route_server.Mjai.Weight.{Row}
use route_server.Mjai.Weight.Runs.{All-reverse}
use route_server.Mjai.Ai.{
  Ai, UserPublic, change, put_user, set_last_see, set_public_down, set_public_see, last_discard,
  take_down, set_see_list,
}
use route_server.Mjai.Sound.{Grid, Logged}
use route_server.Mjai.Sound.Rows.{Grid-row, Table-user}
use route_server.Mjai.Sound.Waits.{Steady}
use route_server.Mjai.Sound.Setters.{put_user-Steady, set_now_val-Steady}

-- A change of any cell of a grid.
pub change-Grid :
    (f : ℤ → ℤ) (rows : List Row) (i j : ℕ)
    → Grid rows
    → i < 3
    → j < 9
    → Gives (change f rows i j) Grid
change-Grid f rows i j g l k =
    let (r, e, n) = Grid-row rows i g l in
    let (c, e1, _) = get_elem?-of_lt r j (omega arith) in
    rw (e, e1)
      (
        set rows i (set r j (f c)),
        refl,
        record {
          three = length-set rows i _ ∙ g.three;
          nine = All-set (λ (r : Row). length r ≡ 9) rows i _ g.nine (length-set r j (f c) ∙ n);
        },
      )

pub set_public_down-Steady :
    (n t : ℕ) (v : ℤ) (ai : Ai)
    → n < 4
    → t < 27
    → Steady ai
    → Gives (set_public_down n t v ai) Steady
unfolding set_public_down
set_public_down-Steady n t v ai l k s =
    Gives-bind (Table-user ai.public n s.sound.table l) (λ u e p.
      Gives-bind (change-Grid (λ _. v) u.down (t / 9) (t % 9) p.down (omega arith) (omega arith))
        (λ down e1 g.
          let u' : UserPublic = record u { down = down } in
          (
            _,
            refl,
            put_user-Steady ai n u u' s e
                (record { now = p.now; see = p.see; down = g; inv = p.inv }) refl,
          )))

set_last_see-Steady :
    (n : ℕ) (v : ℤ) (ai : Ai) → n < 4 → Steady ai → Gives (set_last_see n v ai) Steady
unfolding set_last_see
set_last_see-Steady n v ai l s = Gives-bind (Table-user ai.public n s.sound.table l) (λ u e p.
    let u' : UserPublic = record u { last_see = v } in
    let kept =
      put_user-Steady ai n u u' s e
        (record { now = p.now; see = p.see; down = p.down; inv = p.inv }) refl in
    (
      _,
      refl,
      record {
        sound = record {
          table = kept.sound.table;
          blocks = kept.sound.blocks;
          logged = kept.sound.logged;
        };
        fresh = kept.fresh;
      },
    ))

set_public_see-Steady :
    (n t : ℕ) (ai : Ai) → n < 4 → t < 27 → Steady ai → Gives (set_public_see n t ai) Steady
unfolding set_public_see
set_public_see-Steady n t ai l k s = Gives-bind (Table-user ai.public n s.sound.table l) (λ u e p.
    Gives-bind
      (change-Grid (λ c. c +ℤ pos 1) u.see (t / 9) (t % 9) p.see (omega arith) (omega arith))
      (λ see e1 g.
        let u' : UserPublic = record u { see = see } in
        set_last_see-Steady n (pos t) (put_user n u' ai) l (
          put_user-Steady ai n u u' s e
            (record { now = p.now; see = g; down = p.down; inv = p.inv }) refl)))

-- The move that is found, if any, has a tile of a suit.
FoundMove : Option (List ℕ) → Type 0
FoundMove none = Unit
FoundMove (some m) = (2 < length m) × ((t : ℕ) × (get_elem? m 2 ≡ some t) × (t < 27))

last_discard-gives :
    (who : ℕ) (ms : List (List ℕ)) → Logged ms → Gives (last_discard who ms) FoundMove
unfolding last_discard FoundMove
last_discard-gives who [] h = (none, refl, tt)
last_discard-gives who (m ∷ ms) (long, h) =
    let (p, e, _) = get_elem?-of_lt m 0 (omega arith) in
    let (t, e1, _) = get_elem?-of_lt m 2 long in
    elim (Bool-cases (not (p == who) && ltb t 27)) [
      | inl found ↦ rw (e, e1, found) (some m, refl, (long, (t, e1, tile (not (p == who)) t found)))
      | inr other ↦ rw (e, e1, other) (last_discard-gives who ms h)
    ]
  where
    tile : (q : Bool) (t : ℕ) → (q && ltb t 27) ≡ true → t < 27
    tile true t h = ground arith
    tile false t h = absurd (cc)

take_down-Steady :
    (n val : ℕ) (found : Option (List ℕ)) (ai : Ai)
    → n < 4
    → FoundMove found
    → Steady ai
    → Gives (take_down n val found ai) Steady
unfolding FoundMove
take_down-Steady n val none ai l h s = (ai, refl, s)
take_down-Steady n val (some m) ai l (long, (t, at, k)) s =
    let (v, e, _) = get_elem?-of_lt m 1 (omega arith) in
    elim (Bool-cases (val == v)) [
      | inl same ↦ rw (e, at, same) (set_public_down-Steady n t (pos 2) ai l k s)
      | inr other ↦ rw (e, at, other) (ai, refl, s)
    ]

-- What the tile of the move does to the table.
take_tile-Steady :
    (n val t : ℕ) (ai : Ai)
    → n < 4
    → Steady ai
    → Gives
        (if ltb t 27
          then set_public_see n t ai
          else (do found ← last_discard n (reverse ai.see_list); take_down n val found ai))
        Steady
take_tile-Steady n val t ai l s = elim (Bool-cases (ltb t 27)) [
  | inl tile ↦ rw tile (set_public_see-Steady n t ai l (ground arith) s)
  | inr other ↦ rw other (
      Gives-bind
        (last_discard-gives n (reverse ai.see_list)
          (All-reverse (λ (m : List ℕ). 2 < length m) ai.see_list s.sound.logged))
        (λ found e h. take_down-Steady n val found ai l h s))
]

-- On a sound player whose blocks match the hand `SetSeeList` returns for a move of a user below 4 that
-- has at least three bytes, and the player is sound and its blocks match the hand.
pub set_see_list-Steady :
    (b : List ℕ) (n : ℕ) (ai : Ai)
    → get_elem? b 0 ≡ some n
    → n < 4
    → 2 < length b
    → Steady ai
    → Gives (set_see_list b ai) Steady
unfolding set_see_list
set_see_list-Steady b n ai at l long s =
    let (val, e1, _) = get_elem?-of_lt b 1 (omega arith) in
    let (t, e2, _) = get_elem?-of_lt b 2 long in
    rw (at, e1, e2)
      (Gives-bind (take_tile-Steady n val t ai l s) (λ ai1 e3 s1.
        Gives-bind (set_now_val-Steady n (byte_to_int (drop 3 b)) ai1 l s1) (λ ai2 e4 s2. (
          _,
          refl,
          record {
            sound = record {
              table = s2.sound.table;
              blocks = s2.sound.blocks;
              logged =
                  All-append (λ (m : List ℕ). 2 < length m) ai.see_list (b ∷ []) s.sound.logged
                    (long, tt);
            };
            fresh = s2.fresh;
          },
        ))))
