-- ===== src/Mjai/Sound/Laid.antt =====
-- `EasyOuts` where the blocks need not match the hand, as in the last loop of `OutDiscard`: there a
-- count can be negative.
use mathlib.Core.Bool.{Bool-set}
use mathlib.Core.List.{append-nil, append_assoc}
use route_server.Prelude.{
  ℕ, zero, suc, ◌+◌, ◌*◌, ◌<◌, ℤ, pos, true, false, some, List, [], ◌∷◌, ◌++◌, ◌≡◌, refl, sym, ap,
  ◌∙◌, subst, get_elem?, length, All, arith, Gives, Gives-bind, All-map, All-append, All-left,
  All-right, All-set, length-set, length-append, get_elem?-All, ◌==◌, byte_of,
}
use route_server.Mjai.Grain.{MjGrain}
use route_server.Mjai.Grain.Laws.{mem-All}
use route_server.Mjai.Grain.Best.{sort_grain_arrs_best}
use route_server.Mjai.NewBlock.{NewBlock, ChildBlock}
use route_server.Mjai.NewBlock.Runs.{places_of}
use route_server.Mjai.Ai.{Ai, UserPublic, now_cell, change_now, put_user}
use route_server.Mjai.Full.{get_public_num}
use route_server.Mjai.Search.{dec}
use route_server.Mjai.Outs.{run_grains, get_mj_grain_list, all_grains, easy_outs, pass_easy}
use route_server.Mjai.Sound.{Grid, InRange, Player}
use route_server.Mjai.Sound.Rows.{cell-gives}
use route_server.Mjai.Sound.Readings.{Returns, Boards, add_public-Returns, all_blocks-three}
use route_server.Mjai.Sound.Waits.{Steady}
use route_server.Mjai.Sound.Moves.{change-Grid}
use route_server.Mjai.Sound.Easy.{count_places}
use route_server.Mjai.Sound.TakenOut.{TakenOut, TakenOut-none, TakenOut-append, TakenOut-one}
use route_server.Mjai.Sound.Board.{on_board, on_board-tile, on_board-OnBoard, suit-OnBoard}

pub record Laid (u : UserPublic) : Type 0 where
  pub now : Grid u.now
  pub boards : Boards u

-- A player whose rows have their sizes, and whose three blocks have positions of a row.
pub record Sized (ai : Ai) : Type 0 where
  pub four : length ai.public ≡ 4
  pub users : All Laid ai.public
  pub three : (length ai.blocks == 3) ≡ true
  pub range : All InRange ai.blocks

pub Sized-of_Steady : (ai : Ai) → Steady ai → Sized ai
Sized-of_Steady ai s = record {
  four = s.sound.table.four;
  users =
      All-map Player Laid ai.public
        (λ u p. record { now = p.now.grid; boards = record { see = p.see; down = p.down } })
        s.sound.table.players;
  three = all_blocks-three ai s.sound;
  range = s.sound.blocks.range;
}

own_user : (ai : Ai) → Sized ai → Gives (get_elem? ai.public 3) Laid
own_user ai s = let four = s.four in get_elem?-All Laid ai.public 3 s.users (omega arith)

-- A tile of the suits with the four scores.
abbrev Plain : MjGrain → Type 0
Plain g = (length g.o ≡ 4) × (on_board g ≡ true)

-- Such tiles, `n` of them.
record PlainList (n : ℕ) (gs : List MjGrain) : Type 0 where
  all : All Plain gs
  size : length gs ≡ n

join-PlainList :
    (m n : ℕ) (gs hs : List MjGrain)
    → PlainList m gs
    → PlainList n hs
    → PlainList (m + n) (gs ++ hs)
join-PlainList m n gs hs r t = record {
  all = All-append Plain gs hs r.all t.all;
  size = let k = r.size in let l = t.size in omega (arith, length-append gs hs);
}

public_num-Returns :
    (i j : ℕ) (ai : Ai)
    → Sized ai
    → i < 3
    → j < 9
    → Returns (get_public_num (record { h = pos i; n = j; o = [] }) false ai)
unfolding get_public_num
public_num-Returns i j ai s l k =
    add_public-Returns i j ai.public (pos 0) l k
      (All-map Laid Boards ai.public (λ u p. p.boards) s.users)

run_grains-PlainList :
    (i : ℕ) (c : ChildBlock) (js : List ℕ) (ai : Ai)
    → i < 3
    → Sized ai
    → All (λ j. j < 9) js
    → Gives (run_grains i c js ai) (PlainList (length js))
unfolding run_grains
run_grains-PlainList i c [] ai l s low = ([], refl, record { all = tt; size = refl })
run_grains-PlainList i c (j ∷ js) ai l s (k, low) =
    let (u, e, p) = own_user ai s in
    let (n, e1, _) = cell-gives u.now i j p.now l k in
    let (q, e2, _) = public_num-Returns i j ai s l k in
    let (gs, e3, r) = run_grains-PlainList i c js ai l s low in
    let g : MjGrain = record { h = pos i; n = j; o = n ∷ q ∷ pos c.wei ∷ c.len ∷ [] } in
    let at : now_cell i j ai ≡ some n = rw e e1 in
    Gives-bind {P = λ (m : ℤ). m ≡ n} (n, at, refl)
      (λ m _ same.
        rw (e2, e3)
          (
            _,
            refl,
            record { all = ((refl, on_board-tile g i refl l k), r.all); size = ap suc r.size },
          ))

get_mj_grain_list-PlainList :
    (i : ℕ) (cs : List ChildBlock) (ai : Ai)
    → i < 3
    → Sized ai
    → All (λ j. j < 9) (places_of cs)
    → Gives (get_mj_grain_list i cs ai) (PlainList (length (places_of cs)))
unfolding get_mj_grain_list
get_mj_grain_list-PlainList i [] ai l s low = ([], refl, record { all = tt; size = refl })
get_mj_grain_list-PlainList i (c ∷ cs) ai l s low =
    Gives-bind
      (run_grains-PlainList i c c.bl ai l s (All-left (λ j. j < 9) c.bl (places_of cs) low))
      (λ gs e r.
        Gives-bind
          (get_mj_grain_list-PlainList i cs ai l s (All-right (λ j. j < 9) c.bl (places_of cs) low))
          (λ hs e1 t. (
            gs ++ hs,
            refl,
            subst (λ n. PlainList n (gs ++ hs)) (sym (length-append c.bl (places_of cs)))
                (join-PlainList _ _ gs hs r t),
          )))

all_grains-PlainList :
    (bs : List NewBlock) (ai : Ai)
    → Sized ai
    → All InRange bs
    → Gives (all_grains bs ai) (PlainList (count_places bs))
unfolding all_grains
all_grains-PlainList [] ai s rs = ([], refl, record { all = tt; size = refl })
all_grains-PlainList (b ∷ bs) ai s (r, rs) =
    Gives-bind (get_mj_grain_list-PlainList b.i b.child ai r.suit s r.places) (λ gs e t.
      Gives-bind (all_grains-PlainList bs ai s rs)
        (λ hs e1 t1. (gs ++ hs, refl, join-PlainList _ _ gs hs t t1)))

easy_outs-Sized :
    (ai : Ai)
    → Sized ai
    → 0 < count_places ai.blocks
    → Gives (easy_outs ai) (λ g. on_board g ≡ true)
unfolding easy_outs
easy_outs-Sized ai s some_place = rw s.three (
    Gives-bind (all_grains-PlainList ai.blocks ai s s.range) (λ grs e r.
      let size = r.size in
      let (g, e1, m, _) =
        sort_grain_arrs_best false (true ∷ false ∷ false ∷ []) grs 0 4 (omega arith) (omega arith)
          (All-map Plain (λ g. length g.o ≡ 4) grs (λ g h. h.0) r.all) in
      (
        g,
        e1,
        mem-All (λ g. on_board g ≡ true) (λ g. Bool-set (on_board g) true) grs g
            (All-map Plain (λ g. on_board g ≡ true) grs (λ g h. h.1) r.all) m,
      )))

change_now-Sized :
    (f : ℤ → ℤ) (i j : ℕ) (ai : Ai)
    → Sized ai
    → i < 3
    → j < 9
    → Gives (change_now f i j ai) (λ ai'. Sized ai' × (ai'.blocks ≡ ai.blocks))
change_now-Sized f i j ai s l k = Gives-bind (own_user ai s) (λ u e p.
    Gives-bind (change-Grid f u.now i j p.now l k) (λ now e1 g.
      let u' : UserPublic = record u { now = now } in
      (
        put_user 3 u' ai,
        refl,
        (
          record {
            four = length-set ai.public 3 u' ∙ s.four;
            users =
                All-set Laid ai.public 3 u' s.users (record {
                  now = g;
                  boards = record { see = p.boards.see; down = p.boards.down };
                });
            three = s.three;
            range = s.range;
          },
          refl,
        ),
      )))

-- From `o` and `ai` the call has passed on more tiles, and these it has taken out of the hand.
pub record PassedOn (o o' : List ℕ) (ai ai' : Ai) : Type 0 where
  pub more : List ℕ
  pub result : o' ≡ o ++ more
  pub out : TakenOut more ai ai'

pub PassedOn-trans :
    (o o1 o2 : List ℕ) (ai ai1 ai2 : Ai)
    → PassedOn o o1 ai ai1
    → PassedOn o1 o2 ai1 ai2
    → PassedOn o o2 ai ai2
PassedOn-trans o o1 o2 ai ai1 ai2 p q = record {
  more = p.more ++ q.more;
  result = q.result ∙ ap (λ xs. xs ++ q.more) p.result ∙ append_assoc o p.more q.more;
  out = TakenOut-append p.more q.more ai ai1 ai2 p.out q.out;
}

pub PassedOn-none : (o : List ℕ) (ai ai' : Ai) → ai'.public ≡ ai.public → PassedOn o o ai ai'
PassedOn-none o ai ai' e = record {
  more = [];
  result = sym (append-nil o);
  out = TakenOut-none ai ai' e;
}

-- The last loop of `OutDiscard` returns while some block has a position, and takes what it passes on
-- out of the hand.
pub pass_easy-Returns :
    (n : ℕ) (o : List ℕ) (ai : Ai)
    → Sized ai
    → 0 < count_places ai.blocks
    → Gives (pass_easy n o ai) (λ r. PassedOn o r.0 ai r.1)
unfolding pass_easy
pass_easy-Returns zero o ai s some_place = (_, refl, PassedOn-none o ai ai refl)
pass_easy-Returns (suc n) o ai s some_place =
    let (g, e, ok) = easy_outs-Sized ai s some_place in
    let b = on_board-OnBoard g ok in
    let (ai', e1, (s', same)) = change_now-Sized dec b.number g.n ai s b.suit_low b.place in
    let places : 0 < count_places ai'.blocks =
      subst (λ bs. 0 < count_places bs) (sym same) some_place in
    let tile : List ℕ = byte_of (pos (b.number * 9 + g.n)) ∷ [] in
    let (r, e2, rest) = pass_easy-Returns n (o ++ tile) ai' s' places in
    let first : PassedOn o (o ++ tile) ai ai' = record {
      more = tile;
      result = refl;
      out = TakenOut-one b.number g.n ai ai' b.suit_low b.place e1;
    } in
    rw (e, suit-OnBoard g b, e1) (r, e2, PassedOn-trans o (o ++ tile) r.0 ai ai' r.1 first rest)
