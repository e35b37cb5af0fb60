-- ===== src/Mjai/Ai.antt =====
-- mjai/Ai.go: the state of a player, and the operations that set and read its fields. Rows are
-- counts by suit and number. `Blocks` and `BlocksMap` hold the same three pointers: the model has
-- the blocks in the order of `Blocks`, and `BlocksMap[i]` is the one of suit `i`. The `No` of a
-- block is its suit's row of `Public[3].Now`. An operation that returns `none` panics in the code.
pub mod Fields
use route_server.Prelude.{
  ℕ, ◌/◌, ◌%◌, ℤ, pos, minus_one, ◌+ℤ◌, ◌-ℤ◌, ◌/ℤ◌, wrap64, Bool, false, not, ◌&&◌, ◌||◌, Option,
  none, some, List, [], ◌∷◌, ◌++◌, ◌>>=◌, ◌==ℤ◌, ◌==◌, ltb, ltb_ℤ, gtb_ℤ, if◌then◌else◌, get_elem?,
  set, replicate, drop, length, reverse,
}
use route_server.Comm.{byte_to_int}
use route_server.Mjai.Weight.{Row}
use route_server.Mjai.NewBlock
use route_server.Mjai.NewBlock.{NewBlock, update, sort_new_block}

pub record UserPublic : Type 0 where
  pub now : List Row
  pub see : List Row
  pub down : List Row
  pub inv : ℤ
  pub is_f : Bool
  pub last_see : ℤ
  pub now_val : ℤ
  pub tmp_now_val : ℤ

pub record Ai : Type 0 where
  pub public : List UserPublic
  pub base_val : ℤ
  pub sum_val : ℤ
  pub last_public_id : ℤ
  pub blocks : List NewBlock
  pub see_list : List (List ℕ)
  pub last_for_data : List (List ℕ)
  pub begin_time : ℤ
  pub property : ℤ
  pub host : ℕ

abbrev pub zero_rows : List Row
zero_rows = replicate 3 (replicate 9 (pos 0))

-- `UserPublic.Init` leaves `TmpNowVal` alone.
unfoldable pub init_user : UserPublic → UserPublic
init_user u = record {
  now = zero_rows;
  see = zero_rows;
  down = zero_rows;
  inv = minus_one;
  is_f = false;
  last_see = minus_one;
  now_val = pos 0;
  tmp_now_val = u.tmp_now_val;
}

-- `new(UserPublic)`
abbrev pub new_user : UserPublic
new_user = record {
  now = zero_rows;
  see = zero_rows;
  down = zero_rows;
  inv = pos 0;
  is_f = false;
  last_see = pos 0;
  now_val = pos 0;
  tmp_now_val = pos 0;
}

-- `new(Ai)`. A nil in `Public` stands as `new(UserPublic)`, which `Init` puts there first.
abbrev pub new_ai : Ai
new_ai = record {
  public = replicate 4 new_user;
  base_val = pos 0;
  sum_val = pos 0;
  last_public_id = pos 0;
  blocks = [];
  see_list = [];
  last_for_data = [] ∷ [] ∷ [];
  begin_time = pos 0;
  property = pos 0;
  host = 0;
}

abbrev pub init_users : List UserPublic → List UserPublic
init_users [] = []
init_users (u ∷ us) = init_user u ∷ init_users us

unfoldable pub init : Ai → Ai
unfolding init_user
init ai = record ai { public = init_users ai.public; last_public_id = minus_one; see_list = [] }

-- `rows[i][j]`, and `rows[i][j] = f(rows[i][j])`.
abbrev pub cell : List Row → ℕ → ℕ → Option ℤ
cell rows i j = do row ← get_elem? rows i; get_elem? row j

abbrev pub change : (ℤ → ℤ) → List Row → ℕ → ℕ → Option (List Row)
change f rows i j = do
  row ← get_elem? rows i
  c ← get_elem? row j
  some (set rows i (set row j (f c)))

-- `Public[nid]`, where the code indexes by an `int`.
abbrev pub user : ℤ → Ai → Option UserPublic
user (pos n) ai = get_elem? ai.public n
user _ ai = none

abbrev pub put_user : ℕ → UserPublic → Ai → Ai
put_user n u ai = record ai { public = set ai.public n u }

-- `Public[3].Now[i][j]`, read, and changed by `f`.
abbrev pub now_cell : ℕ → ℕ → Ai → Option ℤ
now_cell i j ai = do u ← get_elem? ai.public 3; cell u.now i j

abbrev pub change_now : (ℤ → ℤ) → ℕ → ℕ → Ai → Option Ai
change_now f i j ai = do
  u ← get_elem? ai.public 3
  now ← change f u.now i j
  some (put_user 3 (record u { now = now }) ai)

unfoldable pub set_now_cells : List Row → List ℕ → Option (List Row × List ℕ)
set_now_cells rows [] = some (rows, [])
set_now_cells rows (s ∷ str) =
    if ltb s 27
    then (do rows' ← change (λ c. c +ℤ pos 1) rows (s / 9) (s % 9); set_now_cells rows' str)
    else (do (rows', yu) ← set_now_cells rows str; some (rows', s ∷ yu))

-- `UserPublic.SetNow`: the hand, and the bytes that are no tile of a suit.
unfoldable pub set_now : UserPublic → List ℕ → Option (UserPublic × List ℕ)
unfolding set_now_cells
set_now u str = do (rows, yu) ← set_now_cells zero_rows str; some (record u { now = rows }, yu)

-- `range self.Blocks`, where the loop reads a field of each block: before `InitNow` all are nil.
abbrev pub all_blocks : Ai → Option (List NewBlock)
all_blocks ai = if length ai.blocks == 3 then some ai.blocks else none

-- The block of suit `i`, `BlocksMap[i]`, and its `Update`. A suit that has no block is a nil.
unfoldable pub find_block : ℕ → List NewBlock → Option NewBlock
find_block i [] = none
find_block i (b ∷ bs) = if b.i == i then some b else find_block i bs

unfoldable pub update_in : ℕ → Row → List NewBlock → Option (List NewBlock)
update_in i row [] = none
update_in i row (b ∷ bs) =
    if b.i == i
    then (do b' ← update row b; some (b' ∷ bs))
    else (do bs' ← update_in i row bs; some (b ∷ bs'))

unfoldable pub update_block : ℕ → Ai → Option Ai
unfolding update_in
update_block i ai = do
  u ← get_elem? ai.public 3
  row ← get_elem? u.now i
  bs ← update_in i row ai.blocks
  some (record ai { blocks = bs })

unfoldable pub update_blocks_weight : Bool → ℕ → ℕ → ℤ → Ai → Option Ai
unfolding update_block
update_blocks_weight add i j n ai = do
  ai' ← change_now (λ c. if add then c +ℤ n else c -ℤ n) i j ai
  update_block i ai'

-- The suit to be rid of: that of fewest tiles, or of a tie the one of more places, then more runs.
unfoldable pub get_discard : Ai → Option ℕ
get_discard ai = do
  a ← get_elem? ai.blocks 0
  b ← get_elem? ai.blocks 1
  some (
      if not (a.sum_len ==ℤ b.sum_len)
      then a.i
      else if ltb b.sum_wei a.sum_wei
      then a.i
      else if ltb a.sum_wei b.sum_wei
      then b.i
      else if ltb (length b.child) (length a.child)
      then a.i
      else if ltb (length a.child) (length b.child)
      then b.i
      else a.i)

-- The round for `i` of the loop of `InitNow`; `old` is the array of blocks before the loop.
unfoldable pub init_block : List NewBlock → ℕ → Ai → Option Ai
unfolding update_block
init_block old i ai = do
  ai' ← elim (get_elem? old i) [
    | some b ↦ update_block b.i ai
    | none ↦ do
      u ← get_elem? ai.public 3
      row ← get_elem? u.now i
      b ← NewBlock.init row i
      some (record ai { blocks = ai.blocks ++ b ∷ [] })
  ]
  bs ← sort_new_block ai'.blocks i
  some (record ai' { blocks = bs })

unfoldable pub reload_self_inv : Ai → Option Ai
unfolding get_discard
reload_self_inv ai = do
  i ← get_discard ai
  u ← get_elem? ai.public 3
  some (put_user 3 (record u { inv = pos i }) ai)

unfoldable pub init_now : List ℕ → Ai → Option Ai
unfolding set_now init_block reload_self_inv
init_now str ai = do
  u ← get_elem? ai.public 3
  (u', yu) ← set_now u str
  ai0 ← init_block ai.blocks 0 (put_user 3 u' ai)
  ai1 ← init_block ai.blocks 1 ai0
  ai2 ← init_block ai.blocks 2 ai1
  if u.inv ==ℤ minus_one then reload_self_inv ai2 else some ai2

abbrev pub set_sum_val : ℤ → Ai → Ai
set_sum_val n ai = record ai { sum_val = n }

abbrev pub set_base_val : ℤ → Ai → Ai
set_base_val n ai = record ai { base_val = n }

-- The value of a hand in units of the base, from the score `n` that would be left.
unfoldable pub get_full_val : ℤ → Ai → Option (ℤ × Ai)
get_full_val n ai = do
  u ← get_elem? ai.public 3
  if n ==ℤ pos 0 || ai.base_val ==ℤ pos 0 || u.now_val ==ℤ pos 0
      then some (pos 0, ai)
      else (let val : ℤ = wrap64 (wrap64 (u.now_val -ℤ n) /ℤ ai.base_val) in
          some (
            if gtb_ℤ val (pos 100) then pos 0 else val,
            put_user 3 (record u { tmp_now_val = n }) ai,
          ))

unfoldable pub set_last_see : ℕ → ℤ → Ai → Option Ai
set_last_see uid n ai = do
  u ← get_elem? ai.public uid
  some (record (put_user uid (record u { last_see = n }) ai) { last_public_id = pos uid })

unfoldable pub get_last_see : Ai → Option ℤ
get_last_see ai =
    if ltb_ℤ ai.last_public_id (pos 0) || gtb_ℤ ai.last_public_id (pos 2)
    then some minus_one
    else (do u ← user ai.last_public_id ai; some u.last_see)

unfoldable pub set_now_val : ℕ → ℤ → Ai → Option Ai
set_now_val nid n ai = do
  u ← get_elem? ai.public nid
  some (put_user nid (record u { now_val = n }) ai)

unfoldable pub get_valid : ℕ → Ai → Option ℤ
get_valid nid ai = do u ← get_elem? ai.public nid; some u.inv

unfoldable pub set_public_down : ℕ → ℕ → ℤ → Ai → Option Ai
set_public_down nid n val ai = do
  u ← get_elem? ai.public nid
  down ← change (λ _. val) u.down (n / 9) (n % 9)
  some (put_user nid (record u { down = down }) ai)

unfoldable pub set_public_see : ℕ → ℕ → Ai → Option Ai
unfolding set_last_see
set_public_see nid n ai = do
  u ← get_elem? ai.public nid
  see ← change (λ c. c +ℤ pos 1) u.see (n / 9) (n % 9)
  set_last_see nid (pos n) (put_user nid (record u { see = see }) ai)

-- Lines 138 to 145, over the list from its end: the last move of another player with a tile.
unfoldable pub last_discard : ℕ → List (List ℕ) → Option (Option (List ℕ))
last_discard who [] = some none
last_discard who (d ∷ ds) = do
  p ← get_elem? d 0
  t ← get_elem? d 2
  if not (p == who) && ltb t 27 then some (some d) else last_discard who ds

-- Lines 146 to 150.
abbrev pub take_down : ℕ → ℕ → Option (List ℕ) → Ai → Option Ai
take_down n val none ai = some ai
take_down n val (some d) ai = do
  v ← get_elem? d 1
  t ← get_elem? d 2
  if val == v then set_public_down n t (pos 2) ai else some ai

-- A move of player `b[0]`: the tile `b[2]` is discarded, or taken when `b[2]` is no tile.
unfoldable pub set_see_list : List ℕ → Ai → Option Ai
unfolding set_public_see last_discard set_public_down set_now_val
set_see_list b ai = do
  n ← get_elem? b 0
  val ← get_elem? b 1
  tile ← get_elem? b 2
  ai1 ←
      if ltb tile 27
      then set_public_see n tile ai
      else (do found ← last_discard n (reverse ai.see_list); take_down n val found ai)
  ai2 ← set_now_val n (byte_to_int (drop 3 b)) ai1
  some (record (set_sum_val (pos val) ai2) { see_list = ai.see_list ++ b ∷ [] })
