-- ===== src/Robot/Scmj.antt =====
-- robot/SCMJ.go: the methods of the mahjong player. A message `b` is a slice of the 1024 bytes of a
-- receive buffer that begins as zeros, so `b[:14]` of a shorter message is filled up with zeros,
-- while `b[14:]` of one panics.
use route_server.Prelude.{
  ℕ, ℤ, pos, byte_of, Bool, true, false, ◌&&◌, ◌||◌, Option, none, some, List, [], ◌∷◌, ◌++◌, ◌>>=◌,
  ◌==◌, leb, ltb, if◌then◌else◌, get_elem?, take, drop, replicate, length,
}
use route_server.Comm.{byte_to_int}
use route_server.Mjai.Ai.{
  Ai, init, init_now, set_see_list, set_now_val, get_full_val, get_last_see, get_valid,
  set_public_down, set_base_val,
}
use route_server.Mjai.Outs.{outs, out_discard}
use route_server.Mjai.SeeOuts.{see_outs}

-- `b[:n]` and `b[n:]`
unfoldable pub slice_to : ℕ → List ℕ → List ℕ
slice_to n b = take n (b ++ replicate n 0)

unfoldable pub slice_from : ℕ → List ℕ → Option (List ℕ)
slice_from n b = if leb n (length b) then some (drop n b) else none

-- `GetFullVal(ByteToInt(b[n:]))`
unfoldable pub full_val_from : ℕ → List ℕ → Ai → Option (ℤ × Ai)
unfolding slice_from
full_val_from n b ai = do s ← slice_from n b; get_full_val (byte_to_int s) ai

-- Methods 4 and 6.
unfoldable pub choose_out : Bool → List ℕ → Ai → Option (List ℕ × Ai)
unfolding slice_to full_val_from
choose_out no30 b ai = do
  ai1 ← init_now (slice_to 14 b) ai
  (isf, ai2) ← full_val_from 14 b ai1
  (n, ai3) ← outs isf no30 ai2
  some (byte_of n ∷ [], ai3)

unfoldable pub see_claim : List ℕ → Ai → Option (List ℕ × Ai)
unfolding slice_to full_val_from
see_claim b ai = do
  last ← get_last_see ai
  (isf, ai1) ← full_val_from 4 b ai
  (val, ai2) ← see_outs last (slice_to 4 b) isf ai1
  some (val ∷ [], ai2)

unfoldable pub mark_down : List ℕ → Ai → Option Ai
mark_down [] ai = some ai
mark_down (t ∷ ts) ai = do
  ai' ← if ltb t 27 then set_public_down 3 t (pos 1) ai else some ai
  mark_down ts ai'

-- Method 3: what lies on the table, the hand, and the score.
unfoldable pub claim_out : List ℕ → Ai → Option (List ℕ × Ai)
unfolding mark_down slice_to full_val_from
claim_out b ai = do
  ai1 ← mark_down (slice_to 14 b) ai
  ai2 ← init_now (drop 14 (slice_to 28 b)) ai1
  (isf, ai3) ← full_val_from 28 b ai2
  (n, ai4) ← outs isf true ai3
  some (byte_of n ∷ [], ai4)

unfoldable pub start_game : List ℕ → Ai → Option (List ℕ × Ai)
unfolding slice_to
start_game b ai = do
  ai1 ← init_now (slice_to 14 b) (init ai)
  base ← get_elem? b 14
  a ← get_valid 3 ai1
  some (byte_of a ∷ [], set_base_val (pos base) ai1)

unfoldable pub pass_three : List ℕ → Ai → Option (List ℕ × Ai)
unfolding slice_to slice_from
pass_three b ai = do
  ai1 ← init_now (slice_to 14 b) (init ai)
  s ← slice_from 14 b
  ai2 ← set_now_val 3 (byte_to_int s) ai1
  out_discard (pos 3) ai2

unfoldable pub note_score : List ℕ → Ai → Option (List ℕ × Ai)
note_score b ai = do
  nid ← get_elem? b 0
  ai' ← set_now_val nid (byte_to_int (drop 1 b)) ai
  some ([], ai')

unfoldable pub note_move : List ℕ → Ai → Option (List ℕ × Ai)
note_move b ai = do ai' ← set_see_list b ai; some ([], ai')

-- `ScmjFuncLib`: does it have a method `k`, and a call of it. A nil reply is the empty list.
unfoldable pub has_scmj : ℕ → Bool
has_scmj k = leb 1 k && leb k 6 || leb 9 k && leb k 11

unfoldable pub call_scmj : ℕ → List ℕ → Ai → Option (List ℕ × Ai)
unfolding choose_out see_claim claim_out start_game pass_three note_score note_move
call_scmj k b ai =
    if k == 1
    then pass_three b ai
    else if k == 2
    then start_game b ai
    else if k == 3
    then claim_out b ai
    else if k == 4
    then choose_out true b ai
    else if k == 5
    then see_claim b ai
    else if k == 6
    then choose_out false b ai
    else if k == 9
    then note_score b ai
    else if k == 10
    then note_move b ai
    else some ([], ai)
