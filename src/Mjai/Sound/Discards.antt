-- ===== src/Mjai/Sound/Discards.antt =====
-- `Outs` returns on a sound player whose blocks match the hand.

use route_server.Prelude.{
  ℕ, ◌<◌, ℤ, pos, minus_one, Bool, true, false, Option, none, some, List, [], ◌∷◌, ◌>>=◌, ◌≡◌, refl,
  ◌∙◌, inl, inr, All, arith, Bool-cases, Gives, Gives-bind, gtb_ℤ, if◌then◌else◌,
}
use route_server.Mjai.Grain.{MjGrain}
use route_server.Mjai.NewBlock.{NewBlock}
use route_server.Mjai.Ai.{Ai, UserPublic, get_valid}
use route_server.Mjai.Search.Restore.{check_all_jiao-public}
use route_server.Mjai.Outs.{unwanted, short_suit, weighed_out, search_out, self_see, outs, tile_of}
use route_server.Mjai.Sound.{Player, InRange}
use route_server.Mjai.Sound.Rows.{Grid-row, Table-user}
use route_server.Mjai.Sound.Readings.{Returns, all_blocks-Sound}
use route_server.Mjai.Sound.Waits.{Steady, now_cell-public, find_block-gives}
use route_server.Mjai.Sound.Choice.{InHand, Chosen, check_all_jiao-Chosen}
use route_server.Mjai.Sound.Board.{on_board-OnBoard, tile_of-OnBoard}
use route_server.Mjai.Sound.Weighed.{weighed_out-Steady}
use route_server.Mjai.Sound.Shows.{Spare, self_see-Steady}

short_suit-Returns :
    (inv : ℤ) (bs : List NewBlock) (u : UserPublic)
    → Player u
    → All InRange bs
    → Returns (short_suit inv bs u)
unfolding short_suit
short_suit-Returns inv [] u p rs = (none, refl, tt)
short_suit-Returns inv (b ∷ bs) u p (r, rs) =
    Gives-bind (Grid-row u.down b.i p.down r.suit)
      (λ down e _. Gives-bind (short_suit-Returns inv bs u p rs) (λ rest e1 _. (_, refl, tt)))

search_out-Steady :
    (isf inv : ℤ) (p q : ℕ) (ai : Ai)
    → Steady ai
    → p < 3
    → InHand p q ai
    → Gives (search_out isf inv ai) (λ r. Steady r.1)
unfolding search_out
search_out-Steady isf inv p q ai s l (c, at) =
    let ((gr, ai'), e, (chosen, s')) = check_all_jiao-Chosen isf ai s in
    let same = check_all_jiao-public isf ai gr ai' e in
    let held : InHand p q ai' = (c, now_cell-public p q ai ai' same ∙ at) in
    let (u, e1, pl) = Table-user ai'.public 3 s'.sound.table (omega arith) in
    let (short, e2, _) = short_suit-Returns inv ai'.blocks u pl s'.sound.blocks.range in
    rw (e, all_blocks-Sound ai' s'.sound, e1, e2) (finish gr ai' s' chosen held short)
  where
    no_wait :
        (ai' : Ai) (m : Option ℕ)
        → Steady ai'
        → InHand p q ai'
        → Gives
            (elim m as (λ _. Option (ℤ × Ai)) [
              | some t ↦ some (pos t, ai')
              | none ↦ weighed_out isf ai'
            ])
            (λ r. Steady r.1)
    no_wait ai' none s' held = weighed_out-Steady isf p q ai' s' l held
    no_wait ai' (some t) s' held = (_, refl, s')

    finish :
        (gr : Option MjGrain) (ai' : Ai)
        → Steady ai'
        → Chosen gr
        → InHand p q ai'
        → (short : Option ℕ)
        → Gives
            (elim gr as (λ _. Option (ℤ × Ai)) [
              | some g ↦ do t ← tile_of g; some (pos t, ai')
              | none ↦ elim (if gtb_ℤ isf (pos 0) then short else none) [
                | some t ↦ some (pos t, ai')
                | none ↦ weighed_out isf ai'
              ]
            ])
            (λ r. Steady r.1)
    finish (some g) ai' s' chosen held short =
        rw (tile_of-OnBoard g (on_board-OnBoard g chosen)) (_, refl, s')
    finish none ai' s' chosen held short =
        no_wait ai' (if gtb_ℤ isf (pos 0) then short else none) s' held

-- `Spare` matters only where `SelfSee` is asked.
pub outs-Steady :
    (isf : ℤ) (no30 : Bool) (i p q : ℕ) (ai : Ai)
    → Steady ai
    → get_valid 3 ai ≡ some (pos i)
    → i < 3
    → p < 3
    → InHand p q ai
    → (no30 ≡ true → Spare p q ai)
    → Gives (outs isf no30 ai) (λ r. Steady r.1)
unfolding outs
outs-Steady isf no30 i p q ai s inv l k held spare =
    let (b, e, _) =
      find_block-gives InRange i ai.blocks s.sound.blocks.range (s.sound.blocks.each.all i l) in
    let (r, e1, (s', held')) = shown no30 (unwanted b) spare in
    rw (inv, e, e1)
      (elim (Bool-cases (gtb_ℤ r.0 minus_one)) [
        | inl decided ↦ rw decided (r, refl, s')
        | inr undecided ↦ rw undecided (search_out-Steady isf (pos i) p q r.1 s' k held')
      ])
  where
    shown :
        (no30 : Bool) (out : ℤ)
        → (no30 ≡ true → Spare p q ai)
        → Gives
            (if no30 then self_see isf out ai else some (out, ai))
            (λ r. Steady r.1 × InHand p q r.1)
    shown true out spare = self_see-Steady isf out p q ai s (spare refl)
    shown false out spare = ((out, ai), refl, (s, held))

-- On a sound player whose blocks match the hand, which has given up one of the three suits and holds
-- a tile of which nothing is on the table before it, `Outs` returns, and the player is sound and its
-- blocks match the hand.
pub outs-returns :
    (isf : ℤ) (no30 : Bool) (i p q : ℕ) (ai : Ai)
    → Steady ai
    → get_valid 3 ai ≡ some (pos i)
    → i < 3
    → p < 3
    → Spare p q ai
    → Gives (outs isf no30 ai) (λ r. Steady r.1)
outs-returns isf no30 i p q ai s inv l k spare =
    outs-Steady isf no30 i p q ai s inv l k spare.held (λ _. spare)
