-- ===== src/Mjai/NewBlock/Again.antt =====
-- mjai/NewBlock.go: what an update keeps of the block, which is its suit, and nothing else.
use mathlib.Core.Option.{some-injective}
use route_server.Prelude.{
  ℕ, suc, pos, some, List, [], ◌∷◌, ◌≡◌, refl, sym, ap, ◌∙◌, inl, inr, Bool-cases, >>=-eq-some,
  ◌==ℤ◌, ltb, Option,
}
use route_server.Mjai.Weight.{Row, get_weight_val}
use route_server.Mjai.NewBlock.{
  ChildBlock, NewBlock, no_child, flush, grow, split, weigh, set_weight, update, new_block,
}

flush-suit : (c : ChildBlock) (b : NewBlock) → (flush c b).i ≡ b.i
flush-suit c b = elim (Bool-cases (ltb 0 c.wei)) [ inl h ↦ rw h refl | inr h ↦ rw h refl ]

pub split-suit : (j : ℕ) (row : Row) (c : ChildBlock) (b : NewBlock) → (split j row c b).i ≡ b.i
unfolding split
split-suit j [] c b = flush-suit c b
split-suit j (n ∷ row) c b = elim (Bool-cases (n ==ℤ pos 0)) [
  | inl gap ↦ rw gap (split-suit (suc j) row no_child (flush c b) ∙ flush-suit c b)
  | inr tiles ↦ rw tiles (split-suit (suc j) row (grow j n c) b)
]

pub weigh-suit :
    (row : Row) (cs : List ChildBlock) (b b' : NewBlock) → weigh row cs b ≡ some b' → b'.i ≡ b.i
unfolding weigh
weigh-suit row [] b b' h = sym (ap (λ (c : NewBlock). c.i) (some-injective b b' h))
weigh-suit row (c ∷ cs) b b' h =
    let ((w, e), e1, h1) = >>=-eq-some (get_weight_val row c.bl) _ h in weigh-suit row cs _ b' h1

pub update-suit : (row : Row) (b b' : NewBlock) → update row b ≡ some b' → b'.i ≡ b.i
unfolding update set_weight
update-suit row b b' h =
    let fresh : NewBlock = record b { child = []; sum_len = pos 0; sum_wei = 0 } in
    weigh-suit row (split 0 row no_child fresh).child _ b' h ∙ split-suit 0 row no_child fresh

abbrev unweighed : NewBlock → NewBlock
unweighed b = record b { w = pos 0; we = [] }

flush-unweighed : (c : ChildBlock) (b : NewBlock) → unweighed (flush c b) ≡ flush c (unweighed b)
flush-unweighed c b = elim (Bool-cases (ltb 0 c.wei)) [ inl h ↦ rw h refl | inr h ↦ rw h refl ]

split-unweighed :
    (j : ℕ) (row : Row) (c : ChildBlock) (b : NewBlock)
    → unweighed (split j row c b) ≡ split j row c (unweighed b)
unfolding split
split-unweighed j [] c b = flush-unweighed c b
split-unweighed j (n ∷ row) c b = elim (Bool-cases (n ==ℤ pos 0)) [
  | inl gap ↦ rw gap (
      split-unweighed (suc j) row no_child (flush c b)
      ∙ ap (split (suc j) row no_child) (flush-unweighed c b))
  | inr tiles ↦ rw tiles (split-unweighed (suc j) row (grow j n c) b)
]

-- The update is that of a new block of the suit.
pub update-new_block : (row : Row) (b : NewBlock) → update row b ≡ update row (new_block b.i)
unfolding update set_weight
update-new_block row b =
    let cleared : NewBlock = record b { child = []; sum_len = pos 0; sum_wei = 0 } in
    let weighed : NewBlock → Option NewBlock = λ k. weigh row k.child k in
    ap weighed (split-unweighed 0 row no_child cleared)
    ∙ sym (ap weighed (split-unweighed 0 row no_child (new_block b.i)))
