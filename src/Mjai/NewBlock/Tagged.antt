-- ===== src/Mjai/NewBlock/Tagged.antt =====
-- mjai/NewBlock.go: the tiles that an update notes in `We`.
use mathlib.Core.Option.{some-injective}
use route_server.Prelude.{
  ℕ, ◌<◌, pos, some, List, [], ◌∷◌, map, ◌≡◌, refl, sym, ap, subst, length, All, arith, All-append,
  All-left, All-right, >>=-eq-some, length-append,
}
use route_server.Mjai.Grain.{MjGrain}
use route_server.Mjai.Weight.{Row, get_weight_val}
use route_server.Mjai.Weight.Named.{Single, get_weight_val-Single}
use route_server.Mjai.NewBlock.{
  ChildBlock, NewBlock, no_child, split, tag, weigh, set_weight, update,
}
use route_server.Mjai.NewBlock.Runs.{places_of}

-- A tile of suit `i` with at least three scores.
abbrev pub Named : ℕ → MjGrain → Type 0
Named i g = (g.h ≡ pos i) × (g.n < 9) × (2 < length g.o)

tags-Named :
    (i : ℕ) (c : ChildBlock) (gs : List MjGrain) → All Single gs → All (Named i) (map (tag i c) gs)
tags-Named i c [] h = tt
tags-Named i c (g ∷ gs) ((low, one), h) =
    let size = length-append g.o (pos c.wei ∷ c.len ∷ []) in
    ((refl, low, omega arith), tags-Named i c gs h)

weigh-Named :
    (row : Row) (cs : List ChildBlock) (b b' : NewBlock)
    → All (λ j. j < 9) (places_of cs)
    → All (Named b.i) b.we
    → weigh row cs b ≡ some b'
    → All (Named b'.i) b'.we
unfolding weigh
weigh-Named row [] b b' low h e =
    subst (λ (b : NewBlock). All (Named b.i) b.we) (some-injective b b' e) h
weigh-Named row (c ∷ cs) b b' low h e =
    let (r, e1, e2) = >>=-eq-some (get_weight_val row c.bl) _ e in
    let here = All-left (λ j. j < 9) c.bl (places_of cs) low in
    weigh-Named row cs _ b' (All-right (λ j. j < 9) c.bl (places_of cs) low)
      (All-append (Named b.i) b.we (map (tag b.i c) r.1) h
        (tags-Named b.i c r.1 (get_weight_val-Single row c.bl r here e1)))
      e2

weigh-child :
    (row : Row) (cs : List ChildBlock) (b b' : NewBlock)
    → weigh row cs b ≡ some b'
    → b'.child ≡ b.child
unfolding weigh
weigh-child row [] b b' h = sym (ap (λ (c : NewBlock). c.child) (some-injective b b' h))
weigh-child row (c ∷ cs) b b' h =
    let (r, e1, h1) = >>=-eq-some (get_weight_val row c.bl) _ h in weigh-child row cs _ b' h1

-- The tiles of `We` are of the suit, and have three scores or more.
pub update-Named :
    (row : Row) (b b' : NewBlock)
    → All (λ j. j < 9) (places_of b'.child)
    → update row b ≡ some b'
    → All (Named b'.i) b'.we
unfolding update set_weight
update-Named row b b' low e =
    let fresh : NewBlock = record b { child = []; sum_len = pos 0; sum_wei = 0 } in
    let cs : List ChildBlock = (split 0 row no_child fresh).child in
    let same : b'.child ≡ cs = weigh-child row cs _ b' e in
    weigh-Named row cs _ b' (subst (λ cs. All (λ j. j < 9) (places_of cs)) same low) tt e
