-- ===== src/Mjai/Outs/Count.antt =====
-- mjai's `OutDiscard`: how many tiles it passes on.
use mathlib.Core.Option.{some-injective}
use route_server.Prelude.{
  ℕ, zero, suc, ◌+◌, ◌<◌, ℤ, pos, pos_part, neg_part, ◌-ℤ◌, Bool, true, false, Option, some, List,
  [], ◌∷◌, ◌++◌, ◌≡◌, refl, ap, ◌∙◌, subst, inl, inr, ◌==ℤ◌, if◌then◌else◌, length, arith,
  Bool-cases, >>=-eq-some, length-append, minus_one, byte_of,
}
use route_server.Mjai.NewBlock.{ChildBlock}
use route_server.Mjai.Ai.{
  Ai, now_cell, change_now, find_block, update_block, get_valid, reload_self_inv,
}
use route_server.Mjai.Full.{suit}
use route_server.Mjai.Search.{dec}
use route_server.Mjai.Outs.{
  easy_outs, tile_of, index_of, Passing, pass_tiles, pass_run, pass_runs, pass_easy, out_discard,
}

-- `total` tiles are passed on or left to pass; before a `break` one at least is left.
record Balanced (total : ℕ) (stop : Bool) (p : Passing) : Type 0 where
  negative : neg_part p.num ≡ 0
  sum : length p.o + pos_part p.num ≡ total
  more : stop ≡ false → 0 < pos_part p.num

less_one :
    (a : ℤ)
    → neg_part a ≡ 0
    → 0 < pos_part a
    → (neg_part (a -ℤ pos 1) ≡ 0) × (suc (pos_part (a -ℤ pos 1)) ≡ pos_part a)
unfolding ◌-ℤ◌
less_one a h l = ground arith

-- One tile more is passed on.
one_more :
    (total t : ℕ) (stop : Bool) (p : Passing) (ai : Ai)
    → ((p.num -ℤ pos 1) ==ℤ pos 0) ≡ stop
    → Balanced total false p
    → Balanced total stop (record { num = p.num -ℤ pos 1; o = p.o ++ t ∷ []; ai = ai })
one_more total t stop p ai e b =
    let (n, s) = less_one p.num b.negative (b.more refl) in
    record {
      negative = n;
      sum = omega (arith, length-append p.o (t ∷ []), s, b.sum);
      more = λ h. ground arith;
    }

-- `Balanced` holds of what a call returns.
returned :
    (total : ℕ) (s t : Bool) (p q : Passing)
    → Balanced total s p
    → ◌≡◌ {A = Option (Bool × Passing)} (some (s, p)) (some (t, q))
    → Balanced total t q
returned total s t p q b h =
    subst (λ (r : Bool × Passing). Balanced total r.0 r.1) (some-injective _ _ h) b

pass_tiles-Balanced :
    (total n i j : ℕ) (p : Passing) (stop : Bool) (p' : Passing)
    → Balanced total false p
    → pass_tiles n i j p ≡ some (stop, p')
    → Balanced total stop p'
unfolding pass_tiles
pass_tiles-Balanced total zero i j p stop p' b h = returned total false stop p p' b h
pass_tiles-Balanced total (suc n) i j p stop p' b h =
    let (ai, e1, h1) = >>=-eq-some (change_now dec i j p.ai) _ h in
    elim (Bool-cases ((p.num -ℤ pos 1) ==ℤ pos 0)) [
      | inl last ↦ returned total true stop _ p' (one_more total _ true p ai last b) (rw last at h1)
      | inr more ↦
          pass_tiles-Balanced total n i j _ stop p' (one_more total _ false p ai more b)
            (rw more at h1)
    ]

-- A loop that may stop, followed by what comes after it.
then_more :
    (total : ℕ) (s t : Bool) (p q : Passing) (rest : Option (Bool × Passing))
    → Balanced total s p
    → (Balanced total false p → rest ≡ some (t, q) → Balanced total t q)
    → (if s then some (true, p) else rest) ≡ some (t, q)
    → Balanced total t q
then_more total true t p q rest b f h = returned total true t p q b h
then_more total false t p q rest b f h = f b h

pass_run-Balanced :
    (total i : ℕ) (js : List ℕ) (p : Passing) (stop : Bool) (p' : Passing)
    → Balanced total false p
    → pass_run i js p ≡ some (stop, p')
    → Balanced total stop p'
unfolding pass_run
pass_run-Balanced total i [] p stop p' b h = returned total false stop p p' b h
pass_run-Balanced total i (j ∷ js) p stop p' b h =
    let (n, e1, h1) = >>=-eq-some (now_cell i j p.ai) _ h in
    let ((s, q), e2, h2) = >>=-eq-some (pass_tiles (pos_part n) i j p) _ h1 in
    then_more total s stop q p' (pass_run i js q)
      (pass_tiles-Balanced total (pos_part n) i j p s q b e2)
      (pass_run-Balanced total i js q stop p') h2

pass_runs-Balanced :
    (total i : ℕ) (cs : List ChildBlock) (p : Passing) (stop : Bool) (p' : Passing)
    → Balanced total false p
    → pass_runs i cs p ≡ some (stop, p')
    → Balanced total stop p'
unfolding pass_runs
pass_runs-Balanced total i [] p stop p' b h = returned total false stop p p' b h
pass_runs-Balanced total i (c ∷ cs) p stop p' b h =
    let ((s, q), e1, h1) = >>=-eq-some (pass_run i c.bl p) _ h in
    then_more total s stop q p' (pass_runs i cs q) (pass_run-Balanced total i c.bl p s q b e1)
      (pass_runs-Balanced total i cs q stop p') h1

pass_easy-length :
    (n : ℕ) (o : List ℕ) (ai : Ai) (o' : List ℕ) (ai' : Ai)
    → pass_easy n o ai ≡ some (o', ai')
    → length o' ≡ length o + n
unfolding pass_easy
pass_easy-length zero o ai o' ai' h =
    let same = ap (λ (r : List ℕ × Ai). length r.0) (some-injective _ _ h) in omega (arith, same)
pass_easy-length (suc n) o ai o' ai' h =
    let (gr, e1, h1) = >>=-eq-some (easy_outs ai) _ h in
    let (i, e2, h2) = >>=-eq-some (suit gr) _ h1 in
    let (t, e3, h3) = >>=-eq-some (tile_of gr) _ h2 in
    let (ai1, e4, h4) = >>=-eq-some (change_now dec i gr.n ai) _ h3 in
    let tile : List ℕ = byte_of (pos t) ∷ [] in
    let rest = pass_easy-length n (o ++ tile) ai1 o' ai' h4 in
    omega (arith, rest, length-append o tile)

-- `OutDiscard`, asked for a positive number `n` of tiles, passes on exactly `n` if it returns.
pub out_discard-length :
    (n : ℕ) (ai : Ai) (o : List ℕ) (ai' : Ai)
    → 0 < n
    → out_discard (pos n) ai ≡ some (o, ai')
    → length o ≡ n
unfolding out_discard
out_discard-length n ai o ai' l h =
    let (inv0, e0, h0) = >>=-eq-some (get_valid 3 ai) _ h in
    let (ai0, e1, h1) =
      >>=-eq-some (if inv0 ==ℤ minus_one then reload_self_inv ai else some ai) _ h0 in
    let (inv, e2, h2) = >>=-eq-some (get_valid 3 ai0) _ h1 in
    let (i, e3, h3) = >>=-eq-some (index_of inv) _ h2 in
    let (b, e4, h4) = >>=-eq-some (find_block i ai0.blocks) _ h3 in
    let start : Passing = record { num = pos n; o = []; ai = ai0 } in
    let ((s, p), e5, h5) = >>=-eq-some (pass_runs i b.child start) _ h4 in
    let (ai1, e6, h6) = >>=-eq-some (update_block i p.ai) _ h5 in
    let begun : Balanced n false start = record {
      negative = refl;
      sum = omega arith;
      more = λ _. l;
    } in
    let done = pass_runs-Balanced n i b.child start s p begun e5 in
    pass_easy-length (pos_part p.num) p.o ai1 o ai' h6 ∙ done.sum
