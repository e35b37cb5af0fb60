-- ===== src/Mjai/Sound/Passes.antt =====
-- `OutDiscard` returns, with as many tiles as it is asked for, which it takes out of the hand.
use mathlib.Core.Option.{some-injective}
use route_server.Prelude.{
  ℕ, zero, suc, ◌+◌, ◌*◌, ◌<◌, ◌≤◌, ℤ, pos, negsuc, pos_part, neg_part, minus_one, ◌+ℤ◌, ◌-ℤ◌,
  byte_of, true, false, some, List, [], ◌∷◌, ◌++◌, ◌≡◌, ◌≢◌, refl, sym, ap, ◌∙◌, inl, inr,
  get_elem?, length, All, arith, Bool-cases, >>=-eq-some, Gives, All-left, All-right, ◌==ℤ◌, subst,
}
use route_server.Mjai.NewBlock.{ChildBlock}
use route_server.Mjai.NewBlock.Runs.{places_of}
use route_server.Mjai.Ai.{Ai, now_cell, get_valid}
use route_server.Mjai.Search.{dec}
use route_server.Mjai.Outs.{Passing, pass_tiles, pass_run, pass_runs, out_discard}
use route_server.Mjai.Outs.Count.{out_discard-length}
use route_server.Mjai.Sound.{InRange, hand}
use route_server.Mjai.Sound.Rows.{Table-user, now_cell-gives}
use route_server.Mjai.Sound.Waits.{
  Steady, Trying, Trying-of_Steady, settle_block, try_change, now_cell-public, find_block-gives,
}
use route_server.Mjai.Sound.Choice.{InHand}
use route_server.Mjai.Sound.Easy.{count_places, count_places-some, occupied-some}
use route_server.Mjai.Sound.TakenOut.{TakenOut, TakenOut-one, change_now-others}
use route_server.Mjai.Sound.Laid.{
  Sized-of_Steady, PassedOn, PassedOn-trans, PassedOn-none, pass_easy-Returns,
}

-- The player after some tiles of suit `i` are passed on.
record Passed (i : ℕ) (p p' : Passing) : Type 0 where
  trying : Trying i p'.ai
  others : (k l : ℕ) → i ≢ k → now_cell k l p'.ai ≡ now_cell k l p.ai
  on : PassedOn p.o p'.o p.ai p'.ai

Passed-trans : (i : ℕ) (p p1 p2 : Passing) → Passed i p p1 → Passed i p1 p2 → Passed i p p2
Passed-trans i p p1 p2 a b = record {
  trying = b.trying;
  others = λ k l ne. b.others k l ne ∙ a.others k l ne;
  on = PassedOn-trans p.o p1.o p2.o p.ai p1.ai p2.ai a.on b.on;
}

Passed-none : (i : ℕ) (p : Passing) → Trying i p.ai → Passed i p p
Passed-none i p t = record {
  trying = t;
  others = λ a b ne. refl;
  on = PassedOn-none p.o p.ai p.ai refl;
}

dec-suc : (m : ℕ) → dec (pos (suc m)) ≡ pos m
unfolding ◌-ℤ◌ ◌+ℤ◌
dec-suc m = ground arith

pass_tiles-Passed :
    (n m i j : ℕ) (p : Passing)
    → i < 3
    → j < 9
    → Trying i p.ai
    → now_cell i j p.ai ≡ some (pos m)
    → n ≤ m
    → Gives (pass_tiles n i j p) (λ r. Passed i p r.1)
unfolding pass_tiles
pass_tiles-Passed zero m i j p l k t at le = ((false, p), refl, Passed-none i p t)
pass_tiles-Passed (suc n) zero i j p l k t at le = absurd (omega arith)
pass_tiles-Passed (suc n) (suc m) i j p l k t at le =
    let (ai, e, (t1, moved)) = try_change dec i j p.ai t l k (λ c there _.
      let same : pos (suc m) ≡ c = some-injective _ _ (sym at ∙ there) in
      ap (λ d. neg_part (dec d)) (sym same) ∙ ap neg_part (dec-suc m)) in
    let num : ℤ = p.num -ℤ pos 1 in
    let p' : Passing = record { num = num; o = p.o ++ byte_of (pos (i * 9 + j)) ∷ []; ai = ai } in
    let here : Passed i p p' = record {
      trying = t1;
      others = λ a b ne. change_now-others dec i j a b p.ai ai e (λ q. ne q.0);
      on = record {
        more = byte_of (pos (i * 9 + j)) ∷ [];
        result = refl;
        out = TakenOut-one i j p.ai ai l k e;
      };
    } in
    let fewer = moved (pos (suc m)) at ∙ ap some (dec-suc m) in
    rw e (elim (Bool-cases (num ==ℤ pos 0)) [
      | inl enough ↦ rw enough ((true, p'), refl, here)
      | inr more ↦
          let (r, e1, q) = pass_tiles-Passed n m i j p' l k t1 fewer (omega arith) in
          rw more (r, e1, Passed-trans i p p' r.1 here q)
    ])

count_is : (c : ℤ) → neg_part c ≡ 0 → c ≡ pos (pos_part c)
count_is (pos n) h = refl
count_is (negsuc n) h = absurd (ground arith)

pass_run-Passed :
    (i : ℕ) (js : List ℕ) (p : Passing)
    → i < 3
    → All (λ j. j < 9) js
    → Trying i p.ai
    → Gives (pass_run i js p) (λ r. Passed i p r.1)
unfolding pass_run
pass_run-Passed i [] p l low t = ((false, p), refl, Passed-none i p t)
pass_run-Passed i (j ∷ js) p l (k, low) t =
    let (c, e, nn) = now_cell-gives i j p.ai t.sound l k in
    let ((stop, q), e1, d) =
      pass_tiles-Passed (pos_part c) (pos_part c) i j p l k t (e ∙ ap some (count_is c nn))
        (omega arith) in
    rw (e, e1)
      (elim (Bool-cases stop) [
        | inl enough ↦ rw enough ((true, q), refl, d)
        | inr more ↦
            let (r, e2, d2) = pass_run-Passed i js q l low d.trying in
            rw more (r, e2, Passed-trans i p q r.1 d d2)
      ])

pass_runs-Passed :
    (i : ℕ) (cs : List ChildBlock) (p : Passing)
    → i < 3
    → All (λ j. j < 9) (places_of cs)
    → Trying i p.ai
    → Gives (pass_runs i cs p) (λ r. Passed i p r.1)
unfolding pass_runs
pass_runs-Passed i [] p l low t = ((false, p), refl, Passed-none i p t)
pass_runs-Passed i (c ∷ cs) p l low t =
    let ((stop, q), e, d) =
      pass_run-Passed i c.bl p l (All-left (λ j. j < 9) c.bl (places_of cs) low) t in
    rw e (elim (Bool-cases stop) [
      | inl enough ↦ rw enough ((true, q), refl, d)
      | inr more ↦
          let (r, e1, d1) =
            pass_runs-Passed i cs q l (All-right (λ j. j < 9) c.bl (places_of cs) low) d.trying in
          rw more (r, e1, Passed-trans i p q r.1 d d1)
    ])

-- A tile of the hand is at a position of some block.
InHand-places : (i j : ℕ) (ai : Ai) → Steady ai → i < 3 → InHand i j ai → 0 < count_places ai.blocks
InHand-places i j ai s l (c, at) =
    let (u, e, _) = Table-user ai.public 3 s.sound.table (omega arith) in
    let (row, e1, e2) = >>=-eq-some (get_elem? u.now i) (λ row. get_elem? row j) (rw e at at) in
    let on_hand : get_elem? (hand ai.public) i ≡ some row = rw e e1 in
    count_places-some i (hand ai.public) row ai.blocks (s.sound.blocks.each.all i l) s.fresh on_hand
      (occupied-some 0 j c row e2)

-- On a sound player whose blocks match the hand, which has given up one of the three suits and holds a
-- tile of another, `OutDiscard`, asked for a positive number of tiles, returns exactly as many. All
-- are tiles of the suits, and each count of the hand is less by as many as are passed on of that
-- tile.
pub out_discard-passes :
    (n i k j : ℕ) (ai : Ai)
    → 0 < n
    → Steady ai
    → get_valid 3 ai ≡ some (pos i)
    → i < 3
    → k < 3
    → i ≢ k
    → InHand k j ai
    → Gives (out_discard (pos n) ai) (λ r. (length r.0 ≡ n) × TakenOut r.0 ai r.1)
unfolding out_discard
out_discard-passes n i k j ai positive s inv l low apart (c, at) =
    let (r, e, on) = returns in
    (
      r,
      e,
      (
        out_discard-length n ai r.0 r.1 positive e,
        subst (λ o. TakenOut o ai r.1) (sym on.result) on.out,
      ),
    )
  where
    returns : Gives (out_discard (pos n) ai) (λ r. PassedOn [] r.0 ai r.1)
    returns =
        let (b, e, (range, _)) =
          find_block-gives InRange i ai.blocks s.sound.blocks.range (s.sound.blocks.each.all i l) in
        let start : Passing = record { num = pos n; o = []; ai = ai } in
        let ((stop, p), e1, d) =
          pass_runs-Passed i b.child start l range.places (Trying-of_Steady i ai s) in
        let (ai1, e2, (s1, same)) = settle_block i p.ai d.trying l in
        let held : InHand k j ai1 =
          (c, now_cell-public k j p.ai ai1 same ∙ d.others k j apart ∙ at) in
        let (r, e3, rest) =
          pass_easy-Returns (pos_part p.num) p.o ai1 (Sized-of_Steady ai1 s1)
            (InHand-places k j ai1 s1 low held) in
        let settled : PassedOn p.o p.o p.ai ai1 = PassedOn-none p.o p.ai ai1 same in
        let after = PassedOn-trans p.o p.o r.0 p.ai ai1 r.1 settled rest in
        let set_already : (pos i ==ℤ minus_one) ≡ false = ground arith in
        rw (inv, set_already, inv, e, e1, e2)
          (r, e3, PassedOn-trans [] p.o r.0 ai p.ai r.1 d.on after)
