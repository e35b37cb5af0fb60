-- ===== src/Mjai/NewBlock/Runs.antt =====
-- `NewBlock.Update`: the runs that it splits a row into, and that it always returns.
use mathlib.Core.Option.{some-injective}
use mathlib.Core.List.{append-nil, append_assoc}
use route_server.Prelude.{
  ℕ, suc, ◌+◌, ℤ, pos, ◌+ℤ◌, eq_of_parts, int_laws, some, List, [], ◌∷◌, ◌++◌, ◌==ℤ◌, ltb,
  if◌then◌else◌, ◌≡◌, refl, sym, ap, ◌∙◌, inl, inr, length, arith, Bool-cases, >>=-eq-some,
  length-append,
}
use route_server.Mjai.Weight.{Row, get_weight_val}
use route_server.Mjai.NewBlock.{
  ChildBlock, NewBlock, no_child, flush, grow, split, weigh, set_weight, update,
}

-- The positions of the row that are not empty, from position `j` on, and the sum of the row.
abbrev pub occupied : ℕ → Row → List ℕ
occupied j [] = []
occupied j (n ∷ row) =
    let rest : List ℕ = occupied (suc j) row in if n ==ℤ pos 0 then rest else j ∷ rest

abbrev pub total : Row → ℤ
total [] = pos 0
total (n ∷ row) = n +ℤ total row

-- All positions of the runs.
abbrev pub places_of : List ChildBlock → List ℕ
places_of [] = []
places_of (c ∷ cs) = c.bl ++ places_of cs

places_of-append : (cs ds : List ChildBlock) → places_of (cs ++ ds) ≡ places_of cs ++ places_of ds
places_of-append [] ds = refl
places_of-append (c ∷ cs) ds =
    ap (λ t. c.bl ++ t) (places_of-append cs ds)
    ∙ sym (append_assoc c.bl (places_of cs) (places_of ds))

+ℤ_assoc : (a b c : ℤ) → a +ℤ b +ℤ c ≡ a +ℤ (b +ℤ c)
+ℤ_assoc a b c = omega int_laws

+ℤ_zero : (a : ℤ) → a +ℤ pos 0 ≡ a
+ℤ_zero a = omega int_laws

-- What the loop keeps of the run that is open: `wei` counts its positions.
record Counted (c : ChildBlock) : Type 0 where
  size : c.wei ≡ length c.bl
  none_yet : c.wei ≡ 0 → c.len ≡ pos 0

-- The block with the open run, as the numbers that the loop keeps track of.
record Sums (b' : NewBlock) (places : List ℕ) (len : ℤ) (wei : ℕ) : Type 0 where
  pub places_eq : places_of b'.child ≡ places
  pub len_eq : b'.sum_len ≡ len
  pub wei_eq : b'.sum_wei ≡ wei

empty : (bl : List ℕ) → length bl ≡ 0 → bl ≡ []
empty [] h = refl
empty (x ∷ bl) h = absurd (omega arith)

flush-Sums :
    (c : ChildBlock) (b : NewBlock)
    → Counted c
    → Sums (flush c b) (places_of b.child ++ c.bl) (b.sum_len +ℤ c.len) (b.sum_wei + c.wei)
flush-Sums c b k = elim (Bool-cases (ltb 0 c.wei)) [
  | inl some_run ↦ rw some_run (record {
    places_eq =
        places_of-append b.child (c ∷ []) ∙ ap (λ t. places_of b.child ++ t) (append-nil c.bl);
    len_eq = refl;
    wei_eq = refl;
  })
  | inr no_run ↦
      let none : c.wei ≡ 0 = ground arith in
      let none_held : c.bl ≡ [] = empty c.bl (sym k.size ∙ none) in
      rw no_run (record {
        places_eq = rw none_held (sym (append-nil (places_of b.child)));
        len_eq = rw (k.none_yet none) (sym (+ℤ_zero b.sum_len));
        wei_eq = omega arith;
      })
]

grow-Counted : (j : ℕ) (n : ℤ) (c : ChildBlock) → Counted c → Counted (grow j n c)
grow-Counted j n c k = record {
  size = omega (arith, length-append c.bl (j ∷ []), k.size);
  none_yet = λ h. absurd (omega arith);
}

split-Sums :
    (j : ℕ) (row : Row) (c : ChildBlock) (b : NewBlock)
    → Counted c
    → Sums
        (split j row c b)
        (places_of b.child ++ (c.bl ++ occupied j row))
        (b.sum_len +ℤ c.len +ℤ total row)
        (b.sum_wei + c.wei + length (occupied j row))
unfolding split
split-Sums j [] c b k =
    let f = flush-Sums c b k in
    record {
      places_eq = f.places_eq ∙ ap (λ t. places_of b.child ++ t) (sym (append-nil c.bl));
      len_eq = f.len_eq ∙ sym (+ℤ_zero (b.sum_len +ℤ c.len));
      wei_eq = f.wei_eq ∙ omega arith;
    }
split-Sums j (n ∷ row) c b k = elim (Bool-cases (n ==ℤ pos 0)) [
  | inl gap ↦
      let f = flush-Sums c b k in
      let r =
        split-Sums (suc j) row no_child (flush c b)
          (record { size = refl; none_yet = λ _. refl }) in
      let nothing : n ≡ pos 0 = eq_of_parts n (pos 0) (ground arith) in
      rw gap (record {
        places_eq =
            r.places_eq
            ∙ rw f.places_eq (append_assoc (places_of b.child) c.bl (occupied (suc j) row));
        len_eq = r.len_eq ∙ rw (f.len_eq, nothing) (omega int_laws);
        wei_eq = r.wei_eq ∙ rw f.wei_eq (omega arith);
      })
  | inr tiles ↦
      let r = split-Sums (suc j) row (grow j n c) b (grow-Counted j n c k) in
      rw tiles (record {
        places_eq =
            r.places_eq
            ∙ ap (λ t. places_of b.child ++ t) (append_assoc c.bl (j ∷ []) (occupied (suc j) row));
        len_eq = r.len_eq ∙ omega int_laws;
        wei_eq = r.wei_eq ∙ omega arith;
      })
]

weigh-Sums :
    (row : Row) (cs : List ChildBlock) (b b' : NewBlock)
    → weigh row cs b ≡ some b'
    → Sums b' (places_of b.child) b.sum_len b.sum_wei
unfolding weigh
weigh-Sums row [] b b' h =
    let same = some-injective b b' h in
    record {
      places_eq = sym (ap (λ (c : NewBlock). places_of c.child) same);
      len_eq = sym (ap (λ (c : NewBlock). c.sum_len) same);
      wei_eq = sym (ap (λ (c : NewBlock). c.sum_wei) same);
    }
weigh-Sums row (c ∷ cs) b b' h =
    let ((w, e), e1, h1) = >>=-eq-some (get_weight_val row c.bl) _ h in
    let r = weigh-Sums row cs _ b' h1 in
    record { places_eq = r.places_eq; len_eq = r.len_eq; wei_eq = r.wei_eq }

-- After an `Update` that returns the runs hold the occupied positions of the row, all of them and in order,
-- `sum_len` is the sum of the row, and `sum_wei` the number of occupied positions.
pub update-partition :
    (row : Row) (b b' : NewBlock)
    → update row b ≡ some b'
    → (places_of b'.child ≡ occupied 0 row)
      × (b'.sum_len ≡ total row)
      × (b'.sum_wei ≡ length (occupied 0 row))
unfolding update set_weight
update-partition row b b' h =
    let fresh : NewBlock = record b { child = []; sum_len = pos 0; sum_wei = 0 } in
    let s = split-Sums 0 row no_child fresh (record { size = refl; none_yet = λ _. refl }) in
    let b1 : NewBlock = split 0 row no_child fresh in
    let w = weigh-Sums row b1.child (record b1 { w = pos 0; we = [] }) b' h in
    (
      w.places_eq ∙ s.places_eq,
      w.len_eq ∙ s.len_eq ∙ omega int_laws,
      w.wei_eq ∙ s.wei_eq ∙ omega arith,
    )
