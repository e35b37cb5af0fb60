-- ===== src/Mjai/Sound/Claims.antt =====
-- `SeeOuts` returns on a sound player whose blocks match the hand.
use route_server.Prelude.{
  ℕ, ◌/◌, ◌%◌, ◌<◌, ℤ, pos, pos_part, true, false, ◌||◌, List, [], ◌∷◌, refl, inl, inr, length,
  arith, Bool-cases, Gives, Gives-bind, gtb_ℤ, ltb_ℤ, ◌==◌, replicate,
}
use route_server.Mjai.Ai.{Ai}
use route_server.Mjai.Search.{inc}
use route_server.Mjai.SeeOuts.{offers, claim_win, claim_pair, claim, see_outs}
use route_server.Mjai.Sound.Rows.{now_cell-gives}
use route_server.Mjai.Sound.Readings.{check_full-Returns}
use route_server.Mjai.Sound.Waits.{
  Steady, Trying-of_Steady, settle_block, try_change, inc-count, check_jiao-returns,
}
use route_server.Mjai.Sound.Choice.{check_all_jiao-returns}

claim_win-returns :
    (i j : ℕ) (isf : ℤ) (ai : Ai)
    → i < 3
    → j < 9
    → Steady ai
    → Gives (claim_win i j isf ai) (λ r. Steady r.1)
unfolding claim_win
claim_win-returns i j isf ai l k s =
    Gives-bind (try_change inc i j ai (Trying-of_Steady i ai s) l k (λ c _ h. inc-count c h))
      (λ more e1 c1. Gives-bind (settle_block i more c1.0 l) (λ fresh e2 s2.
        Gives-bind (check_full-Returns false fresh s2.0.sound) (λ f e3 _. (_, refl, s2.0))))

claim_pair-returns :
    (i j : ℕ) (isf : ℤ) (ai : Ai)
    → i < 3
    → j < 9
    → Steady ai
    → Gives (claim_pair i j isf ai) (λ r. Steady r.1)
unfolding claim_pair
claim_pair-returns i j isf ai l k s = Gives-bind (now_cell-gives i j ai s.sound l k) (λ ns e _.
    elim (Bool-cases (ltb_ℤ ns (pos 2))) [
      | inl few ↦ rw few ((true, ai), refl, s)
      | inr pair ↦ rw pair (
          Gives-bind (check_jiao-returns isf true ai s) (λ r e1 q.
            elim (Bool-cases (length r.0 == 0)) [
              | inl missing ↦ rw missing ((true, r.1), refl, q.1)
              | inr waiting ↦ rw waiting (
                  Gives-bind
                    (try_change (λ _. pos 0) i j r.1 (Trying-of_Steady i r.1 q.1) l k
                      (λ c _ h. refl))
                    (λ ai2 e2 c2. Gives-bind (settle_block i ai2 c2.0 l) (λ ai3 e3 s3.
                      Gives-bind (check_all_jiao-returns isf ai3 s3.0) (λ p e4 s4. (_, refl, s4)))))
            ]))
    ])

claim-returns :
    (i j : ℕ) (isf : ℤ) (ks : List ℕ) (ai : Ai)
    → i < 3
    → j < 9
    → Steady ai
    → Gives (claim i j isf ks ai) (λ r. Steady r.1)
unfolding claim
claim-returns i j isf [] ai l k s = ((0, ai), refl, s)
claim-returns i j isf (c ∷ ks) ai l k s =
    let next = λ (b : Ai) (t : Steady b). claim-returns i j isf ks b l k t in
    elim (Bool-cases (c == 3)) [
      | inl three ↦ rw three (
          Gives-bind (claim_win-returns i j isf ai l k s) (λ r e q. elim (Bool-cases r.0) [
            | inl done ↦ rw done ((c, r.1), refl, q)
            | inr more ↦ rw more (next r.1 q)
          ]))
      | inr not_three ↦ elim (Bool-cases (c == 2)) [
        | inl two ↦ rw (not_three, two) ((c, ai), refl, s)
        | inr not_two ↦ elim (Bool-cases (c == 1)) [
          | inl one ↦
              rw (not_three, not_two, one)
                (Gives-bind (claim_pair-returns i j isf ai l k s) (λ r e q. elim (Bool-cases r.0) [
                  | inl done ↦ rw done ((c, r.1), refl, q)
                  | inr more ↦ rw more (next r.1 q)
                ]))
          | inr not_one ↦ elim (Bool-cases (c == 0)) [
            | inl zeroth ↦ rw (not_three, not_two, not_one, zeroth) ((0, ai), refl, s)
            | inr other ↦ rw (not_three, not_two, not_one, other) (next ai s)
          ]
        ]
      ]
    ]

-- On a sound player whose blocks match the hand `SeeOuts` returns for every discard and every list of
-- offered claims, and the player is sound and its blocks match the hand.
pub see_outs-returns :
    (v : ℤ) (key : List ℕ) (isf : ℤ) (ai : Ai)
    → Steady ai
    → Gives (see_outs v key isf ai) (λ r. Steady r.1)
unfolding see_outs
see_outs-returns v key isf ai s = elim (Bool-cases (ltb_ℤ v (pos 0) || gtb_ℤ v (pos 26))) [
  | inl no_tile ↦ rw no_tile ((0, ai), refl, s)
  | inr tile ↦ rw tile (
      claim-returns (pos_part v / 9) (pos_part v % 9) isf (offers (replicate 4 5) key) ai
        (ground arith) (omega arith) s)
]
