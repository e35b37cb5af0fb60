-- ===== src/Tests.antt =====
-- Runs of the models on concrete inputs, and each theorem at an input that meets its hypotheses.
mod Table
mod Services
mod Calls
mod Games
mod Play
mod Gateway
mod Players
use Players.{or_else, player}
use mathlib.Core.List.{Mem}
use route_server.Prelude.{
  ℕ, suc, ◌+◌, ◌-◌, ◌*◌, ◌<◌, ◌≤◌, ℤ, pos, ◌-ℤ◌, ◌+ℤ◌, Bool, true, false, Option, none, some, List,
  [], ◌∷◌, ◌++◌, ◌≡◌, refl, ◌>>=◌, arith, All, length, if◌then◌else◌, ◌==◌, ◌↔◌, ◌⊎◌, inl, inr,
}
use route_server.Comm.Bytes.{little_endian, byte_to_int-little_endian}
use route_server.Comm.{byte_to_int, string_ip_to_int, ip_int_to_string}
use route_server.Comm.Address.{string_ip_to_int-ip_int_to_string}
use route_server.Mjai.Grain.{MjGrain, sort_grain_arrs, before}
use route_server.Mjai.Grain.Laws.{key}
use route_server.Mjai.Grain.Best.{sort_grain_arrs_best, sort_grain_arrs-tied}
use route_server.Mjai.Weight.{get_weight_val}
use route_server.Mjai.Weight.Ends.{get_weight_val-ends}
use route_server.Mjai.NewBlock
use route_server.Mjai.NewBlock.{NewBlock, new_block, update, sort_new_block}
use route_server.Mjai.NewBlock.Runs.{places_of, update-partition}
use route_server.Mjai.NewBlock.Ends.{update-ends}
use route_server.Mjai.Block
use route_server.Mjai.Block.Agree.{Agree, init-Agree}
use route_server.Mjai.Ai.{find_block, get_valid}
use route_server.Mjai.Full.{check_full}
use route_server.Mjai.Search.{check_jiao, check_all_jiao}
use route_server.Mjai.Search.Restore.{check_jiao-public, check_all_jiao-public}
use route_server.Mjai.Outs.{outs, out_discard}
use route_server.Mjai.Outs.Count.{out_discard-length}
use route_server.Mjai.SeeOuts.{see_outs}
use route_server.Mjai.SeeOuts.Offered.{offered, see_outs-offered, see_outs-four}

-- The scores of three candidates, two of them tied in the first.
abbrev candidates : List MjGrain
candidates =
    record { h = pos 0; n = 1; o = pos 2 ∷ pos 5 ∷ [] }
    ∷ record { h = pos 0; n = 2; o = pos 7 ∷ pos 1 ∷ [] }
    ∷ record { h = pos 1; n = 3; o = pos 7 ∷ pos 4 ∷ [] }
    ∷ []

sort_grain_arrs_best_example :
    (r : MjGrain) × (sort_grain_arrs (true ∷ false ∷ []) candidates 0 ≡ some r)
    × Mem r candidates
    × All (λ g. before true (key 0 g) (key 0 r) ≡ false) candidates
sort_grain_arrs_best_example =
    sort_grain_arrs_best true (false ∷ []) candidates 0 2 (omega arith) (omega arith)
      (refl, (refl, (refl, tt)))

-- Three candidates with one first score: the third has the least second score.
abbrev tied : List MjGrain
tied =
    record { h = pos 0; n = 1; o = pos 7 ∷ pos 5 ∷ [] }
    ∷ record { h = pos 0; n = 2; o = pos 7 ∷ pos 4 ∷ [] }
    ∷ record { h = pos 1; n = 3; o = pos 7 ∷ pos 1 ∷ [] }
    ∷ []

sort_grain_arrs-tied_example :
    sort_grain_arrs (true ∷ false ∷ []) tied 0
    ≡ sort_grain_arrs
        (false ∷ [])
        (record { h = pos 0; n = 1; o = pos 7 ∷ pos 5 ∷ [] }
          ∷ record { h = pos 0; n = 2; o = pos 7 ∷ pos 4 ∷ [] }
          ∷ [])
        1
sort_grain_arrs-tied_example =
    sort_grain_arrs-tied true (false ∷ []) (record { h = pos 0; n = 1; o = pos 7 ∷ pos 5 ∷ [] })
      (record { h = pos 0; n = 2; o = pos 7 ∷ pos 4 ∷ [] })
      (record { h = pos 1; n = 3; o = pos 7 ∷ pos 1 ∷ [] } ∷ []) 0 2 (pos 7) (omega arith)
      (refl, (refl, (refl, tt))) (refl, (refl, (refl, tt)))

-- One suit: a run of three, and a pair.
abbrev cells : List ℤ
cells = pos 1 ∷ pos 2 ∷ pos 1 ∷ pos 0 ∷ pos 0 ∷ pos 2 ∷ pos 0 ∷ pos 0 ∷ pos 0 ∷ []

get_weight_val-ends_example :
    (r : ℤ × List MjGrain) × (get_weight_val cells (0 ∷ 1 ∷ 2 ∷ []) ≡ some r)
get_weight_val-ends_example = get_weight_val-ends cells (0 ∷ 1 ∷ 2 ∷ []) (record {
  held = ((0, refl), ((1, refl), ((0, refl), tt)));
  distinct = (
    (λ h. absurd (omega arith), (λ h. absurd (omega arith), tt)),
    ((λ h. absurd (omega arith), tt), (tt, tt)),
  );
})

update-ends_example : (b : NewBlock) × (update cells (new_block 1) ≡ some b)
update-ends_example =
    update-ends cells (new_block 1)
      (refl, (refl, (refl, (refl, (refl, (refl, (refl, (refl, (refl, tt)))))))))

abbrev updated : NewBlock
updated = or_else (new_block 1) (update cells (new_block 1))

update-partition_example :
    (places_of updated.child ≡ 0 ∷ 1 ∷ 2 ∷ 5 ∷ [])
    × (updated.sum_len ≡ pos 6)
    × (updated.sum_wei ≡ 4)
unfolding update get_weight_val ◌-ℤ◌ ◌+ℤ◌
update-partition_example = update-partition cells (new_block 1) updated refl

string_ip_to_int-ip_int_to_string_example :
    string_ip_to_int (ip_int_to_string 2130706433) ≡ 2130706433
string_ip_to_int-ip_int_to_string_example =
    string_ip_to_int-ip_int_to_string 2130706433 (omega arith)

see_outs-offered_example : (◌≡◌ {A = ℕ} 2 0) ⊎ ((2 ≤ 3) × (offered 2 (2 ∷ []) ≡ true))
unfolding see_outs
see_outs-offered_example = see_outs-offered (pos 3) (2 ∷ []) (pos 0) player 2 player refl

byte_to_int-little_endian_example : byte_to_int (little_endian 2 258) ≡ pos 258
byte_to_int-little_endian_example = byte_to_int-little_endian 2 258 (omega arith) (omega arith)

init-Agree_example :
    (b : Block.Block) × (Block.init cells 1 ≡ some b)
    × Agree b (or_else (new_block 1) (NewBlock.init cells 1))
unfolding NewBlock.init get_weight_val ◌-ℤ◌ ◌+ℤ◌
init-Agree_example = init-Agree cells 1 (or_else (new_block 1) (NewBlock.init cells 1)) refl
