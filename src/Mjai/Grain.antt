-- ===== src/Mjai/Grain.antt =====
-- mjai/Ai.go, lines 10 to 69: a candidate tile with its scores, and the choice of the best one.
pub mod Laws
pub mod Best
pub mod Pick
use route_server.Prelude.{
  ℕ, zero, suc, ◌+◌, ℤ, Bool, true, false, ◌||◌, Option, none, some, List, [], ◌∷◌, ◌>>=◌,
  get_elem?, length, take, drop, ltb_ℤ, gtb_ℤ, ◌==ℤ◌, ◌==◌, leb, if◌then◌else◌,
}
use route_server.Mjai.Bubble.{bubble, sort_all}

-- `h` is the suit (-1 until it is known), `n` the number in it, `o` the scores.
pub record MjGrain : Type 0 where
  pub h : ℤ
  pub n : ℕ
  pub o : List ℤ

-- `gr.O[o]`
abbrev pub score : ℕ → MjGrain → Option ℤ
score o g = get_elem? g.o o

unfoldable pub sort_grain : List MjGrain → ℕ → ℕ → Option (List MjGrain)
unfolding bubble
sort_grain grs i o = bubble (score o) ltb_ℤ grs i

unfoldable pub sortd_grain : List MjGrain → ℕ → ℕ → Option (List MjGrain)
unfolding bubble
sortd_grain grs i o = bubble (score o) gtb_ℤ grs i

-- The loop that sets `_i`: 2 and the position in `grs[2:]` of the first other score, or 2.
unfoldable pub tie_cut : ℤ → ℕ → ℕ → List MjGrain → Option ℕ
tie_cut first o i [] = some 2
tie_cut first o i (g ∷ gs) = do
  k ← score o g
  if k ==ℤ first then tie_cut first o (i + 1) gs else some (2 + i)

abbrev pub before : Bool → ℤ → ℤ → Bool
before descending = if descending then gtb_ℤ else ltb_ℤ

-- `isd` is the tail of the argument `isd` of the code from position `o`: it is empty when
-- `o >= len(isd)`. An empty slice panics at `grs[0]`.
unfoldable pub sort_grain_arrs : List Bool → List MjGrain → ℕ → Option MjGrain
unfolding sort_all tie_cut
sort_grain_arrs [] grs o = get_elem? grs 0
sort_grain_arrs (descending ∷ isd) grs o = do
  head ← get_elem? grs 0
  if leb (length head.o) o || length grs == 1 then some head else (do
    sorted ← sort_all (score o) (before descending) grs
    first ← get_elem? sorted 0
    best ← score o first
    second ← get_elem? sorted 1
    next ← score o second
    if best ==ℤ next
        then (do
          cut ← tie_cut best o 0 (drop 2 sorted)
          sort_grain_arrs isd (take cut sorted) (suc o))
        else some first)
