-- ===== src/Mjai/Bubble.antt =====
-- The sorting scheme of mjai/Ai.go and mjai/NewBlock.go: a pass carries entry i towards the front
-- by swaps of neighbours, and a sort makes a pass for each i in turn. `key` is what the code
-- compares (`none`: reading it panics), `lt` the strict order that makes it swap.
pub mod Laws
pub mod Pass
use route_server.Prelude.{
  ℕ, zero, suc, ℤ, Bool, Option, none, some, List, ◌>>=◌, get_elem?, set, length, if◌then◌else◌,
}

module _ {A : Type 0} (key : A → Option ℤ) (lt : ℤ → ℤ → Bool) where
  unfoldable pub bubble : List A → ℕ → Option (List A)
  bubble xs zero = some xs
  bubble xs (suc i) = do
    x ← get_elem? xs (suc i)
    k ← key x
    y ← get_elem? xs i
    l ← key y
    bubble (if lt k l then set (set xs (suc i) y) i x else xs) i

  -- `for i, _ := range xs { pass(xs, i) }`, with the number of rounds left.
  unfoldable pub rounds : ℕ → ℕ → List A → Option (List A)
  unfolding bubble
  rounds zero i xs = some xs
  rounds (suc r) i xs = do ys ← bubble xs i; rounds r (suc i) ys

  unfoldable pub sort_all : List A → Option (List A)
  unfolding rounds
  sort_all xs = rounds (length xs) 0 xs
