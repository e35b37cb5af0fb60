-- ===== src/Scann/Ports/Lines.antt =====
-- What a client reads back of the list of ports.
use mathlib.Core.List.{append-nil, append_assoc}
use route_server.Prelude.{
  ℕ, zero, suc, ◌+◌, ◌/◌, ◌%◌, true, false, List, [], ◌∷◌, ◌++◌, ◌==◌, ltb, ◌≡◌, refl, sym, ap, ◌∙◌,
  arith, All, inl, inr, Bool-cases,
}
use route_server.Proxy.Info.{decimal}
use route_server.Scann.Ports.{port_text, split_at}

-- The texts of the ports.
abbrev pub port_lines : List ℕ → List (List ℕ)
port_lines [] = [] ∷ [] ∷ []
port_lines (p ∷ ports) = decimal 20 p [] ∷ port_lines ports

abbrev OtherThan : ℕ → ℕ → Type 0
OtherThan sep c = (c == sep) ≡ false

decimal-OtherThan :
    (fuel n : ℕ) (acc : List ℕ) → All (OtherThan 10) acc → All (OtherThan 10) (decimal fuel n acc)
unfolding decimal
decimal-OtherThan zero n acc h = h
decimal-OtherThan (suc fuel) n acc h = elim (Bool-cases (ltb n 10)) [
  | inl last ↦ rw last (ground arith, h)
  | inr more ↦ rw more (decimal-OtherThan fuel (n / 10) ((48 + n % 10) ∷ acc) (ground arith, h))
]

split_at-segment :
    (sep : ℕ) (seg s rest : List ℕ)
    → All (OtherThan sep) s
    → split_at sep seg (s ++ sep ∷ rest) ≡ (seg ++ s) ∷ split_at sep [] rest
unfolding split_at
split_at-segment sep seg [] rest h =
    let here : (sep == sep) ≡ true = ground arith in rw (here, append-nil seg)
split_at-segment sep seg (c ∷ s) rest (other, h) =
    rw (other, sym (append_assoc seg (c ∷ []) s)) (split_at-segment sep (seg ++ c ∷ []) s rest h)

-- Split into lines, the text of `GetScannPort` gives the number of each port, in the order of the
-- table, and the empty line.
pub split_at-port_text : (ports : List ℕ) → split_at 10 [] (port_text ports) ≡ port_lines ports
unfolding port_text split_at
split_at-port_text [] = refl
split_at-port_text (p ∷ ports) =
    split_at-segment 10 [] (decimal 20 p []) (port_text ports) (decimal-OtherThan 20 p [] tt)
    ∙ ap (λ t. decimal 20 p [] ∷ t) (split_at-port_text ports)
