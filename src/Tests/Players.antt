-- ===== src/Tests/Players.antt =====
-- A player of mjai for the tests.
use route_server.Prelude.{ℕ, Option, none, some, List, [], ◌∷◌, refl, inl, sym, ap, subst}
use route_server.Mjai.Sound.{Player, Table}
use route_server.Mjai.Sound.Waits.{Steady}
use route_server.Mjai.Sound.Start.{zero_rows-Counts, init_now-Steady}
use route_server.Mjai.Ai.{Ai, new_user, new_ai, init_user, init, init_now}

abbrev pub or_else {ℓ} : {A : Type ℓ} → A → Option A → A
or_else a none = a
or_else a (some b) = b

-- One tile of the first suit, six of the second and seven of the third.
abbrev pub hand : List ℕ
hand = 0 ∷ 9 ∷ 10 ∷ 11 ∷ 12 ∷ 13 ∷ 14 ∷ 18 ∷ 19 ∷ 20 ∷ 21 ∷ 22 ∷ 23 ∷ 24 ∷ []

unfoldable pub dealt : Option Ai
unfolding init init_now
dealt = init_now hand (init new_ai)

unfoldable pub player : Ai
unfolding dealt
player = or_else new_ai dealt

empty_user : Player (init_user new_user)
unfolding init_user
empty_user =
    let c = zero_rows-Counts in record { now = c; see = c.grid; down = c.grid; inv = inl refl }

pub empty-Table : Table (init new_ai).public
unfolding init
empty-Table = record {
  four = refl;
  players = (empty_user, (empty_user, (empty_user, (empty_user, tt))));
}

pub player-Steady : Steady player
unfolding dealt player
player-Steady =
    let (ai, e, s) = init_now-Steady hand (init new_ai) (inl refl) empty-Table tt in
    subst Steady (sym (ap (or_else new_ai) e)) s
