-- ===== src/Mjai/Sound/Setters.antt =====
-- The setters that a message reaches keep a player sound.
use route_server.Prelude.{
  ℕ, ◌<◌, ℤ, pos, negsuc, false, ◌||◌, some, List, [], ◌∷◌, ◌>>=◌, ◌≡◌, ◌≢◌, refl, sym, ap, ◌∙◌,
  subst, inl, inr, get_elem?, set, length, All, arith, Bool-cases, Gives, Gives-bind,
  get_elem?-set_self, get_elem?-set_ne, lt-length_of_get_elem?, ◌==ℤ◌, ◌==◌, ltb_ℤ, gtb_ℤ,
  minus_one, suc,
}
use route_server.Mjai.Ai.{
  Ai, UserPublic, init_user, init_users, init, put_user, user, set_now_val, get_full_val,
  get_last_see, get_valid,
}
use route_server.Mjai.Weight.{Row}
use route_server.Mjai.Sound.{Player, Table, AllFresh, hand}
use route_server.Mjai.Sound.Rows.{Table-user, Table-set}
use route_server.Mjai.Sound.Readings.{Returns}
use route_server.Mjai.Sound.Start.{zero_rows-Counts}
use route_server.Mjai.Sound.Waits.{Steady}

hand-set :
    (us : List UserPublic) (n : ℕ) (u u' : UserPublic)
    → get_elem? us n ≡ some u
    → u'.now ≡ u.now
    → hand (set us n u') ≡ hand us
hand-set us n u u' e same = elim (Bool-cases (n == 3)) [
  | inl own ↦
      let here : n ≡ 3 = ground arith in
      let at : get_elem? us 3 ≡ some u = ap (get_elem? us) (sym here) ∙ e in
      let there : get_elem? (set us n u') 3 ≡ some u' =
        ap (get_elem? (set us n u')) (sym here)
        ∙ get_elem?-set_self us n u' (lt-length_of_get_elem? us n e) in
      rw (at, there) same
  | inr other ↦
      let apart : n ≢ 3 = λ h. absurd (ground arith) in
      let there = get_elem?-set_ne us u' apart in rw there refl
]

-- A change of a user that leaves the hand alone.
pub put_user-Steady :
    (ai : Ai) (n : ℕ) (u u' : UserPublic)
    → Steady ai
    → get_elem? ai.public n ≡ some u
    → Player u'
    → u'.now ≡ u.now
    → Steady (put_user n u' ai)
put_user-Steady ai n u u' s e p same = record {
  sound = record {
    table = Table-set ai.public n u' s.sound.table p;
    blocks = s.sound.blocks;
    logged = s.sound.logged;
  };
  fresh =
      subst (λ (rows : List Row). AllFresh rows ai.blocks) (sym (hand-set ai.public n u u' e same))
        s.fresh;
}

pub set_now_val-Steady :
    (n : ℕ) (v : ℤ) (ai : Ai) → n < 4 → Steady ai → Gives (set_now_val n v ai) Steady
unfolding set_now_val
set_now_val-Steady n v ai l s = Gives-bind (Table-user ai.public n s.sound.table l) (λ u e p.
    let u' : UserPublic = record u { now_val = v } in
    (
      put_user n u' ai,
      refl,
      put_user-Steady ai n u u' s e
          (record { now = p.now; see = p.see; down = p.down; inv = p.inv }) refl,
    ))

pub get_full_val-Steady :
    (n : ℤ) (ai : Ai) → Steady ai → Gives (get_full_val n ai) (λ r. Steady r.1)
unfolding get_full_val
get_full_val-Steady n ai s =
    Gives-bind (Table-user ai.public 3 s.sound.table (omega arith)) (λ u e p.
      elim (Bool-cases (n ==ℤ pos 0 || ai.base_val ==ℤ pos 0 || u.now_val ==ℤ pos 0)) [
        | inl zero ↦ rw zero ((pos 0, ai), refl, s)
        | inr known ↦
            let u' : UserPublic = record u { tmp_now_val = n } in
            rw known (
              _,
              refl,
              put_user-Steady ai 3 u u' s e
                  (record { now = p.now; see = p.see; down = p.down; inv = p.inv }) refl,
            )
      ])

pub get_valid-Returns : (n : ℕ) (ai : Ai) → n < 4 → Table ai.public → Returns (get_valid n ai)
unfolding get_valid
get_valid-Returns n ai l t = Gives-bind (Table-user ai.public n t l) (λ u e p. (_, refl, tt))

pub get_last_see-Returns : (ai : Ai) → Table ai.public → Returns (get_last_see ai)
unfolding get_last_see
get_last_see-Returns ai t =
    elim (Bool-cases (ltb_ℤ ai.last_public_id (pos 0) || gtb_ℤ ai.last_public_id (pos 2))) [
      | inl nobody ↦ rw nobody (minus_one, refl, tt)
      | inr player ↦ rw player (of_id ai.last_public_id player)
    ]
  where
    of_id :
        (p : ℤ)
        → (ltb_ℤ p (pos 0) || gtb_ℤ p (pos 2)) ≡ false
        → Returns (user p ai >>= (λ (u : UserPublic). some u.last_see))
    of_id (pos n) h =
        Gives-bind (Table-user ai.public n t (ground arith)) (λ u e q. (u.last_see, refl, tt))
    of_id (negsuc n) h = absurd (ground arith)

-- The users after `Init`.
init_user-Player : (u : UserPublic) → Player (init_user u)
unfolding init_user
init_user-Player u =
    let c = zero_rows-Counts in record { now = c; see = c.grid; down = c.grid; inv = inl refl }

init_users-Player : (us : List UserPublic) → All Player (init_users us)
init_users-Player [] = tt
init_users-Player (u ∷ us) = (init_user-Player u, init_users-Player us)

length-init_users : (us : List UserPublic) → length (init_users us) ≡ length us
length-init_users [] = refl
length-init_users (u ∷ us) = ap suc (length-init_users us)

pub init-Table : (ai : Ai) → length ai.public ≡ 4 → Table (init ai).public
unfolding init
init-Table ai four = record {
  four = length-init_users ai.public ∙ four;
  players = init_users-Player ai.public;
}
