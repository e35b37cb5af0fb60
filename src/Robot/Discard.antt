-- ===== src/Robot/Discard.antt =====
-- Methods 4 and 6 of robot/SCMJ.go: the choice of a discard returns.
use mathlib.Core.Option.{some-injective}
use route_server.Prelude.{
  ℕ, ◌/◌, ◌%◌, ◌<◌, ◌≤◌, ℤ, pos, Bool, true, ◌||◌, some, List, ◌≡◌, refl, sym, ap, ◌∙◌, inl, inr,
  get_elem?, length, drop, arith, Bool-cases, Gives, ◌==ℤ◌, leb, get_elem?-set_self,
  lt-length_of_get_elem?,
}
use route_server.Comm.{byte_to_int}
use route_server.Mjai.Ai.{Ai, UserPublic, cell, get_full_val, get_valid}
use route_server.Mjai.Sound.Rows.{Table-user}
use route_server.Mjai.Sound.Waits.{Steady}
use route_server.Mjai.Sound.Choice.{InHand}
use route_server.Mjai.Sound.Shows.{Spare}
use route_server.Mjai.Sound.Deal.{Discarding, init_now-Discarding, init_now-Spare}
use route_server.Mjai.Sound.Discards.{outs-Steady}
use route_server.Mjai.Sound.Setters.{get_full_val-Steady}
use route_server.Robot.Scmj.{slice_to, slice_from, full_val_from, choose_out}

pub full_val_from-Steady :
    (n : ℕ) (b : List ℕ) (ai : Ai)
    → n ≤ length b
    → Steady ai
    → Gives (full_val_from n b ai) (λ r. Steady r.1)
unfolding full_val_from slice_from
full_val_from-Steady n b ai long s =
    let enough : leb n (length b) ≡ true = ground arith in
    rw enough (get_full_val-Steady (byte_to_int (drop n b)) ai s)

-- The list has the tile `t`.
pub record Holds (str : List ℕ) (t : ℕ) : Type 0 where
  pub place : ℕ
  pub there : get_elem? str place ≡ some t
  pub tile : t < 27

-- Nothing of tile `t` is on the table before the player.
abbrev pub Bare : ℕ → Ai → Type 0
Bare t ai =
    (u : UserPublic) × (get_elem? ai.public 3 ≡ some u)
    × (cell u.down (t / 9) (t % 9) ≡ some (pos 0))

-- A player to discard, which if it may show a tile has one of which nothing is on the table.
record Fit (no30 : Bool) (t : ℕ) (ai : Ai) : Type 0 where
  discarding : Discarding t ai
  spare : no30 ≡ true → Spare (t / 9) (t % 9) ai

-- The score is noted beside the hand.
get_full_val-user :
    (n : ℤ) (ai : Ai) (r : ℤ × Ai) (u : UserPublic)
    → get_elem? ai.public 3 ≡ some u
    → get_full_val n ai ≡ some r
    → Gives (get_elem? r.1.public 3) (λ v. (v.now ≡ u.now) × (v.down ≡ u.down) × (v.inv ≡ u.inv))
unfolding get_full_val
get_full_val-user n ai r u e h =
    let step = rw e at h in
    elim (Bool-cases (n ==ℤ pos 0 || ai.base_val ==ℤ pos 0 || u.now_val ==ℤ pos 0)) [
      | inl zero ↦ (
        u,
        ap (λ (p : ℤ × Ai). get_elem? p.1.public 3) (sym (some-injective _ _ (rw zero at step)))
            ∙ e,
        (refl, refl, refl),
      )
      | inr known ↦
          let u' : UserPublic = record u { tmp_now_val = n } in
          (
            u',
            ap (λ (p : ℤ × Ai). get_elem? p.1.public 3)
                  (sym (some-injective _ _ (rw known at step)))
                ∙ get_elem?-set_self ai.public 3 u' (lt-length_of_get_elem? ai.public 3 e),
            (refl, refl, refl),
          )
    ]

get_full_val-Fit :
    (n : ℤ) (no30 : Bool) (t : ℕ) (ai : Ai) (r : ℤ × Ai)
    → Steady ai
    → Fit no30 t ai
    → get_full_val n ai ≡ some r
    → Fit no30 t r.1
unfolding get_valid
get_full_val-Fit n no30 t ai r s f h =
    let d = f.discarding in
    let (u, e, p) = Table-user ai.public 3 s.sound.table (omega arith) in
    let (v, e1, (now_eq, down_eq, inv_eq)) = get_full_val-user n ai r u e h in
    let (c, at) = d.held in
    let held : InHand (t / 9) (t % 9) r.1 =
      (c, rw e1 (ap (λ rows. cell rows (t / 9) (t % 9)) now_eq ∙ (rw e at at))) in
    record {
      discarding = record {
        unwanted = d.unwanted;
        low = d.low;
        given = rw e1 (ap some inv_eq ∙ (let g = d.given in rw e at g));
        held = held;
      };
      spare = λ show.
          let (w, e2, bare) = (f.spare show).bare in
          let same : w ≡ u = some-injective _ _ (sym e2 ∙ e) in
          record {
            held = held;
            bare = (
              v,
              e1,
              (λ z. cell ((down_eq ∙ sym (ap (λ (x : UserPublic). x.down) same)) z) (t / 9) (t % 9))
                  ∙ bare,
            );
          };
    }

-- With a message of at least 14 bytes whose hand has a tile of the suits, of which, if the player may
-- show one (method 4), nothing is on the table before it, the choice of a discard returns on a sound
-- player whose blocks match the hand; so they do again.
pub choose_out-Steady :
    (no30 : Bool) (b : List ℕ) (t : ℕ) (ai : Ai)
    → 14 ≤ length b
    → Holds (slice_to 14 b) t
    → (no30 ≡ true → Bare t ai)
    → Steady ai
    → Gives (choose_out no30 b ai) (λ r. Steady r.1)
unfolding choose_out full_val_from slice_from
choose_out-Steady no30 b t ai long h bare s =
    let str : List ℕ = slice_to 14 b in
    let enough : leb 14 (length b) ≡ true = ground arith in
    let (ai1, e1, (s1, d1)) =
      init_now-Discarding str h.place t ai (inr s.sound.blocks) s.sound.table s.sound.logged h.there
        h.tile in
    let f1 : Fit no30 t ai1 = record {
      discarding = d1;
      spare = λ show. let (u, e, k) = bare show in init_now-Spare str t ai ai1 u e e1 k d1.held;
    } in
    let n : ℤ = byte_to_int (drop 14 b) in
    let (r, e2, s2) = get_full_val-Steady n ai1 s1 in
    let f2 = get_full_val-Fit n no30 t ai1 r s1 f1 e2 in
    let d = f2.discarding in
    let suit_low : t / 9 < 3 = let l = h.tile in omega arith in
    let (out, e3, s3) =
      outs-Steady r.0 no30 d.unwanted (t / 9) (t % 9) r.1 s2 d.given d.low suit_low d.held
        f2.spare in
    rw (e1, enough, e2, e3) (_, refl, s3)
