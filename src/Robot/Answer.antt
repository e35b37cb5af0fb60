-- ===== src/Robot/Answer.antt =====
-- How robot/Server.go answers: the users' keys, the remembered replies, and the clearing of users.
use route_server.Prelude.{
  ℕ, zero, suc, ◌+◌, ◌*◌, ◌≤◌, ◌<◌, ℤ, pos, ◌-ℤ◌, wrap64, gtb_ℤ, Bool, true, Option, none, some,
  List, [], ◌∷◌, ◌≡◌, ◌≢◌, ◌↔◌, refl, ap, ◌∙◌, inl, inr, ◌==◌, if◌then◌else◌, arith, Bool-cases,
  Option-cases, >>=-eq-some,
}
use mathlib.Core.Option.{some-injective}
use mathlib.Core.Path.{subst₂}
use native.Mathlib.Decide.{ℕ_discrete}
use route_server.Robot.{
  UserBase, Server, lookup, insert, touch, keep_user, new_user, comp_byte, free_key, get_host,
  has_method, call_method, answer, get_recv_data, clear_users,
}

-- `compByte` decides equality of two byte slices.
pub comp_byte_iff : (a b : List ℕ) → (comp_byte a b ≡ true) ↔ (a ≡ b)
unfolding comp_byte
comp_byte_iff [] [] = (λ _. refl, λ _. refl)
comp_byte_iff [] (b ∷ bs) = (λ h. cc, λ h. cc)
comp_byte_iff (a ∷ xs) [] = (λ h. cc, λ h. cc)
comp_byte_iff (a ∷ xs) (b ∷ bs) =
    (λ h. ground (arith, (comp_byte_iff xs bs).0), λ h. ground (arith, (comp_byte_iff xs bs).1))

lookup-insert :
    (k j : ℕ) (u : UserBase) (m : List (ℕ × UserBase))
    → lookup j (insert k u m) ≡ (if k == j then some u else lookup j m)
lookup-insert k j u [] = refl
lookup-insert k j u ((i, v) ∷ m) = ground (arith, lookup-insert k j u m)

lookup-insert_self :
    (k : ℕ) (u : UserBase) (m : List (ℕ × UserBase)) → lookup k (insert k u m) ≡ some u
lookup-insert_self k u m = ground (arith, lookup-insert k k u m)

-- The user of `key`, with the time noted.
pub get_host-known :
    (key host : ℕ) (now : ℤ) (srv : Server) (u : UserBase)
    → lookup key srv.host_map ≡ some u
    → get_host key host now srv ≡ some (keep_user key (touch now u) srv)
unfolding get_host
get_host-known key host now srv u h = rw (h, get_host)

abbrev pub FirstFree : ℕ → ℕ → List (ℕ × UserBase) → ℕ → Type 0
FirstFree n i m k =
    (lookup k m ≡ none) × (i ≤ k) × (k < i + n) × ((j : ℕ) → i ≤ j → j < k → lookup j m ≢ none)

free_key-FirstFree :
    (n i : ℕ) (m : List (ℕ × UserBase)) (j : ℕ)
    → i ≤ j
    → j < i + n
    → lookup j m ≡ none
    → (k : ℕ) × (free_key n i m ≡ some k) × FirstFree n i m k
unfolding free_key
free_key-FirstFree zero i m j lo hi e = absurd (omega arith)
free_key-FirstFree (suc n) i m j lo hi e = elim (Option-cases (lookup i m)) [
  | inl free ↦
      (i, rw (free, free_key), (free, omega arith, omega arith, λ l a b. absurd (omega arith)))
  | inr (u, taken) ↦
      let ne : i ≢ j = λ same. cc in
      let (k, found, (free, a, b, below)) =
        free_key-FirstFree n (i + 1) m j (omega arith) (omega arith) e in
      (
        k,
        rw (taken, free_key) found,
        (free, omega arith, omega arith, λ l c d. earlier u taken k below l c d),
      )
]
  where
    earlier :
        (u : UserBase)
        → lookup i m ≡ some u
        → (k : ℕ) → ((l : ℕ) → i + 1 ≤ l → l < k → lookup l m ≢ none)
        → (l : ℕ) → i ≤ l
        → l < k
        → lookup l m ≢ none
    earlier u taken k below l c d = elim (ℕ_discrete i l) [
      | yes same ↦ λ h. cc
      | no other ↦ below l (omega arith) d
    ]

-- `GetHost` of a key that is not in use: while some key below 255 is free, a user of its own is made
-- under the first free key, and every other key keeps its user.
pub get_host-new :
    (key host : ℕ) (now : ℤ) (srv : Server) (j : ℕ)
    → lookup key srv.host_map ≡ none
    → j < 255
    → lookup j srv.host_map ≡ none
    → (k : ℕ) × (get_host key host now srv ≡ some (keep_user k (touch now (new_user host)) srv))
      × FirstFree 255 0 srv.host_map k
      × ((l : ℕ)
          → lookup l (insert k (touch now (new_user host)) srv.host_map)
            ≡ (if k == l then some (touch now (new_user host)) else lookup l srv.host_map))
unfolding get_host
get_host-new key host now srv j unknown low free =
    let (k, found, first) = free_key-FirstFree 255 0 srv.host_map j (omega arith) low free in
    (k, rw (unknown, found, get_host), first, λ l. lookup-insert k l _ srv.host_map)

free_key-none :
    (n i : ℕ) (m : List (ℕ × UserBase))
    → ((j : ℕ) → i ≤ j → j < i + n → lookup j m ≢ none)
    → free_key n i m ≡ none
unfolding free_key
free_key-none zero i m h = refl
free_key-none (suc n) i m h = elim (Option-cases (lookup i m)) [
  | inl free ↦ absurd (h i (omega arith) (omega arith) free)
  | inr (u, taken) ↦
      rw (taken, free_key) (free_key-none n (i + 1) m (λ j lo hi. h j (omega arith) (omega arith)))
]

-- With all 255 keys in use, a datagram under another key stops the process: the user is nil.
pub get_host-full :
    (key host : ℕ) (now : ℤ) (srv : Server)
    → lookup key srv.host_map ≡ none
    → ((j : ℕ) → j < 255 → lookup j srv.host_map ≢ none)
    → get_host key host now srv ≡ none
unfolding get_host
get_host-full key host now srv unknown taken =
    rw (unknown, free_key-none 255 0 srv.host_map (λ j lo hi. taken j (omega arith)), get_host)

call_method-keeps :
    (ke : ℕ) (b : List ℕ) (u : UserBase) (srv : Server)
    → (reply : List ℕ) (u' : UserBase) (srv' : Server)
    → call_method ke b u srv ≡ some (reply, u', srv')
    → (u'.last_db ≡ u.last_db) × (srv'.host_map ≡ srv.host_map)
unfolding call_method
call_method-keeps ke b u srv reply u' srv' h = ground arith

-- A datagram whose payload is the one that its user sent last is answered from memory, whatever its
-- method: no method runs, and of the state only the user's time changes.
pub get_recv_data-remembered :
    (key hi lo host : ℕ) (b : List ℕ) (now : ℤ) (srv : Server) (u : UserBase)
    → has_method (hi * 256 + lo) ≡ true
    → lookup key srv.host_map ≡ some u
    → u.last_db ≡ b
    → get_recv_data (key ∷ hi ∷ lo ∷ b) host now srv
      ≡ some (
        some (key ∷ u.last_reply),
        record srv { host_map = insert key (touch now u) srv.host_map },
      )
unfolding get_recv_data
get_recv_data-remembered key hi lo host b now srv u m known same =
    rw (m, get_host-known key host now srv u known, (comp_byte_iff u.last_db b).1 same)

-- The state after a datagram with payload `b` that a method answered with `r`, for user `k`.
record Answered (b r : List ℕ) (k : ℕ) (srv : Server) : Type 0 where
  user : UserBase
  known : lookup k srv.host_map ≡ some user
  payload : user.last_db ≡ b
  reply : user.last_reply ≡ r

abbrev head_or : List ℕ → ℕ
head_or [] = 0
head_or (x ∷ xs) = x

abbrev tail_of : List ℕ → List ℕ
tail_of [] = []
tail_of (x ∷ xs) = xs

Answered-of_reply :
    (b : List ℕ) (u : UserBase) (k : ℕ) (srv : Server) (k' : ℕ) (r : List ℕ) (srv' : Server)
    → u.last_db ≡ b
    → lookup k srv.host_map ≡ some u
    → ◌≡◌ {A = Option (Option (List ℕ) × Server)}
        (some (some (k ∷ u.last_reply), srv))
        (some (some (k' ∷ r), srv'))
    → Answered b r k' srv'
Answered-of_reply b u k srv k' r srv' same known h =
    let e = some-injective _ _ h in
    let ek : k ∷ u.last_reply ≡ k' ∷ r = some-injective _ _ (ap (λ p. p.0) e) in
    let es : srv ≡ srv' = ap (λ p. p.1) e in
    record {
      user = u;
      known = subst₂ (λ n (s : Server). lookup n s.host_map ≡ some u) (ap head_or ek) es known;
      payload = same;
      reply = ap tail_of ek;
    }

answer-Answered :
    (ke : ℕ) (b : List ℕ) (u : UserBase) (k : ℕ) (srv : Server) (k' : ℕ) (r : List ℕ)
    (srv' : Server)
    → lookup k srv.host_map ≡ some u
    → answer ke b u k srv ≡ some (some (k' ∷ r), srv')
    → Answered b r k' srv'
unfolding answer
answer-Answered ke b u k srv k' r srv' known h = elim (Bool-cases (comp_byte u.last_db b)) [
  | inl same ↦
      Answered-of_reply b u k srv k' r srv' ((comp_byte_iff u.last_db b).0 same) known
        (rw same at h)
  | inr other ↦
      let ((reply, u1, srv1), called, e) =
        >>=-eq-some (call_method ke b (record u { last_db = b }) srv) _ (rw other at h) in
      let kept = call_method-keeps ke b _ srv reply u1 srv1 called in
      Answered-of_reply b (record u1 { last_reply = reply }) k _ k' r srv' kept.0
        (lookup-insert_self k _ srv1.host_map) e
]

keep_user-lookup :
    (k : ℕ) (u : UserBase) (srv : Server) (p : UserBase × ℕ × Server)
    → some (keep_user k u srv) ≡ some p
    → lookup p.1 p.2.host_map ≡ some p.0
keep_user-lookup k u srv p e = rw (← some-injective _ _ e) (lookup-insert_self k u srv.host_map)

get_host-lookup :
    (key host : ℕ) (now : ℤ) (srv : Server) (u : UserBase) (k : ℕ) (srv' : Server)
    → get_host key host now srv ≡ some (u, k, srv')
    → lookup k srv'.host_map ≡ some u
unfolding get_host
get_host-lookup key host now srv u k srv' h = elim (Option-cases (lookup key srv.host_map)) [
  | inl new ↦
      let (i, free, e) = >>=-eq-some (free_key 255 0 srv.host_map) _ (rw (new, get_host) at h) in
      keep_user-lookup i (touch now (new_user host)) srv (u, k, srv') e
  | inr (v, known) ↦ keep_user-lookup key (touch now v) srv (u, k, srv') (rw (known, get_host) at h)
]

-- After a datagram that a method answered, any datagram of that user with the same payload gets the
-- same reply, whatever its method, and of the state only the user's time changes.
pub get_recv_data-repeated :
    (key hi lo host : ℕ) (b : List ℕ) (now : ℤ) (srv : Server) (k : ℕ) (r : List ℕ) (srv' : Server)
    → has_method (hi * 256 + lo) ≡ true
    → get_recv_data (key ∷ hi ∷ lo ∷ b) host now srv ≡ some (some (k ∷ r), srv')
    → (hi' lo' host' : ℕ) (now' : ℤ) → has_method (hi' * 256 + lo') ≡ true
    → (u : UserBase) × (lookup k srv'.host_map ≡ some u)
      × (get_recv_data (k ∷ hi' ∷ lo' ∷ b) host' now' srv'
          ≡ some (some (k ∷ r), record srv' { host_map = insert k (touch now' u) srv'.host_map }))
unfolding get_recv_data
get_recv_data-repeated key hi lo host b now srv k r srv' m h hi' lo' host' now' m' =
    let ((u, k1, srv1), found, e) = >>=-eq-some (get_host key host now srv) _ (rw m at h) in
    let a =
      answer-Answered (hi * 256 + lo) b u k1 srv1 k r srv'
        (get_host-lookup key host now srv u k1 srv1 found) e in
    (
      a.user,
      a.known,
      get_recv_data-remembered k hi' lo' host' b now' srv' a.user m' a.known a.payload ∙ rw a.reply,
    )

-- No two entries of a map have one key.
abbrev Distinct : List (ℕ × UserBase) → Type 0
Distinct [] = Unit
Distinct ((k, u) ∷ m) = (lookup k m ≡ none) × Distinct m

abbrev is_idle : ℤ → UserBase → Bool
is_idle now u = gtb_ℤ (wrap64 (now -ℤ u.begin_time)) (pos 600)

abbrev pub unless_idle : ℤ → Option UserBase → Option UserBase
unless_idle now none = none
unless_idle now (some u) = if is_idle now u then none else some u

-- Of a map without double keys a round of `ClearServer` takes away the users that are idle for more
-- than 600 seconds, and keeps every other key's user.
pub lookup-clear_users :
    (now : ℤ) (m : List (ℕ × UserBase)) (k : ℕ)
    → Distinct m
    → lookup k (clear_users now m) ≡ unless_idle now (lookup k m)
unfolding clear_users
lookup-clear_users now [] k d = refl
lookup-clear_users now ((j, u) ∷ m) k d = ground (arith, lookup-clear_users now m k d.1)
