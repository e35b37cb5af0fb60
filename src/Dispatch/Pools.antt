-- ===== src/Dispatch/Pools.antt =====
-- The pools that main.go sets up for its clients.
use mathlib.Core.Option.{some-injective}
use route_server.Prelude.{
  ℕ, false, ◌≡◌, refl, sym, Option, none, some, List, [], ◌∷◌, ◌++◌, ◌==◌, inl, inr, ◌≢◌, subst,
  Option-cases, Bool-cases,
}
use route_server.Comm.{string_ip_to_int}
use route_server.Proxy.Info.{ProxyInfo, Db, get_proxy_list}
use route_server.Proxy.Pool.{loaded, load_proxy_list}
use route_server.Dispatch.{PoolMap, find_pool, being_used, admit}

-- No pool is empty.
abbrev pub Filled : PoolMap → Type 0
Filled [] = Unit
Filled ((j, ps) ∷ m) = (ps ≢ []) × Filled m

being_used-Filled :
    (m : PoolMap)
    → Filled m
    → (used : List ProxyInfo) × (being_used m ≡ some used) × ((m ≢ []) → used ≢ [])
unfolding being_used
being_used-Filled [] f = ([], refl, λ some_pool. absurd (some_pool refl))
being_used-Filled ((j, []) ∷ m) f = absurd (f.0 refl)
being_used-Filled ((j, p ∷ ps) ∷ m) f =
    let (used, e, rest) = being_used-Filled m f.1 in rw e (p ∷ used, refl, λ h k. cc)

append-filled : (used rest : List ProxyInfo) → used ≢ [] → used ++ rest ≢ []
append-filled [] rest h = absurd (h refl)
append-filled (p ∷ used) rest h = λ k. cc

load_proxy_list-filled :
    {S : Type 0} (db : Db S) (used list : List ProxyInfo) (s s' : S)
    → get_proxy_list db false s ≡ (some list, s')
    → used ≢ []
    → (load_proxy_list db used [] s).0 ≢ []
unfolding load_proxy_list
load_proxy_list-filled {S} db used list s s' table h =
    subst (λ (r : Option (List ProxyInfo) × S). (loaded used [] r).0 ≢ []) (sym table)
      (append-filled used _ h)

-- While there are pools and none is empty, and the table can be read, a client is admitted, and no
-- pool is empty then.
pub admit-Filled :
    {S : Type 0} (db : Db S) (host : List ℕ) (pools : PoolMap) (list : List ProxyInfo) (s s' : S)
    → get_proxy_list db false s ≡ (some list, s')
    → pools ≢ []
    → Filled pools
    → (pools' : PoolMap) × (t : S) × (admit db host pools s ≡ some (pools', t)) × Filled pools'
unfolding admit
admit-Filled db host pools list s s' table some_pool f =
    elim (Option-cases (find_pool (string_ip_to_int host) pools)) [
      | inr (ps, known) ↦ rw (known, admit) (pools, s, refl, f)
      | inl new ↦
          let (used, e, filled) = being_used-Filled pools f in
          rw (new, admit, e)
            (_, _, refl, (load_proxy_list-filled db used list s s' table (filled some_pool), f))
    ]

being_used-none : (k : ℕ) (m : PoolMap) → find_pool k m ≡ some [] → being_used m ≡ none
unfolding being_used
being_used-none k [] h = cc
being_used-none k ((j, []) ∷ m) h = refl
being_used-none k ((j, p ∷ ps) ∷ m) h = elim (Bool-cases (j == k)) [
  | inl here ↦ absurd (cons_not_nil p ps (some-injective _ _ (rw here at h)))
  | inr later ↦ rw (being_used-none k m (rw later at h))
]
  where
    cons_not_nil : (p : ProxyInfo) (ps : List ProxyInfo) → p ∷ ps ≢ []
    cons_not_nil p ps e = cc

-- While the pool of some client is empty, the first connection of a new client stops the process.
pub admit-none :
    {S : Type 0} (db : Db S) (host : List ℕ) (pools : PoolMap) (s : S) (k : ℕ)
    → find_pool k pools ≡ some []
    → find_pool (string_ip_to_int host) pools ≡ none
    → admit db host pools s ≡ none
unfolding admit
admit-none db host pools s k empty new = rw (new, admit, being_used-none k pools empty)
