-- ===== src/Proxy/Check/Sweep.antt =====
-- What trying a proxy finds, and what the sweep keeps and deletes.

use route_server.Prelude.{
  ℕ, ℤ, Option, none, some, List, [], ◌∷◌, ◌>>=◌, ◌≡◌, refl, >>=-congr, if◌then◌else◌,
}
use route_server.Proxy.Info.{ProxyInfo, Db, save_db, delete_db}
use route_server.Proxy.Check.{check, same_error, sweep}

module _ {S : Type 0} (db : Db S) (dial : List ℕ → Option ℕ × ℤ) where
  -- What becomes of the table for one proxy: it is saved with what the check found, or deleted.
  abbrev settled : Option ℕ × ProxyInfo → S → S
  settled (none, q) s = (save_db db q s).1
  settled (some e, q) s = (delete_db db q s).1

  unfoldable pub settle_all : List ProxyInfo → S → Option S
  unfolding check save_db delete_db
  settle_all [] s = some s
  settle_all (p ∷ ps) s = do r ← check dial p; settle_all ps (settled r s)

  -- While no save and no deletion fails, the sweep saves the proxies that connect and deletes the
  -- others.
  pub sweep-settles :
      (ps : List ProxyInfo) (s : S)
      → ((q : ProxyInfo) (t : S) → (save_db db q t).0 ≡ none)
      → ((q : ProxyInfo) (t : S) → (delete_db db q t).0 ≡ none)
      → sweep db dial ps none s ≡ settle_all ps s
  unfolding sweep settle_all
  sweep-settles [] s saves deletes = refl
  sweep-settles (p ∷ ps) s saves deletes =
      >>=-congr (check dial p) _ _ (step (λ t. sweep-settles ps t saves deletes))
    where
      step :
          ((t : S) → sweep db dial ps none t ≡ settle_all ps t)
          → (r : Option ℕ × ProxyInfo)
          → (let o : Option ℕ × S =
                if same_error none r.0 then save_db db r.1 s else delete_db db r.1 s in
              sweep db dial ps o.0 o.1)
            ≡ settle_all ps (settled r s)
      step rest (none, q) = rw (saves q s) (rest (save_db db q s).1)
      step rest (some e, q) = rw (deletes q s) (rest (delete_db db q s).1)

  -- Of two proxies that connect, the second is deleted if the save of the first fails.
  pub sweep-stale :
      (p q p' q' : ProxyInfo) (s : S) (e : ℕ)
      → check dial p ≡ some (none, p')
      → check dial q ≡ some (none, q')
      → (save_db db p' s).0 ≡ some e
      → sweep db dial (p ∷ q ∷ []) none s ≡ some (delete_db db q' (save_db db p' s).1).1
  unfolding sweep
  sweep-stale p q p' q' s e hp hq fails = rw (hp, hq, fails) refl
