-- ===== src/Proxy/Check.antt =====
-- proxyPool/ProxyInfo.go, lines 68 to 97 and 212 to 228: trying a proxy, and the sweep over the
-- table. `dial` stands for `ConnProxy` and the clock: from the text of a proxy, the error or none,
-- and the time that it took.
pub mod Sweep
pub mod Schemes
use route_server.Prelude.{
  ℕ, zero, suc, ◌+◌, ℤ, pos, negsuc, Bool, true, false, not, ◌&&◌, Option, none, some, List, [],
  ◌∷◌, ◌>>=◌, ◌==◌, ltb_ℤ, if◌then◌else◌,
}
use route_server.Proxy.Info.{ProxyInfo, Db, string, save_db, delete_db, get_proxy_list}

module _ (dial : List ℕ → Option ℕ × ℤ) where
  -- Lines 80 to 90: the schemes from `i` on, `n` of them, with the error of the last one tried. `Order`
  -- is the time that a connection took, and otherwise some time of the clock.
  unfoldable pub try_schemes : ℕ → ℕ → Option ℕ → ProxyInfo → Option (Option ℕ × ProxyInfo)
  unfolding string
  try_schemes zero i err p = some (err, p)
  try_schemes (suc n) i err p = do
    q ← string (record p { scheme = pos i })
    let q' : ProxyInfo = record q { url = []; order = (dial q.url).1 }
    elim (dial q.url).0 [ none ↦ some (none, q') | some e ↦ try_schemes n (suc i) (some e) q' ]

  abbrev pub no_order : Option ℕ × ProxyInfo → Option ℕ × ProxyInfo
  no_order (none, p) = (none, p)
  no_order (some e, p) = (some e, record p { order = pos 0 })

  -- `ProxyInfo.Check`: the error or none, and the proxy.
  unfoldable pub check : ProxyInfo → Option (Option ℕ × ProxyInfo)
  unfolding try_schemes
  check p =
      let known : Option (Option ℕ × ProxyInfo) = (do
        q ← string p
        some ((dial q.url).0, record q { order = (dial q.url).1 })) in
      let unknown : Option (Option ℕ × ProxyInfo) = (do
        r ← try_schemes 6 0 none p
        some (no_order r)) in
      if not (ltb_ℤ p.scheme (pos 0)) && ltb_ℤ p.scheme (pos 6) then known else unknown

-- `err != pr.Check()` on two errors
abbrev pub same_error : Option ℕ → Option ℕ → Bool
same_error none none = true
same_error none (some e) = false
same_error (some d) none = false
same_error (some d) (some e) = d == e

module _ {S : Type 0} (db : Db S) (dial : List ℕ → Option ℕ × ℤ) where
  -- Lines 218 to 227, with the variable `err`.
  unfoldable pub sweep : List ProxyInfo → Option ℕ → S → Option S
  unfolding check save_db delete_db
  sweep [] err s = some s
  sweep (p ∷ ps) err s = do
    (e, q) ← check dial p
    let r : Option ℕ × S = if same_error err e then save_db db q s else delete_db db q s
    sweep ps r.0 r.1

  unfoldable pub check_db : S → Option S
  unfolding get_proxy_list sweep
  check_db s =
      let (list, s') = get_proxy_list db true s in
      elim list [ none ↦ some s' | some ps ↦ sweep ps none s' ]
