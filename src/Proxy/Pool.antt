-- ===== src/Proxy/Pool.antt =====
-- proxyPool/proxy.go, lines 16 to 68: the list of proxies of one client. The channels and the relay
-- are left out.
pub mod Counts
use route_server.Prelude.{
  ℕ, ℤ, Bool, true, false, Option, none, some, List, [], ◌∷◌, ◌++◌, ◌>>=◌, ◌==◌, if◌then◌else◌,
}
use route_server.Proxy.Info.{ProxyInfo, Db, string, save_db, get_proxy_list}

-- Lines 50 to 55: the first proxy with this address goes.
unfoldable pub remove_ip : ℕ → List ProxyInfo → List ProxyInfo
remove_ip ip [] = []
remove_ip ip (q ∷ qs) =
    let rest : List ProxyInfo = remove_ip ip qs in if q.ip_int == ip then qs else q ∷ rest

-- Lines 48 to 56: `list`, after the loop over the proxies in use.
unfoldable pub without_used : List ProxyInfo → List ProxyInfo → List ProxyInfo
unfolding remove_ip
without_used [] list = list
without_used (p ∷ used) list = without_used used (remove_ip p.ip_int list)

-- Lines 45 to 57, from the list of the table or its error.
abbrev pub loaded :
    {S : Type 0}
    → List ProxyInfo
    → List ProxyInfo
    → Option (List ProxyInfo) × S
    → List ProxyInfo × S
loaded used proxies (none, s) = (proxies, s)
loaded used proxies (some ps, s) = (proxies ++ (used ++ without_used used ps), s)

module _ {S : Type 0} (db : Db S) where
  -- `LoadProxyList`, on the pool's list.
  unfoldable pub load_proxy_list : List ProxyInfo → List ProxyInfo → S → List ProxyInfo × S
  unfolding get_proxy_list
  load_proxy_list used proxies s = loaded used proxies (get_proxy_list db false s)

  -- `Replace`, with the saving of the proxy that goes, which the code starts at its end.
  unfoldable pub replace : List ProxyInfo → S → List ProxyInfo × S
  unfolding load_proxy_list save_db
  replace [] s = load_proxy_list [] [] s
  replace (p ∷ []) s = load_proxy_list [] [] s
  replace (p ∷ q ∷ ps) s = (q ∷ ps, (save_db db p s).1)

-- `GetConn`: the text of the proxy that is dialled, with the list that then keeps it; `none` in the
-- result is the error.
unfoldable pub get_conn : List ProxyInfo → Option (Option (List ℕ) × List ProxyInfo)
unfolding string
get_conn [] = some (none, [])
get_conn (p ∷ ps) = do q ← string p; some (some q.url, q ∷ ps)
