-- ===== src/Proxy/Pool/Counts.antt =====
-- What `LoadProxyList` and `Replace` make of a pool's list, proxy by proxy.
use route_server.Prelude.{
  ℕ, suc, ◌+◌, ◌-◌, some, List, [], ◌∷◌, ◌++◌, ◌==◌, if◌then◌else◌, ◌≡◌, ap, ◌∙◌, false, arith, inl,
  inr, Bool-cases,
}
use route_server.Proxy.Info.{ProxyInfo, Db, get_proxy_list}
use route_server.Proxy.Pool.{remove_ip, without_used, loaded, load_proxy_list}

-- The proxies of a list that have this address.
abbrev pub count_ip : ℕ → List ProxyInfo → ℕ
count_ip ip [] = 0
count_ip ip (q ∷ qs) = let rest : ℕ = count_ip ip qs in if q.ip_int == ip then suc rest else rest

count_ip-append :
    (ip : ℕ) (ps qs : List ProxyInfo) → count_ip ip (ps ++ qs) ≡ count_ip ip ps + count_ip ip qs
count_ip-append ip [] qs = omega arith
count_ip-append ip (p ∷ ps) qs = ground (arith, count_ip-append ip ps qs)

count_ip-remove_ip :
    (ip j : ℕ) (qs : List ProxyInfo)
    → count_ip ip (remove_ip j qs) ≡ (if j == ip then count_ip ip qs - 1 else count_ip ip qs)
unfolding remove_ip
count_ip-remove_ip ip j [] = ground arith
count_ip-remove_ip ip j (q ∷ qs) = elim (Bool-cases (q.ip_int == j)) [
  | inl same ↦ rw same (ground arith)
  | inr other ↦ rw other (let rest = count_ip-remove_ip ip j qs in ground arith)
]

count_ip-without_used :
    (ip : ℕ) (used list : List ProxyInfo)
    → count_ip ip (without_used used list) ≡ count_ip ip list - count_ip ip used
unfolding without_used
count_ip-without_used ip [] list = omega arith
count_ip-without_used ip (p ∷ used) list = ground (
  arith,
  count_ip-without_used ip used (remove_ip p.ip_int list),
  count_ip-remove_ip ip p.ip_int list,
)

-- If the table can be read, `LoadProxyList` adds, for each address, as many proxies as are in use or in the table, whichever
-- are more: each proxy in use takes the place of one from the table.
pub load_proxy_list-count :
    {S : Type 0} (db : Db S) (used proxies list : List ProxyInfo) (s s' : S) (ip : ℕ)
    → get_proxy_list db false s ≡ (some list, s')
    → count_ip ip (load_proxy_list db used proxies s).0
      ≡ count_ip ip proxies + (count_ip ip used + (count_ip ip list - count_ip ip used))
unfolding load_proxy_list
load_proxy_list-count db used proxies list s s' ip h =
    ap (λ r. count_ip ip (loaded used proxies r).0) h
    ∙ count_ip-append ip proxies (used ++ without_used used list)
    ∙ ap (λ n. count_ip ip proxies + n)
        (count_ip-append ip used (without_used used list)
          ∙ ap (λ n. count_ip ip used + n) (count_ip-without_used ip used list))
