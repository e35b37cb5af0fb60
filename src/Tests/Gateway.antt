-- ===== src/Tests/Gateway.antt =====
-- The connections of main.go and the texts of scann at concrete inputs.
use route_server.Prelude.{ℕ, none, some, List, [], ◌∷◌, ◌≡◌, ◌≢◌, refl}
use route_server.Comm.{string_ip_to_int}
use route_server.Proxy.Info.{ProxyInfo, Row, get_proxy_list}
use route_server.Scann.Ports.{port_text, split_at}
use route_server.Scann.Ports.Lines.{port_lines, split_at-port_text}
use route_server.Dispatch.{PoolMap, admit}
use route_server.Dispatch.Pools.{Filled, admit-Filled, admit-none}
use route_server.Tests.Table.{memory_db, row_one, proxy_one, proxy_two}

split_at-port_text_example :
    split_at 10 [] (port_text (22 ∷ 8080 ∷ [])) ≡ port_lines (22 ∷ 8080 ∷ [])
split_at-port_text_example = split_at-port_text (22 ∷ 8080 ∷ [])

-- The addresses 0.0.0.1 and 0.0.0.2, the first with a pool.
abbrev new_host : List ℕ
new_host = b'0' ∷ b'.' ∷ b'0' ∷ b'.' ∷ b'0' ∷ b'.' ∷ b'2' ∷ []

abbrev one_pool : PoolMap
one_pool = (1, proxy_one ∷ proxy_two ∷ []) ∷ []

not_nil : (p : ProxyInfo) (ps : List ProxyInfo) → p ∷ ps ≢ []
not_nil p ps e = cc

admit-Filled_example :
    (pools : PoolMap) × (t : List Row) × (admit memory_db new_host one_pool (row_one ∷ [])
      ≡ some (pools, t))
    × Filled pools
unfolding get_proxy_list
admit-Filled_example =
    admit-Filled memory_db new_host one_pool _ (row_one ∷ []) (row_one ∷ []) refl (λ e. cc)
      (not_nil proxy_one (proxy_two ∷ []), tt)

abbrev empty_pool : PoolMap
empty_pool = (1, []) ∷ []

admit-none_example : admit memory_db new_host empty_pool (row_one ∷ []) ≡ none
unfolding string_ip_to_int
admit-none_example = admit-none memory_db new_host empty_pool (row_one ∷ []) 1 refl refl
