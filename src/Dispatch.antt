-- ===== src/Dispatch.antt =====
-- main.go: what a connection to each of the three ports sets going. The sockets and the goroutines
-- are left out; `split` stands for `net.SplitHostPort`.
pub mod Pools
use route_server.Prelude.{
  ℕ, ℤ, pos, negsuc, Bool, true, false, Option, none, some, List, [], ◌∷◌, ◌++◌, ◌>>=◌, ◌==◌, ltb,
  if◌then◌else◌, length, word_of,
}
use route_server.Comm.{atoi, string_ip_to_int}
use route_server.Proxy.Info.{ProxyInfo, Db, init, save_db}
use route_server.Proxy.Check.{check}
use route_server.Proxy.Pool.{load_proxy_list}

-- `ProxyHandle`: what the first bytes of a connection ask for. `console` is `ConsoleHandle`, and
-- `nothing` any other single byte, for which only a nil error is logged.
pub data Request : Type 0 where
  scan_range : Request
  scan_ports : Request
  console : Request
  nothing : Request
  new_proxy : List ℕ → Request

unfoldable pub request : List ℕ → Request
request (b ∷ []) =
    if b == 100
    then scan_range
    else if b == 101
    then scan_ports
    else if b == 90
    then console
    else nothing
request bytes = new_proxy bytes

-- `new(ProxyInfo)`
abbrev pub blank : ProxyInfo
blank = record { port = 0; scheme = pos 0; au = []; ip_int = 0; url = []; order = pos 0 }

-- Lines 94 to 95: the error of `Init` is dropped. The proxy is then one without scheme and address,
-- with what `Atoi` left as the port, also after an error.
abbrev port_left : ℤ × Bool → ℕ
port_left (n, ok) = word_of n

abbrev blank_for : Option (List ℕ × List ℕ) → ProxyInfo
blank_for none = blank
blank_for (some (host, port)) = record blank { port = port_left (atoi port) }

abbrev proxy_left : Option (List ℕ × List ℕ) → Option ProxyInfo → ProxyInfo
proxy_left split none = blank_for split
proxy_left split (some p) = p

module _ {S : Type 0} (db : Db S) (dial : List ℕ → Option ℕ × ℤ) where
  -- A proxy that connects is saved. The first result is the error or none.
  unfoldable pub try_proxy : ProxyInfo → S → Option (Option ℕ × S)
  unfolding check save_db
  try_proxy p s = do
    (e, q) ← check dial p
    some (elim e [ none ↦ save_db db q s | some err ↦ (some err, s) ])

  unfoldable pub add_proxy : Option (List ℕ × List ℕ) → S → Option (Option ℕ × S)
  unfolding try_proxy
  add_proxy split s = try_proxy (proxy_left split (init split [] (negsuc 0))) s

-- The map `ProxyPool`, from the address of a client to its list of proxies.
abbrev pub PoolMap : Type 0
PoolMap = List (ℕ × List ProxyInfo)

abbrev pub find_pool : ℕ → PoolMap → Option (List ProxyInfo)
find_pool k [] = none
find_pool k ((j, p) ∷ m) = if j == k then some p else find_pool k m

-- Lines 127 to 133: the first proxy of each pool. An empty list panics. Go goes through a map in any
-- order, here in that of the list.
unfoldable pub being_used : PoolMap → Option (List ProxyInfo)
being_used [] = some []
being_used ((j, []) ∷ m) = none
being_used ((j, p ∷ ps) ∷ m) = do rest ← being_used m; some (p ∷ rest)

module _ {S : Type 0} (db : Db S) where
  -- Lines 123 to 136: the pool of the client `host`, which a first connection sets up.
  -- `robot.HostProxyMap` gets the same pool under the same key, and the channels of the pool are new.
  unfoldable pub admit : List ℕ → PoolMap → S → Option (PoolMap × S)
  unfolding being_used
  admit host pools s =
      let ips : ℕ = string_ip_to_int host in
      elim (find_pool ips pools) [
        | some ps ↦ some (pools, s)
        | none ↦ do
          used ← being_used pools
          let load = load_proxy_list db used [] s
          some ((ips, load.0) ∷ pools, load.1)
      ]
