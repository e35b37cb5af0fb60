-- ===== src/Tests/Services.antt =====
-- The server of robot and the proxy pool at concrete inputs.
use route_server.Prelude.{
  ℕ, zero, suc, ◌+◌, ◌-◌, ◌/◌, ◌^◌, ◌<◌, ◌≤◌, ◌≢◌, pos, negsuc, true, false, length, none, some,
  List, [], ◌∷◌, ◌≡◌, refl, arith, map, if◌then◌else◌, ◌==◌,
}
use route_server.Robot.{
  UserBase, Server, lookup, insert, touch, keep_user, new_user, get_host, get_recv_data, has_method,
  clear_users,
}
use route_server.Robot.Answer.{
  FirstFree, get_host-new, get_host-full, get_recv_data-repeated, unless_idle, lookup-clear_users,
}
use route_server.Proxy.Info.{ProxyInfo, key, row_of, info_of, get_proxy_list, save_db, delete_db}
use route_server.Proxy.Info.Keys.{info_of-key, info_of-key_high}
use route_server.Proxy.Pool.{load_proxy_list}
use route_server.Proxy.Pool.Counts.{count_ip, load_proxy_list-count}
use route_server.Proxy.Check.{check, sweep}
use route_server.Proxy.Check.Schemes.{FirstScheme, check-FirstScheme}
use route_server.Proxy.Check.Sweep.{settle_all, sweep-settles, sweep-stale}
use route_server.Proxy.Relay.{Link, serve, sync_server}
use route_server.Proxy.Relay.Replies.{Answer, serve-Answer, sync_server-length}
use route_server.Scann.{Span, choose_span}
use route_server.Scann.Fresh.{choose_span-fresh}
use route_server.Tests.Players.{or_else}
use route_server.Tests.Table.{memory_db, broken_db, row_one, proxy_one, proxy_two, dial_ok}

abbrev payload : List ℕ
payload = 1 ∷ 2 ∷ []

abbrev vacant : Server
vacant = record { host_map = []; proxies = []; replaced = [] }

get_host-new_example :
    (k : ℕ) × (get_host 9 7 (pos 100) vacant
      ≡ some (keep_user k (touch (pos 100) (new_user 7)) vacant))
    × FirstFree 255 0 [] k
    × ((l : ℕ)
        → lookup l (insert k (touch (pos 100) (new_user 7)) [])
          ≡ (if k == l then some (touch (pos 100) (new_user 7)) else lookup l []))
get_host-new_example = get_host-new 9 7 (pos 100) vacant 0 refl (omega arith) refl

-- Users under all keys below `n`.
abbrev fill : ℕ → List (ℕ × UserBase)
fill zero = []
fill (suc n) = (n, new_user 7) ∷ fill n

fill_taken : (n j : ℕ) → j < n → lookup j (fill n) ≢ none
fill_taken zero j l h = absurd (omega arith)
fill_taken (suc n) j l h = let rest = fill_taken n j in ground arith

fill_free : (n j : ℕ) → n ≤ j → lookup j (fill n) ≡ none
fill_free zero j l = refl
fill_free (suc n) j l = let rest = fill_free n j in ground arith

abbrev crowded : Server
crowded = record vacant { host_map = fill 255 }

get_host-full_example : get_host 300 7 (pos 100) crowded ≡ none
get_host-full_example =
    get_host-full 300 7 (pos 100) crowded (fill_free 255 300 (omega arith)) (fill_taken 255)

-- The state after a first datagram, with the method 0.
abbrev greeted : Server
greeted = (or_else (none, vacant) (get_recv_data (5 ∷ 0 ∷ 0 ∷ 3 ∷ []) 7 (pos 100) vacant)).1

get_recv_data-repeated_example :
    (u : UserBase) × (lookup 0 greeted.host_map ≡ some u)
    × (get_recv_data (0 ∷ 0 ∷ 255 ∷ 3 ∷ []) 8 (pos 200) greeted
        ≡ some (
          some (0 ∷ 79 ∷ 0 ∷ []),
          record greeted { host_map = insert 0 (touch (pos 200) u) greeted.host_map },
        ))
unfolding get_recv_data has_method
get_recv_data-repeated_example =
    get_recv_data-repeated 5 0 0 7 (3 ∷ []) (pos 100) vacant 0 (79 ∷ 0 ∷ []) greeted refl refl 0 255
      8 (pos 200) refl

lookup-clear_users_example :
    lookup 4 (clear_users (pos 900) ((4, touch (pos 100) (new_user 7)) ∷ []))
    ≡ unless_idle (pos 900) (lookup 4 ((4, touch (pos 100) (new_user 7)) ∷ []))
lookup-clear_users_example =
    lookup-clear_users (pos 900) ((4, touch (pos 100) (new_user 7)) ∷ []) 4 (refl, tt)

load_proxy_list-count_example :
    count_ip 167772160 (load_proxy_list memory_db (proxy_one ∷ []) [] (row_one ∷ [])).0
    ≡ count_ip 167772160 []
      + (count_ip 167772160 (proxy_one ∷ [])
          + (count_ip 167772160 (map info_of (row_one ∷ [])) - count_ip 167772160 (proxy_one ∷ [])))
unfolding get_proxy_list
load_proxy_list-count_example =
    load_proxy_list-count memory_db (proxy_one ∷ []) [] (map info_of (row_one ∷ [])) (row_one ∷ [])
      (row_one ∷ []) 167772160 refl

sweep-settles_example :
    sweep memory_db dial_ok (proxy_one ∷ proxy_two ∷ []) none (row_one ∷ [])
    ≡ settle_all memory_db dial_ok (proxy_one ∷ proxy_two ∷ []) (row_one ∷ [])
unfolding save_db delete_db
sweep-settles_example =
    sweep-settles memory_db dial_ok (proxy_one ∷ proxy_two ∷ []) (row_one ∷ []) (λ q t. refl)
      (λ q t. refl)

-- A proxy as `Check` leaves it.
abbrev checked : ProxyInfo → ProxyInfo
checked p = (or_else (none, p) (check dial_ok p)).1

sweep-stale_example :
    sweep broken_db dial_ok (proxy_one ∷ proxy_two ∷ []) none (row_one ∷ [])
    ≡ some
        (delete_db broken_db
          (checked proxy_two)
          (save_db broken_db (checked proxy_one) (row_one ∷ [])).1).1
unfolding check save_db
sweep-stale_example =
    sweep-stale broken_db dial_ok proxy_one proxy_two (checked proxy_one) (checked proxy_two)
      (row_one ∷ []) 5 refl refl refl

info_of-key_example :
    ((info_of (row_of proxy_one (key proxy_one))).ip_int ≡ proxy_one.ip_int)
    × ((info_of (row_of proxy_one (key proxy_one))).port ≡ proxy_one.port)
info_of-key_example = info_of-key proxy_one (omega arith) (omega arith)

info_of-key_high_example :
    (info_of (row_of proxy_two (key proxy_two))).ip_int ≡ proxy_two.ip_int + proxy_two.port / 2 ^ 8
info_of-key_high_example =
    info_of-key_high proxy_two 655360 (omega arith) (omega arith) (omega arith)

-- A first write fails, a dialling fails and the next connects, then a write and a read succeed.
abbrev link : Link
link = record {
  dials = true ∷ false ∷ true ∷ [];
  writes = false ∷ true ∷ [];
  reads = some (49 ∷ 58 ∷ 50 ∷ []) ∷ [];
  made = 0;
  written = [];
  out = [];
}

abbrev served : Link
served = or_else link (serve (50 ∷ []) link)

serve-Answer_example : Answer 2 (50 ∷ []) link served
unfolding serve
serve-Answer_example = serve-Answer (50 ∷ []) link served refl

-- For the second port both reads fail.
abbrev lossy : Link
lossy = record link {
  dials = true ∷ true ∷ true ∷ [];
  writes = false ∷ true ∷ true ∷ [];
  reads = some (49 ∷ 58 ∷ 50 ∷ []) ∷ none ∷ none ∷ [];
}

abbrev synced : Link
synced = or_else link (sync_server ((50 ∷ []) ∷ (51 ∷ []) ∷ []) lossy)

sync_server-length_example : length synced.out ≡ 2
unfolding sync_server
sync_server-length_example = sync_server-length ((50 ∷ []) ∷ (51 ∷ []) ∷ []) lossy synced refl

-- Three ranges, two of them never handed out.
abbrev span : ℕ → Span
span t = record { first = 16777216; last = 16777471; time = t }

choose_span-fresh_example : (choose_span (λ n. 0) (span 0 ∷ span 0 ∷ span 9 ∷ [])).time ≡ 0
choose_span-fresh_example =
    choose_span-fresh (λ n. 0) (span 0) (span 0 ∷ span 9 ∷ []) (λ n l. l)
      ((omega arith, (omega arith, tt)), ((omega arith, tt), (tt, tt))) refl

check-FirstScheme_example :
    FirstScheme dial_ok 0 proxy_two
      (or_else
        (none, proxy_two)
        (check dial_ok (record proxy_two { scheme = negsuc 0; url = [] }))).1
unfolding check
check-FirstScheme_example =
    check-FirstScheme dial_ok proxy_two
      (or_else (none, proxy_two)
        (check dial_ok (record proxy_two { scheme = negsuc 0; url = [] }))).1
      refl
