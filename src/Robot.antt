-- ===== src/Robot.antt =====
-- robot/Server.go: the users behind the byte keys, the methods, and the handling of a datagram.
-- Time is an argument; `mjai.Ai` is the only `SCMJ`. The socket loop of `Handle` is `session`.
pub mod Scmj
pub mod Answer
pub mod Game
pub mod Discard
pub mod Pass
use route_server.Prelude.{
  ℕ, zero, suc, ◌+◌, ◌-◌, ◌*◌, ℤ, pos, negsuc, ◌-ℤ◌, wrap64, gtb_ℤ, Bool, true, false, ◌&&◌, ◌||◌,
  Option, none, some, List, [], ◌∷◌, ◌++◌, ◌>>=◌, ◌==◌, leb, if◌then◌else◌,
}
use route_server.Comm.{byte_to_int}
use route_server.Proxy.Info.{decimal}
use route_server.Mjai.Ai.{Ai, new_ai, init}
use Scmj.{has_scmj, call_scmj}

-- `last_db` and `last_reply` are the two entries of `LastForData`; a nil slice is the empty list.
pub record UserBase : Type 0 where
  pub property : ℤ
  pub host : ℕ
  pub begin_time : ℤ
  pub ai : Ai
  pub last_db : List ℕ
  pub last_reply : List ℕ

-- The package's variables: `HostMap` as an association list, and the proxies by host. A `Replace`
-- of a proxy is recorded in `replaced`, by its host.
pub record Server : Type 0 where
  pub host_map : List (ℕ × UserBase)
  pub proxies : List ℕ
  pub replaced : List ℕ

abbrev pub lookup : ℕ → List (ℕ × UserBase) → Option UserBase
lookup k [] = none
lookup k ((j, u) ∷ m) = if j == k then some u else lookup k m

abbrev pub insert : ℕ → UserBase → List (ℕ × UserBase) → List (ℕ × UserBase)
insert k u [] = (k, u) ∷ []
insert k u ((j, v) ∷ m) = if j == k then (k, u) ∷ m else (j, v) ∷ insert k u m

-- `UserBase.Init` of a new user, from the host's address as a number.
unfoldable pub new_user : ℕ → UserBase
new_user host = record {
  property = pos 0;
  host = host;
  begin_time = pos 0;
  ai = init new_ai;
  last_db = [];
  last_reply = [];
}

unfoldable pub comp_byte : List ℕ → List ℕ → Bool
comp_byte [] [] = true
comp_byte [] (b ∷ bs) = false
comp_byte (a ∷ as') [] = false
comp_byte (a ∷ as') (b ∷ bs) = if b == a then comp_byte as' bs else false

-- `GetHost`: the keys from `i` on, `n` of them, for the first that is free.
unfoldable pub free_key : ℕ → ℕ → List (ℕ × UserBase) → Option ℕ
free_key zero i m = none
free_key (suc n) i m =
    let rest : Option ℕ = free_key n (i + 1) m in
    elim (lookup i m) [ none ↦ some i | some u ↦ rest ]

abbrev pub touch : ℤ → UserBase → UserBase
touch now u = record u { begin_time = now }

abbrev pub keep_user : ℕ → UserBase → Server → UserBase × ℕ × Server
keep_user k u srv = (u, k, record srv { host_map = insert k u srv.host_map })

-- The user of a key, or a new one under the first free key below 255. Without one the code sets a
-- field of a nil pointer.
unfoldable pub get_host : ℕ → ℕ → ℤ → Server → Option (UserBase × ℕ × Server)
unfolding free_key new_user
get_host key host now srv = elim (lookup key srv.host_map) [
  | some u ↦ some (keep_user key (touch now u) srv)
  | none ↦ do i ← free_key 255 0 srv.host_map; some (keep_user i (touch now (new_user host)) srv)
]

abbrev pub member : ℕ → List ℕ → Bool
member h [] = false
member h (k ∷ ks) = if h == k then true else member h ks

-- `MethodLib`: the keys of the mahjong methods have the byte 'O' in front.
unfoldable pub has_method : ℕ → Bool
unfolding has_scmj
has_method ke = ke == 255 || leb ke 1 || leb (79 * 256) ke && has_scmj (ke - 79 * 256)

unfoldable pub call_method : ℕ → List ℕ → UserBase → Server → Option (List ℕ × UserBase × Server)
call_method ke b u srv =
    if ke == 255
    then some (
      [],
      u,
      if member u.host srv.proxies then record srv { replaced = u.host ∷ srv.replaced } else srv,
    )
    else if ke == 1
    then some ([], record u { property = byte_to_int b }, srv)
    else if ke == 0
    then some (79 ∷ 0 ∷ [], u, srv)
    else (do
      (reply, ai) ← call_scmj (ke - 79 * 256) b u.ai
      some (reply, record u { ai = ai }, srv))

-- Lines 115 to 121 of `GetRecvData`: the user's key and reply. The reply is the remembered one if
-- the payload is that of the user's last datagram.
unfoldable pub answer : ℕ → List ℕ → UserBase → ℕ → Server → Option (Option (List ℕ) × Server)
unfolding call_method comp_byte
answer ke b u k srv = if comp_byte u.last_db b then some (some (k ∷ u.last_reply), srv) else (do
  (reply, u1, srv1) ← call_method ke b (record u { last_db = b }) srv
  some (
    some (k ∷ reply),
    record srv1 { host_map = insert k (record u1 { last_reply = reply }) srv1.host_map },
  ))

-- `GetRecvData`. The result `none` in the pair is a nil: the connection is closed.
unfoldable pub get_recv_data : List ℕ → ℕ → ℤ → Server → Option (Option (List ℕ) × Server)
unfolding has_method get_host answer
get_recv_data (key ∷ hi ∷ lo ∷ b) host now srv =
    let ke : ℕ = hi * 256 + lo in
    if has_method ke
    then (do (u, k, srv1) ← get_host key host now srv; answer ke b u k srv1)
    else some (some (key ∷ []), srv)
get_recv_data _ host now srv = some (none, srv)

-- `Handle`: the datagrams that are read, with their times, and the replies that are written.
unfoldable pub session : ℕ → List (ℤ × List ℕ) → Server → Option (List (List ℕ) × Server)
unfolding get_recv_data
session host [] srv = some ([], srv)
session host ((now, db) ∷ rest) srv = do
  (w, srv1) ← get_recv_data db host now srv
  elim w [
    | none ↦ some ([], srv1)
    | some reply ↦ do (replies, srv2) ← session host rest srv1; some (reply ∷ replies, srv2)
  ]

-- `ClearServer`, one round: users idle for more than ten minutes go.
unfoldable pub clear_users : ℤ → List (ℕ × UserBase) → List (ℕ × UserBase)
clear_users now [] = []
clear_users now ((k, u) ∷ m) =
    if gtb_ℤ (wrap64 (now -ℤ u.begin_time)) (pos 600)
    then clear_users now m
    else (k, u) ∷ clear_users now m

unfoldable pub clear_server : ℤ → Server → Server
unfolding clear_users
clear_server now srv = record srv { host_map = clear_users now srv.host_map }

abbrev decimal_ℤ : ℤ → List ℕ
decimal_ℤ (pos n) = decimal 20 n []
decimal_ℤ (negsuc n) = b'-' ∷ decimal 20 (suc n) []

-- The text that `ConsoleHandle` writes: a line for each user with the key, the property and the
-- seconds since the last datagram.
unfoldable pub console_text : ℤ → List (ℕ × UserBase) → List ℕ
unfolding decimal
console_text now [] = []
console_text now ((k, u) ∷ m) =
    decimal 20 k []
    ++ (32
        ∷ (decimal_ℤ u.property
            ++ (32 ∷ (decimal_ℤ (wrap64 (now -ℤ u.begin_time)) ++ (10 ∷ console_text now m)))))
