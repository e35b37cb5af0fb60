-- ===== src/Tests/Table.antt =====
-- A table of proxies in memory for the tests.
use route_server.Prelude.{ℕ, ◌*◌, ℤ, pos, Option, none, some, List, [], ◌∷◌, ◌==◌, if◌then◌else◌}
use route_server.Proxy.Info.{ProxyInfo, Row, Db}

-- Every statement succeeds, and the rows are appended.
abbrev remove_key : ℕ → List Row → List Row
remove_key k [] = []
remove_key k (r ∷ rs) =
    let rest : List Row = remove_key k rs in if r.ip == k then rest else r ∷ rest

abbrev pub memory_db : Db (List Row)
memory_db = record {
  stat = λ s. none;
  create = λ s. [];
  connect = λ s. none;
  insert = λ r s. (none, r ∷ remove_key r.ip s);
  update = λ r s. (none, r ∷ remove_key r.ip s);
  delete = λ k s. (none, remove_key k s);
  query = λ b s. some s;
}

-- Every save fails with the error 5.
abbrev pub broken_db : Db (List Row)
broken_db = record memory_db { insert = λ r s. (some 5, s); update = λ r s. (some 5, s) }

abbrev pub row_one : Row
row_one = record { ip = 167772160 * 256; port = 80; scheme = pos 4; au = []; ord = pos 3 }

abbrev pub proxy_one : ProxyInfo
proxy_one = record {
  port = 80;
  scheme = pos 4;
  au = [];
  ip_int = 167772160;
  url = [];
  order = pos 0;
}

abbrev pub proxy_two : ProxyInfo
proxy_two = record {
  port = 8080;
  scheme = pos 0;
  au = [];
  ip_int = 167772160;
  url = [];
  order = pos 0;
}

-- Every proxy connects, in 3 units of time.
abbrev pub dial_ok : List ℕ → Option ℕ × ℤ
dial_ok url = (none, pos 3)
