-- ===== src/Mjai/Ai/Fields.antt =====
-- mjai/Ai.go, lines 161 to 171, 192 to 206 and 264 to 280: the fields of a player that its own
-- operations do not use.
use route_server.Prelude.{ℕ, ℤ, ◌-ℤ◌, wrap64, Option, none, some, List, ◌>>=◌, get_elem?, set}
use route_server.Comm.{string_ip_to_int}
use route_server.Mjai.Ai.{Ai, put_user}

-- `SetHost`, of what `net.SplitHostPort` gives: an error ends the process.
unfoldable pub set_host : Option (List ℕ × List ℕ) → Ai → Option Ai
unfolding string_ip_to_int
set_host none ai = none
set_host (some (host, port)) ai = some (record ai { host = string_ip_to_int host })

abbrev pub get_host : Ai → ℕ
get_host ai = ai.host

abbrev pub get_property : Ai → ℤ
get_property ai = ai.property

abbrev pub set_property : ℤ → Ai → Ai
set_property p ai = record ai { property = p }

-- The clock is an argument.
abbrev pub get_begin_time_diff : ℤ → Ai → ℤ
get_begin_time_diff now ai = wrap64 (now -ℤ ai.begin_time)

abbrev pub update_begin_time : ℤ → Ai → Ai
update_begin_time now ai = record ai { begin_time = now }

abbrev pub set_last_uid : ℤ → Ai → Ai
set_last_uid uid ai = record ai { last_public_id = uid }

unfoldable pub set_last_for_data : ℕ → List ℕ → Ai → Option Ai
set_last_for_data n s ai = do
  old ← get_elem? ai.last_for_data n
  some (record ai { last_for_data = set ai.last_for_data n s })

abbrev pub get_last_for_data : Ai → List (List ℕ)
get_last_for_data ai = ai.last_for_data

unfoldable pub get_now_val : ℕ → Ai → Option ℤ
get_now_val nid ai = do u ← get_elem? ai.public nid; some u.now_val

unfoldable pub set_valid : ℕ → ℤ → Ai → Option Ai
set_valid nid n ai = do u ← get_elem? ai.public nid; some (put_user nid (record u { inv = n }) ai)
