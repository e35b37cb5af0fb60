-- ===== src/Proxy/Relay.antt =====
-- proxyPool/proxy.go, lines 77 to 220: the loop that asks a client for the address behind a port, and
-- the call that uses it. A reply is a copy of the bytes of `buf`. What the network answers is a list
-- for each kind of call; `none` is a loop that still waits for an answer.
pub mod Replies
use route_server.Prelude.{
  ℕ, zero, suc, ◌+◌, Bool, true, false, Option, none, some, List, [], ◌∷◌, ◌>>=◌, ltb,
  if◌then◌else◌, take, length,
}
use route_server.Proxy.Info.{ProxyInfo}
use route_server.Proxy.Pool.{get_conn}

-- What is still to come: does a dialling connect, does a write arrive, what does a read give (`none`:
-- an error); the connections made so far; the ports written on the one in use, the last first; and
-- what has been sent on `Out`, the last first.
pub record Link : Type 0 where
  pub dials : List Bool
  pub writes : List Bool
  pub reads : List (Option (List ℕ))
  pub made : ℕ
  pub written : List (List ℕ)
  pub out : List (List ℕ)

-- `connfunc`: until a dialling connects.
unfoldable pub connect_from : List Bool → Option (List Bool)
connect_from [] = none
connect_from (d ∷ ds) =
    let rest : Option (List Bool) = connect_from ds in if d then some ds else rest

unfoldable pub connect : Link → Option Link
unfolding connect_from
connect l = do
  ds ← connect_from l.dials
  some (record l { dials = ds; made = suc l.made; written = [] })

abbrev pub write_one : List ℕ → List Bool → Link → Option (Bool × Link)
write_one port [] l = none
write_one port (w ∷ ws) l =
    some (w, record l { writes = ws; written = if w then port ∷ l.written else l.written })

abbrev pub read_one : List (Option (List ℕ)) → Link → Option (Option (List ℕ) × Link)
read_one [] l = none
read_one (r ∷ rs) l = some (r, record l { reads = rs })

-- `ClientConn.Write` and `ClientConn.Read`
abbrev pub write : List ℕ → Link → Option (Bool × Link)
write port l = write_one port l.writes l

abbrev pub read : Link → Option (Option (List ℕ) × Link)
read l = read_one l.reads l

-- `buf[:n]`, or the byte 1 after an error
abbrev pub reply_of : Option (List ℕ) → List ℕ
reply_of none = 1 ∷ []
reply_of (some bytes) = take 1024 bytes

-- `self.Out <- reply`
abbrev pub send : List ℕ → Link → Link
send reply l = record l { out = reply ∷ l.out }

-- Lines 134 to 146: a read that fails is tried once more on a new connection, on which the port is not
-- written.
unfoldable pub or_read_again : Option (List ℕ) → Link → Option Link
unfolding connect
or_read_again (some bytes) l = some (send (reply_of (some bytes)) l)
or_read_again none l = do l1 ← connect l; (r, l2) ← read l1; some (send (reply_of r) l2)

unfoldable pub read_reply : Link → Option Link
unfolding or_read_again
read_reply l = do (r, l1) ← read l; or_read_again r l1

-- Lines 111 to 146, for a port that came in on `In`: a write that fails is tried once more on a new
-- connection.
unfoldable pub serve : List ℕ → Link → Option Link
unfolding read_reply
serve port l = do
  (ok, l1) ← write port l
  if ok then read_reply l1 else (do
    l2 ← connect l1
    (again, l3) ← write port l2
    if again then read_reply l3 else some (send (1 ∷ []) l3))

-- The loop over the ports that come in on `In`.
unfoldable pub sync_from : List (List ℕ) → Link → Option Link
unfolding serve
sync_from [] l = some l
sync_from (port ∷ ports) l = do l1 ← serve port l; sync_from ports l1

unfoldable pub sync_server : List (List ℕ) → Link → Option Link
unfolding sync_from
sync_server ports l = do l1 ← connect l; sync_from ports l1

-- `GetRemoteAddr`, of what comes on `Out`: a reply of one byte is an error, and so is an empty one.
unfoldable pub remote_addr : List ℕ → Option (List ℕ)
remote_addr [] = none
remote_addr (x ∷ []) = none
remote_addr (x ∷ y ∷ bytes) = some (x ∷ y ∷ bytes)

-- `LoadFreUsedAddr` and `ConnProxy` of proxyPool/ProxyInfo.go. `dial` stands for the client that is made
-- of a proxy's text and its dialling of an address.
abbrev load_fre_used_addr : List ℕ
load_fre_used_addr =
    b'1' ∷ b'1' ∷ b'7' ∷ b'.' ∷ b'1' ∷ b'7' ∷ b'5' ∷ b'.' ∷ b'9' ∷ b'2' ∷ b'.' ∷ b'4' ∷ b'0' ∷ b':'
    ∷ b'8' ∷ b'0' ∷ []

abbrev pub conn_proxy : (List ℕ → List ℕ → Bool) → List ℕ → List ℕ → Bool
conn_proxy dial [] proxy = dial proxy load_fre_used_addr
conn_proxy dial (b ∷ addr) proxy = dial proxy (b ∷ addr)

-- How `RelayHandle` ends: before any copying, or after the copying between the connection and one to
-- an address through a proxy.
pub data Ending : Type 0 where
  closed : Ending
  relayed : List ℕ → List ℕ → Ending

abbrev ending_of : Bool → List ℕ → List ℕ → Ending
ending_of true addr proxy = relayed addr proxy
ending_of false addr proxy = closed

-- From the reply on, with the list of proxies that is left.
unfoldable pub relay_to :
    (List ℕ → List ℕ → Bool) → Option (List ℕ) → List ProxyInfo → Option (Ending × List ProxyInfo)
unfolding get_conn
relay_to dial none ps = some (closed, ps)
relay_to dial (some addr) ps = do
  (proxy, ps') ← get_conn ps
  some (elim proxy [
    | none ↦ (closed, ps')
    | some text ↦ (ending_of (conn_proxy dial addr text) addr text, ps')
  ])

-- `RelayHandle`, from the port of the connection (`none`: it has none) and the reply for it.
unfoldable pub relay_handle :
    (List ℕ → List ℕ → Bool)
    → Option (List ℕ)
    → (List ℕ → List ℕ)
    → List ProxyInfo
    → Option (Ending × List ProxyInfo)
unfolding relay_to remote_addr
relay_handle dial none reply ps = some (closed, ps)
relay_handle dial (some port) reply ps = relay_to dial (remote_addr (reply port)) ps
