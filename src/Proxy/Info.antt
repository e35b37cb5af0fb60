-- ===== src/Proxy/Info.antt =====
-- proxyPool/ProxyInfo.go, lines 15 to 67, 99 to 129 and 145 to 184: a proxy, its text, and its row in
-- the table. The database and the file system stand behind the record `Db`; the locks and the log
-- are left out, since each call here is one step.
pub mod Keys
use Prim.Native.Nat.{bit_or}
use route_server.Prelude.{
  ℕ, zero, suc, ◌+◌, ◌-◌, ◌*◌, ◌/◌, ◌%◌, ◌^◌, ℤ, pos, negsuc, Bool, true, false, ◌&&◌, ◌||◌, Option,
  none, some, List, [], ◌∷◌, ◌++◌, map, ◌>>=◌, ◌==◌, ltb, ltb_ℤ, gtb_ℤ, if◌then◌else◌, get_elem?,
  length,
}
use route_server.Comm.{atoi, string_ip_to_int, ip_int_to_string}

-- The port is the bit pattern of an `int`.
pub record ProxyInfo : Type 0 where
  pub port : ℕ
  pub scheme : ℤ
  pub au : List ℕ
  pub ip_int : ℕ
  pub url : List ℕ
  pub order : ℤ

-- The list `SCHEME`.
abbrev pub schemes : List (List ℕ)
schemes =
    (b's' ∷ b'o' ∷ b'c' ∷ b'k' ∷ b's' ∷ b'5' ∷ [])
    ∷ (b's' ∷ b'o' ∷ b'c' ∷ b'k' ∷ b's' ∷ b'4' ∷ [])
    ∷ (b's' ∷ b'o' ∷ b'c' ∷ b'k' ∷ b's' ∷ b'4' ∷ b'a' ∷ [])
    ∷ (b'h' ∷ b't' ∷ b't' ∷ b'p' ∷ b's' ∷ [])
    ∷ (b'h' ∷ b't' ∷ b't' ∷ b'p' ∷ [])
    ∷ (b's' ∷ b'o' ∷ b'c' ∷ b'k' ∷ b's' ∷ [])
    ∷ []

-- A 64-bit integer that was read, or an error.
abbrev checked : ℤ × Bool → Option ℤ
checked (n, true) = some n
checked (n, false) = none

abbrev port_of : ℤ → Option ℕ
port_of (pos n) = if ltb 65535 n then none else some n
port_of (negsuc n) = none

-- `ProxyInfo.Init` of a new proxy, from what `net.SplitHostPort` gives; `none` is an error, after
-- which the code's proxy has its port set at most.
unfoldable pub init : Option (List ℕ × List ℕ) → List ℕ → ℤ → Option ProxyInfo
unfolding atoi string_ip_to_int
init none au scheme = none
init (some (host, port)) au scheme = do
  n ← checked (atoi port)
  p ← port_of n
  some (record {
    port = p;
    scheme = scheme;
    au = au;
    ip_int = string_ip_to_int host;
    url = [];
    order = pos 0;
  })

-- `%d` of a number, with `fuel` digits at most.
unfoldable pub decimal : ℕ → ℕ → List ℕ → List ℕ
decimal zero n acc = acc
decimal (suc fuel) n acc =
    let rest : List ℕ = decimal fuel (n / 10) ((48 + n % 10) ∷ acc) in
    if ltb n 10 then (48 + n) ∷ acc else rest

-- `%d` of an `int` with these bits.
abbrev pub decimal_word : ℕ → List ℕ
decimal_word n = if ltb n (2 ^ 63) then decimal 20 n [] else b'-' ∷ decimal 20 (2 ^ 64 - n) []

-- `ProxyInfo.String`: the text is kept in `Url`. A scheme out of range panics.
unfoldable pub string : ProxyInfo → Option ProxyInfo
unfolding decimal ip_int_to_string
string p = if length p.url == 0 then url p.scheme else some p
  where
    url : ℤ → Option ProxyInfo
    url (negsuc n) = none
    url (pos i) = do
      s ← get_elem? schemes i
      some (record p {
        url =
            s
            ++ (b':' ∷ b'/' ∷ b'/' ∷ p.au
                ++ (ip_int_to_string p.ip_int ++ (b':' ∷ decimal_word p.port)));
      })

-- `self.IpInt<<8 | self.Port`
unfoldable pub key : ProxyInfo → ℕ
key p = bit_or (p.ip_int * 2 ^ 8 % 2 ^ 64) p.port

pub record Row : Type 0 where
  pub ip : ℕ
  pub port : ℕ
  pub scheme : ℤ
  pub au : List ℕ
  pub ord : ℤ

-- What the code asks of the file system and of the table `ProxyPool`, in a state `S`. An error is
-- a number: two errors are the same value or are not.
pub record Db (S : Type 0) : Type 0 where
  pub stat : S → Option ℕ
  pub create : S → S
  pub connect : S → Option ℕ
  pub insert : Row → S → Option ℕ × S
  pub update : Row → S → Option ℕ × S
  pub delete : ℕ → S → Option ℕ × S
  -- The rows with `Ord = 0`, or the others by `Ord`.
  pub query : Bool → S → Option (List Row)

abbrev pub row_of : ProxyInfo → ℕ → Row
row_of p k = record { ip = k; port = p.port; scheme = p.scheme; au = p.au; ord = p.order }

module _ {S : Type 0} (db : Db S) where
  unfoldable pub save_db : ProxyInfo → S → Option ℕ × S
  unfolding key
  save_db p s = elim (db.stat s) [
    | some e ↦ (some e, db.create s)
    | none ↦ elim (db.connect s) [
      | some e ↦ (some e, s)
      | none ↦
          let (err, s') = db.insert (row_of p (key p)) s in
          elim err [ none ↦ (none, s') | some e ↦ db.update (row_of p (key p)) s' ]
    ]
  ]

  unfoldable pub delete_db : ProxyInfo → S → Option ℕ × S
  unfolding key
  delete_db p s = elim (db.connect s) [ some e ↦ (some e, s) | none ↦ db.delete (key p) s ]

-- A scanned row, with `IpInt >> 8`.
unfoldable pub info_of : Row → ProxyInfo
info_of r = record {
  port = r.port;
  scheme = r.scheme;
  au = r.au;
  ip_int = r.ip / 2 ^ 8;
  url = [];
  order = pos 0;
}

module _ {S : Type 0} (db : Db S) where
  unfoldable pub get_proxy_list : Bool → S → Option (List ProxyInfo) × S
  unfolding info_of
  get_proxy_list is_all s = elim (db.stat s) [
    | some e ↦ (none, db.create s)
    | none ↦ elim (db.connect s) [
      | some e ↦ (none, s)
      | none ↦ (do rows ← db.query is_all s; some (map info_of rows), s)
    ]
  ]
