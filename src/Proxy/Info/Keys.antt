-- ===== src/Proxy/Info/Keys.antt =====
-- The key of a proxy in its table, and the address that is read back from it.
use Prim.Native.Nat.{bit_or}
use route_server.Prelude.{ℕ, ◌+◌, ◌*◌, ◌/◌, ◌%◌, ◌^◌, ◌<◌, ◌≡◌, refl, ap, ◌∙◌, arith}
use route_server.Comm.Address.{bit_or-disjoint}
use route_server.Proxy.Info.{ProxyInfo, key, row_of, info_of}

-- A proxy with a 32-bit address and a port below 256 is read back with its address and its port.
pub info_of-key :
    (p : ProxyInfo)
    → p.ip_int < 2 ^ 32
    → p.port < 2 ^ 8
    → ((info_of (row_of p (key p))).ip_int ≡ p.ip_int)
      × ((info_of (row_of p (key p))).port ≡ p.port)
unfolding key info_of
info_of-key p l s =
    let fits : p.ip_int * 2 ^ 8 % 2 ^ 64 ≡ p.ip_int * 2 ^ 8 = omega arith in
    (
      ap (λ t. bit_or t p.port / 2 ^ 8) fits ∙ omega (arith, bit_or-disjoint 8 p.ip_int p.port s),
      refl,
    )

-- A 32-bit address that ends in a zero byte is read back with the high byte of the 16-bit port added.
pub info_of-key_high :
    (p : ProxyInfo) (net : ℕ)
    → p.ip_int ≡ net * 2 ^ 8
    → p.ip_int < 2 ^ 32
    → p.port < 2 ^ 16
    → (info_of (row_of p (key p))).ip_int ≡ p.ip_int + p.port / 2 ^ 8
unfolding key info_of
info_of-key_high p net e l s =
    let fits : p.ip_int * 2 ^ 8 % 2 ^ 64 ≡ net * 2 ^ 16 = omega arith in
    ap (λ t. bit_or t p.port / 2 ^ 8) fits ∙ omega (arith, bit_or-disjoint 16 net p.port s, e)
