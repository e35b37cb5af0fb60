-- ===== src/Proxy.antt =====
-- The proxy pool: proxies and their table (proxyPool/ProxyInfo.go), and the pool of one client
-- (proxyPool/proxy.go).
pub mod Info
pub mod Check
pub mod Pool
pub mod Relay
pub mod Calls
