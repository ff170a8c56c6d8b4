-- ===== src/Collector.antt =====
-- runner/modelproxy/: the proxy that observes each model request, and its ledger.
pub mod Ledger
pub mod Proxy
pub mod Relay
