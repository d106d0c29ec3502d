-- ===== src/Setup.antt =====
-- How a node is put together: commons/net.go and io.go, core/ctrl.go, dht.go, conn.go and mdns.go.
pub mod Keys
pub mod Mdns
pub mod Found
pub mod Discovery
pub mod PubsubRouter
pub mod Node
pub mod Lifecycle
pub mod Created
pub mod Tests
