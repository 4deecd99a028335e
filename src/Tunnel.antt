-- ===== src/Tunnel.antt =====
-- pkg/tunnel/manager.go: the registry of local tunnels, the buffer pool of a tunnel, its
-- statistics, and the copying of data over one connection.
pub mod Registry
pub mod Buffers
pub mod Stats
pub mod Copy
