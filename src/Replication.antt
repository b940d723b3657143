-- ===== src/Replication.antt =====
-- dsac/examples/dist.registry.replication/src/domains/register: a register replicated over nodes.
pub mod Register
pub mod Cluster
pub mod Coordinator
