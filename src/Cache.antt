-- ===== src/Cache.antt =====
-- cache/lru.hpp, cache/lru-k.hpp, and the items that they hold.
pub mod Keys
pub mod Items
pub mod Lru
pub mod LruK
