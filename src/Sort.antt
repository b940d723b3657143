-- ===== src/Sort.antt =====
-- The quadratic sorts of dsac/include/dsac/algorithm: the order that their `comp` stands for, and
-- what a sorted range is.
pub mod Order
pub mod Bubble
pub mod Insertion
pub mod Selection
pub mod Check
pub mod Merge
