-- ===== src/Tests.antt =====
-- Runs of the definitions and of the theorems at concrete inputs.
mod Caches
mod Links
mod Sorts
mod Replicas
mod Threads
mod Trees
mod Combinators
mod Tables
mod Sets
mod Dot
mod Pointers
mod Searches
