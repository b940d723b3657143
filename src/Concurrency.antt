-- ===== src/Concurrency.antt =====
-- dsac/include/dsac/concurrency and dsac/src/concurrency: each primitive as the interleavings of the
-- threads that use it. A step is one access to shared memory, or a stretch under a mutex.
pub mod Run
pub mod Semaphore
pub mod Mutex
pub mod Barrier
pub mod Mvar
pub mod SharedState
pub mod Pool
pub mod FirstN
pub mod FirstOf
