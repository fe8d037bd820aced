-- ===== src/Suse/Frame.antt =====
-- Conditions that say nothing of threads, processes, queues, mutexes and the network: all the
-- commands of suse.c keep them, but those that change the degree of multiprogramming or a semaphore.
mod Primitives
mod Moves
mod Plan
pub use Primitives.*
pub use Moves.*
pub use Plan.*
