-- ===== src/Suse.antt =====
-- planificador/suse.c: the scheduler of user-level threads.
pub mod State
pub mod Run
pub mod Transitions
pub mod Scheduler
pub mod Semaphores
pub mod Joins
pub mod Metrics
pub mod Close
pub mod Requests
pub mod Eval
pub mod Logic
pub mod Frame
pub mod Semaforo
pub mod Multiprog
pub mod Cierre
