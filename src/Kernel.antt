-- ===== src/Kernel.antt =====
-- kernel/: scheduling, timers, identities and time.
pub mod Sched
pub mod Timer
pub mod Cred
pub mod Time
pub mod Signal
pub mod Action
pub mod Tree
pub mod Exit
