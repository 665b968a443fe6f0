-- ===== src/Env.antt =====
-- kern/env.c and kern/sched.c: environments, their ids and their life, and the scheduler.
pub mod Sched
pub mod Lookup
pub mod Life
pub mod Load
