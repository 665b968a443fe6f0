-- ===== src/User.antt =====
-- The user library: lib/fork.c, lib/pgfault.c and lib/ipc.c, over the kernel as an interface.
pub mod System
pub mod Fork
pub mod CopyOnWrite
pub mod Ipc
