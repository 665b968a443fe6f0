-- ===== src/Syscall.antt =====
-- kern/syscall.c: the system calls on environments, on pages and on messages, and their dispatch.
pub mod Envs
pub mod Pages
pub mod Ipc
pub mod Dispatch
