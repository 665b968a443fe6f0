-- ===== src/Monitor.antt =====
-- The kernel monitor's command line: `readline` of lib/readline.c and `runcmd` of kern/monitor.c.
pub mod Readline
pub mod Typed
pub mod Edited
pub mod Command
pub mod Blanks
pub mod Words
pub mod Arguments
