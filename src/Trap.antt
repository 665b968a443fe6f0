-- ===== src/Trap.antt =====
-- kern/trap.c: the gates, the dispatch of a trap, and page faults of user environments.
pub mod Gates
pub mod UserStack
pub mod Fault
pub mod Dispatch
pub mod Leaves
pub mod Stack
pub mod Pushed
pub mod Upcall
use cs3510_operating_systems.Common.{}
