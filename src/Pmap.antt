-- ===== src/Pmap.antt =====
-- kern/pmap.c and kern/pmap.h: the page allocator, the two-level page tables, the boot-time
-- mappings, and the check of user pointers; and the first page directory, of kern/entrypgdir.c.
pub mod Page
pub mod Table
pub mod Boot
pub mod UserMem
pub mod Entry
