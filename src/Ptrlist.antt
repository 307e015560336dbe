-- ===== src/Ptrlist.antt =====
-- ptrlist.c, ptrarray.c: lists and arrays of pointers.
pub mod Ops
pub mod Merge
pub mod Sorted
mod Tests
