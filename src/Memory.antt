-- ===== src/Memory.antt =====
-- C's dynamic memory: one store for each type of object, commands that read and write it, and
-- doubly linked lists in a store.
pub mod Store
pub mod Run
pub mod Chain
pub mod Relink
pub mod Rotate
