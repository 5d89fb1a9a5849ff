-- ===== src/Lang.antt =====
-- src/libs/lang: exceptions and assertions as values, and the allocator's view of memory.
pub mod Memory
pub mod Returns
pub mod Result
pub mod Array
