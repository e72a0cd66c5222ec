-- ===== src/Intrusive.antt =====
-- 01-basics/lru-in-c-datastructs: the cache in C whose list and table are links inside of the entries.
pub mod IntMap
pub mod Links
pub mod Pool
pub mod Tests
