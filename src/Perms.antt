-- ===== src/Perms.antt =====
-- Permutations of an integral domain: 17-algorithms/permutations (idomain.hpp, permloops.hpp,
-- perms.hpp).
pub mod Idom
pub mod Loops
pub mod Product
pub mod Create
pub mod Permutation
pub mod Groups
pub mod Tests
