-- ===== src/Stl.antt =====
-- utils/stlutil: the generic containers, over Go's built-in map.
pub mod GoMap
pub mod Loops
pub mod Slices
pub mod Map
pub mod HashTable
pub mod HashSet
pub mod Dictionary
pub mod ArrayList
pub mod Tests
