-- ===== src/Container.antt =====
-- The standard containers that the program keeps its state in. A map is a list of its entries and a
-- set a list of its elements, both in the order in which a loop meets them.
pub mod Map
pub mod IdSet
pub mod PositionSet
pub mod Laws
