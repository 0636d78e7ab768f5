-- ===== src/Ring/Hash.antt =====
-- lib/chmstructure.tcc, chmpxlist_lap::UpdateHash: the numbering of the servers that it leaves in
-- the nodes and in the base hash array.
pub mod Step
mod Loop
pub use Loop.*
