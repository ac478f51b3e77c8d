-- ===== src/Service/Total.antt =====
-- Every call of the table is defined on a server that can be used.
pub mod Acts
pub mod Rounds
pub mod Plans
pub mod Keys
