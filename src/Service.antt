-- ===== src/Service.antt =====
-- What an item request asks for and gets, with no memory in it: effects, and the plan of each
-- function of the table.
pub mod Effects
pub mod Meets
pub mod Asks
pub mod Values
pub mod Rows
pub mod Wide
pub mod Everywhere
pub mod Plans
pub mod Table
pub mod Requests
pub mod Late
pub mod Rules
pub mod Shapes
pub mod Connections
pub mod Ages
pub mod Activity
pub mod UserQueries
pub mod Columns
pub mod Calls
pub mod Sequences
pub mod Total
pub mod Messages
pub mod Fields
pub mod Clean
