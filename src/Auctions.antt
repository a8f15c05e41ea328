-- ===== src/Auctions.antt =====
-- The functions of server/aux_functions.c on the directories of auctions, one module for each family.
pub mod Files
pub mod Lifecycle
pub mod Bids
pub mod Create
pub mod Listing
pub mod Record
pub mod Asset
pub mod Sound
pub mod Growth
