-- ===== src/Client.antt =====
-- The client: client/aux_functions.c, client/functions.c and client/client.c.
pub mod Buffer
pub mod Listing
pub mod Network
pub mod Lists
pub mod Requests
pub mod Answers
pub mod Record
pub mod Session
pub mod Asset
pub mod Words
pub mod Connection
pub mod Open
pub mod Commands
pub mod Main
