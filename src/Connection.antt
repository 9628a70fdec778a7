-- ===== src/Connection.antt =====
-- connection.rs: the connection that C holds, and the calls on it.
pub mod State
pub mod Tls
pub mod Plaintext
pub mod Getters
pub mod Packets
pub mod Transfer
pub mod Nulls
pub mod Data
pub mod Callbacks
pub mod Keeping
pub mod Script
pub mod Bodies
pub mod Returning
pub mod Lending
pub mod Life
pub mod Ending
pub mod Serving
