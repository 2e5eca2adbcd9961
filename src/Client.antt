-- ===== src/Client.antt =====
-- The SMSC process, smpp-smsc: it takes the submits of smpp-esme, routes each to a connection to an
-- upstream SMSC, and keeps the window of submits that the SMSC has not answered.
pub mod Calls
pub mod Msg
pub mod Conn
pub mod Send
pub mod Status
pub mod Outgoing
pub mod Mis
pub mod Receipt
pub mod Handle
pub mod Io
pub mod Rout
pub mod Router
pub mod Request
mod Tests
