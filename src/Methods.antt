-- ===== src/Methods.antt =====
-- The methods of a socket as Lua code calls them, and the types that doc/socket.md gives to their
-- answers.
pub mod Call
pub mod Types
pub mod Documented
pub mod Ends
pub mod Options
pub mod Groups
pub mod Outgoing
pub mod Plain
pub mod Sending
pub mod Receiving
pub mod Ending
pub mod Typed
