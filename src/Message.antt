-- ===== src/Message.antt =====
-- src/parse.c and include/msg.h: from a line to the call of a command's handler.
pub mod Params
pub mod RoundTrip
pub mod Commands
pub mod CommandLaws
pub mod Dispatch
pub mod Direction
pub mod Written
mod Tests
