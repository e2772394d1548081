-- ===== src/Mode.antt =====
-- src/channel_mode.c: the MODE command on a channel, from set_channel_mode through the table of modes
-- to the handler of each letter.
pub mod State
pub mod Simple
pub mod Masks
pub mod Ranks
pub mod SetMode
pub mod Loop
pub mod Handled
pub mod Peons
pub mod Counts
pub mod Room
pub mod Seats
pub mod Members
pub mod Operators
pub mod Halfops
pub mod Standing
pub mod Cleared
pub mod Undone
pub mod TakenBack
mod Tests
