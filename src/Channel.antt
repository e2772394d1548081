-- ===== src/Channel.antt =====
-- src/channel.c, src/channel_mode.c and src/vchannel.c: who is on a channel and in which standing,
-- invitations, and who may join and speak.
pub mod Members
pub mod Leave
pub mod Lists
pub mod Consistent
pub mod Destroy
pub mod Leaving
pub mod Dangling
pub mod Promote
pub mod Joined
pub mod Access
pub mod BanLaws
pub mod JoinLaws
pub mod SendLaws
pub mod Invites
pub mod Bans
pub mod BanLists
pub mod MaskText
mod Tests
