-- ===== src/Lib.antt =====
-- ircd-hybrid is an IRC server: one process that waits for its sockets in a loop, reads lines
-- from clients and from other servers, looks up clients and channels by name, and queues lines
-- for other connections. This library models the parts below the IRC commands, the channels, and
-- the MODE command.
--
-- - Linebuf (src/linebuf.c, include/linebuf.h): the receive and send queues of a connection.
--   What read(2) delivers goes through parse (linebuf_parse, with copy_line and copy_raw for
--   linebuf_copy_line and linebuf_copy_raw) into a queue of lines, from which get (linebuf_get)
--   takes lines; put (linebuf_put) adds lines, and flush (linebuf_flush) hands them to write(2),
--   which is a parameter.
-- - Text (src/match.c, include/irc_string.h): the case tables and the character classes, irccmp,
--   collapse, and match (Glob), with the meaning of a mask as a relation (Fits in Masks).
--   Rounds, MaskEnds, Held, Search and GlobLaws follow the loop of match from round to round.
-- - Hash (src/hash.c, include/hash.h): the hash functions and the tables of clients, IDs,
--   channels and reserved channels with their additions, deletions and lookups. They hash with
--   the tables of Text and compare with its irccmp.
-- - FdList (src/fdlist.c, include/fdlist.h): the table of descriptors, with the highest one and
--   the number of open ones. MAXCONNECTIONS, which is configured, is a parameter.
-- - Event (src/event.c, include/event.h): the table of timed events, and the call of it in
--   io_loop (src/ircd.c), as poll. The functions that events call are a parameter.
-- - Whowas (src/whowas.c, include/whowas.h): the history of nicknames, with the links between
--   its slots, its hash chains and the clients.
-- - Class (src/class.c, include/class.h): the list of connection classes.
-- - Message (src/parse.c, include/msg.h, include/parse.h): from a line that Linebuf delivers to
--   the call of a handler. parse_line is parse; string_to_array cuts the parameters, source_of
--   finds the sender in the tables of Hash, run_command and handle_command find and count the
--   command. The table of commands is Commands, with mod_add_cmd, mod_del_cmd and hash_parse;
--   strcasecmp is a parameter, and what POSIX says of it is the hypothesis IsStrcasecmp. What
--   parse has others do (a handler, remove_unknown, cancel_clients, do_numeric) is its outcome.
-- - Channel (src/channel.c, src/channel_mode.c, src/vchannel.c, src/resv.c): Members and Leave
--   have the lists of members of a channel and the operations on them up to destroy_channel; a
--   World holds clients, channels and the hash table of channels of Hash. IsConsistent
--   (Consistent) says that the lists agree; Destroy, Dangling, Leaving, Promote and Joined
--   follow the operations through it. Access has check_banned, can_join and can_send, which
--   search masks with match of Text; BanLaws, JoinLaws and SendLaws compare them with lists of
--   what they ask for. Invites has add_invite and del_invite, Bans pretty_mask, the keys, add_id
--   and del_id.
-- - Mode (src/channel_mode.c, src/sprintf_irc.c): the MODE command on a channel. State has what
--   the handlers share: the world of Channel, the arrays mode_changes_plus, mode_changes_minus
--   and resync_ops as lists, mode_limit, mask_pos, the parameters that are left and what is said
--   to the client. Simple, Masks and Ranks have the chm_ functions, each from its tests to its
--   last write, and SetMode has get_channel_access, ModeTable as mode_table and the loop of
--   set_channel_mode, up to its call of send_mode_changes. They use find_client of Hash,
--   change_channel_membership, add_id, del_id, pretty_mask and the keys of Channel; strtoul of
--   the C library is a parameter. Loop and Handled (with the interface KeepsAll) bring a
--   statement from the branches of the handlers to the whole command; Peons, Room with Counts,
--   Members, Halfops with Operators, Seats, Standing, Undone with Cleared, and TakenBack use
--   them or go into one handler.
-- - Links (src/tools.c, include/tools.h): the dlink_list functions on nodes in memory. IsDlist
--   (Shape) says which nodes with which data a list has, with links that lead forth and back;
--   Laws, Removal, Joining and Moving follow the functions through it. The other parts take a
--   dlink_list as the list of its data.
-- - Common: names of the library, lists and integers over native numbers, and lemmas about them.
--
-- A struct is a record, a linked list is a list of its objects in order, an object is a record
-- with an address, and a pointer that may be NULL is an Option. Bytes are numbers below 256; a C
-- string is the list of its bytes before the NUL. Unsigned arithmetic in the hash functions
-- wraps at 2 ^ 32 as written there. An access outside an array or an assertion that fails is the
-- result none. Assertions that a pointer is not NULL have no counterpart where the model has no
-- pointer, and those on the reference counts of lines belong to the sharing of lines. One read
-- outside an array is not none: for an empty mask match reads the byte before it, and does not
-- use its value. Each queue, table and list is a value that the operations take and return.
--
-- Fuel: parse_loop takes the length of the data as fuel, which is enough since every round takes
-- at least a byte in a well-formed queue. run_from takes MAX_EVENTS rounds, as many as the table
-- has entries at most. match_loop takes the 512 rounds that the code itself allows. find_link
-- and count_nodes take a number of rounds, and one more than the list has nodes is enough.
-- digits_of takes the four groups of three digits that a number of 32 bits has. forget_all and
-- del_invites go through lists that the code takes from the front until they are empty.
--
-- Not modelled: lines that several queues share (linebuf_attach and its reference counts),
-- memory management, printing of statistics, sockets, the resolver, the configuration, the
-- protocol commands but MODE, what is sent to clients and servers (of a MODE command, what
-- send_mode_changes makes of the changes), and the helper process for server links. The meaning
-- of masks is given for masks without a backslash. A vchannel is taken to stand on the list of
-- its root, and a client of a list of members to have a struct User, as destroy_channel and
-- delete_members rely on.
pub mod Common
pub mod Linebuf
pub mod Text
pub mod Hash
pub mod FdList
pub mod Event
pub mod Whowas
pub mod Class
pub mod Message
pub mod Channel
pub mod Mode
pub mod Links
