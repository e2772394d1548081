-- ===== src/Hash.antt =====
-- src/hash.c and include/hash.h: the tables that find clients, channels and reserved channels by
-- name. A chain, linked through a field of its objects, is the list of its objects; an object
-- is a pointer with the fields that the lookups read.
pub mod Function
pub mod Chain
pub mod Client
pub mod Channel
mod Tests
