-- ===== src/Whowas.antt =====
-- src/whowas.c and include/whowas.h: the history of nicknames. A slot of the array WHOWAS is its
-- index; the chains of WHOWASHASH and the lists in the `whowas` fields of the clients, which are
-- linked through the slots, are the lists of the slots in them, by index or by the client's address.
pub mod Chains
pub mod Laws
mod Tests
use ircd_hybrid_8_cvs.Common.{
  ℕ, zero, suc, ◌+◌, ◌-◌, ◌%◌, Bool, true, false, ◌&&◌, List, [], ◌∷◌, Option, none, some, ltb,
  ◌==◌, if◌then◌else◌, take, not,
}
use ircd_hybrid_8_cvs.Text.Chars.{to_lower}
use ircd_hybrid_8_cvs.Text.Compare.{same_name}
use ircd_hybrid_8_cvs.Hash.Function.{hash_fold}

-- WW_MAX and NICKNAMEHISTORYLENGTH
abbrev pub ww_max : ℕ
ww_max = 65536

abbrev pub history_length : ℕ
history_length = 15000

-- struct Whowas less its links; `hashv` is `none` for -1.
pub record Whowas : Type 0 where
  pub hashv : Option ℕ
  pub name : List ℕ
  pub username : List ℕ
  pub hostname : List ℕ
  pub servername : List ℕ
  pub realname : List ℕ
  pub logoff : ℕ
  pub online : Option ℕ

-- WHOWAS, WHOWASHASH, the `whowas` fields of the clients, and whowas_next
pub record History : Type 0 where
  pub slot : ℕ → Whowas
  pub bucket : ℕ → List ℕ
  pub clist : ℕ → List ℕ
  pub next : ℕ

-- What add_history reads of a struct Client; `info` is the real name.
pub record Person : Type 0 where
  pub ptr : ℕ
  pub nick : List ℕ
  pub user : List ℕ
  pub host : List ℕ
  pub info : List ℕ
  pub server : List ℕ

-- hash_whowas_name
unfoldable pub hash_whowas_name : List ℕ → ℕ
hash_whowas_name name = hash_fold to_lower 0 name % ww_max

-- initwhowas, before there are clients
unfoldable pub initwhowas : History
initwhowas = record {
  slot = λ i. record {
    hashv = none;
    name = [];
    username = [];
    hostname = [];
    servername = [];
    realname = [];
    logoff = 0;
    online = none;
  };
  bucket = λ h. [];
  clist = λ c. [];
  next = 0;
}

-- An assignment to an array at an index, or to a field of the object at an address.
unfoldable pub assign {ℓ} : {A : Type ℓ} → (ℕ → A) → ℕ → A → ℕ → A
assign t i a j = if j == i then a else t j

-- del_whowas_from_clist and del_whowas_from_list
unfoldable pub del_slot : ℕ → List ℕ → List ℕ
del_slot i [] = []
del_slot i (j ∷ js) = if j == i then js else j ∷ del_slot i js

-- add_whowas_to_clist or add_whowas_to_list
unfoldable pub add_slot : (ℕ → List ℕ) → ℕ → ℕ → ℕ → List ℕ
unfolding assign
add_slot lists k i = assign lists k (i ∷ lists k)

-- del_whowas_from_clist for the client that the slot knows, if any
unfoldable pub leave_client : (ℕ → List ℕ) → ℕ → Option ℕ → ℕ → List ℕ
unfolding assign del_slot
leave_client lists i none = lists
leave_client lists i (some c) = assign lists c (del_slot i (lists c))

-- What add_history does first: a slot in use leaves the lists that it is in.
unfoldable pub reuse : History → ℕ → Option ℕ → History
unfolding assign del_slot leave_client
reuse w i none = w
reuse w i (some h) = record w {
  clist = leave_client w.clist i (w.slot i).online;
  bucket = assign w.bucket h (del_slot i (w.bucket h));
}

-- What add_history does then; `nicklen` is NICKLEN, which configure sets.
unfoldable pub store : ℕ → ℕ → History → ℕ → Person → Bool → History
unfolding assign add_slot
store nicklen now w i c online = record w {
  slot = assign w.slot i (record {
    hashv = some (hash_whowas_name c.nick);
    name = take nicklen c.nick;
    username = c.user;
    hostname = c.host;
    servername = c.server;
    realname = c.info;
    logoff = now;
    online = if online then some c.ptr else none;
  });
  clist = if online then add_slot w.clist c.ptr i else w.clist;
  bucket = add_slot w.bucket (hash_whowas_name c.nick) i;
  next = if i + 1 == history_length then 0 else i + 1;
}

-- add_history
unfoldable pub add_history : ℕ → ℕ → History → Person → Bool → History
unfolding reuse store
add_history nicklen now w c online =
    store nicklen now (reuse w w.next (w.slot w.next).hashv) w.next c online

-- The body of the loop of off_history.
unfoldable pub forget : History → ℕ → ℕ → History
unfolding assign del_slot
forget w c i = record w {
  slot = assign w.slot i (record (w.slot i) { online = none });
  clist = assign w.clist c (del_slot i (w.clist c));
}

-- The loop of off_history, over the slots that are left.
unfoldable pub forget_all : ℕ → List ℕ → History → History
unfolding forget
forget_all c [] w = w
forget_all c (i ∷ is) w = forget_all c is (forget w c i)

-- off_history, of the client at the address `c`
unfoldable pub off_history : History → ℕ → History
off_history w c = forget_all c (w.clist c) w

-- The loop of get_history.
unfoldable pub search_bucket : ℕ → (ℕ → Whowas) → List ℕ → List ℕ → Option ℕ
search_bucket since slot nick [] = none
search_bucket since slot nick (i ∷ is) =
    if same_name nick (slot i).name && not (ltb (slot i).logoff since)
    then (slot i).online
    else search_bucket since slot nick is

-- get_history; no entry is older than the time 0.
unfoldable pub get_history : ℕ → History → List ℕ → ℕ → Option ℕ
unfolding search_bucket
get_history now w nick timelimit =
    search_bucket (now - timelimit) w.slot nick (w.bucket (hash_whowas_name nick))
