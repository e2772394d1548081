-- ===== src/Class.antt =====
-- src/class.c and include/class.h: the connection classes. ClassList is never empty: it starts with
-- the class that initclass makes, and the classes behind it are the list `rest`.
pub mod Laws
pub mod Ping
mod Tests
use ircd_hybrid_8_cvs.Common.{
  ℕ, Bool, true, false, List, [], ◌∷◌, Option, none, some, ltb, ◌==◌, ◌&&◌, if◌then◌else◌,
}
use ircd_hybrid_8_cvs.Common.Int.{ℤ, pos, negsuc, ltb_ℤ}
use ircd_hybrid_8_cvs.Hash.Client.{same_text}

-- struct Class less its link; `servname` and `servport` are not used.
pub record Class : Type 0 where
  pub class_name : List ℕ
  pub class_type : ℤ
  pub con_freq : ℤ
  pub ping_freq : ℤ
  pub max_links : ℤ
  pub max_sendq : ℤ
  pub links : ℕ

pub record ClassList : Type 0 where
  pub first : Class
  pub rest : List Class

-- DEFAULT_SENDQ, DEFAULT_PINGFREQUENCY and DEFAULT_CONNECTFREQUENCY
abbrev pub default_sendq : ℤ
default_sendq = pos 9000000

abbrev pub default_ping_frequency : ℤ
default_ping_frequency = pos 120

abbrev pub default_connect_frequency : ℤ
default_connect_frequency = pos 600

-- Whether a number is negative, and whether it is positive.
abbrev pub negative : ℤ → Bool
negative (pos n) = false
negative (negsuc n) = true

abbrev pub positive : ℤ → Bool
positive (pos n) = ltb 0 n
positive (negsuc n) = false

-- initclass; `maximum_links` is ConfigFileEntry.maximum_links
unfoldable pub initclass : ℤ → ClassList
initclass maximum_links = record {
  first = record {
    class_name = b'd' ∷ b'e' ∷ b'f' ∷ b'a' ∷ b'u' ∷ b'l' ∷ b't' ∷ [];
    class_type = pos 0;
    con_freq = default_connect_frequency;
    ping_freq = default_ping_frequency;
    max_links = maximum_links;
    max_sendq = default_sendq;
    links = 0;
  };
  rest = [];
}

-- The loop of find_class behind the first class.
unfoldable pub find_rest : List ℕ → List Class → Option Class
find_rest name [] = none
find_rest name (c ∷ cs) = if same_text c.class_name name then some c else find_rest name cs

-- find_class; `none` is NULL
unfoldable pub find_class : ClassList → Option (List ℕ) → Class
unfolding find_rest
find_class s none = s.first
find_class s (some name) =
    if same_text s.first.class_name name
    then s.first
    else elim (find_rest name s.rest) [ none ↦ s.first | some c ↦ c ]

-- The assignments of add_class.
abbrev pub settle : List ℕ → ℤ → ℤ → ℤ → ℤ → Class → Class
settle name ping confreq maxli sendq c = record c {
  class_name = name;
  con_freq = confreq;
  ping_freq = ping;
  max_links = maxli;
  max_sendq = if positive sendq then sendq else default_sendq;
}

-- make_class, with `Links(p) = 0`; MyMalloc gives zeroes.
abbrev pub make_class : Class
make_class = record {
  class_name = [];
  class_type = pos 0;
  con_freq = pos 0;
  ping_freq = pos 0;
  max_links = pos 0;
  max_sendq = pos 0;
  links = 0;
}

-- The list when the assignments go to the class that find_class finds behind the first.
unfoldable pub settle_found : List ℕ → (Class → Class) → List Class → List Class
settle_found name f [] = []
settle_found name f (c ∷ cs) =
    if same_text c.class_name name then f c ∷ cs else c ∷ settle_found name f cs

-- add_class; it takes `t == ClassList` for "not found".
unfoldable pub add_class : ClassList → Option (List ℕ) → ℤ → ℤ → ℤ → ℤ → ClassList
unfolding settle_found find_rest
add_class s none ping confreq maxli sendq = s
add_class s (some name) ping confreq maxli sendq =
    let f : Class → Class = settle name ping confreq maxli sendq in
    record s {
      rest =
          if same_text s.first.class_name name
          then f make_class ∷ s.rest
          else elim (find_rest name s.rest) [
            | none ↦ f make_class ∷ s.rest
            | some c ↦ settle_found name f s.rest
          ];
    }

-- What the loop of check_class leaves in the list behind the first class, and what it frees.
unfoldable pub check_rest : List Class → List Class × List Class
check_rest [] = ([], [])
check_rest (c ∷ cs) =
    let (kept, freed) = check_rest cs in
    if negative c.max_links
    then (if c.links == 0 then (kept, c ∷ freed) else (kept, freed))
    else (c ∷ kept, freed)

-- check_class; `none` is the use of the first class after it was freed.
unfoldable pub check_class : ClassList → Option (ClassList × List Class)
unfolding check_rest
check_class s =
    if negative s.first.max_links && s.first.links == 0
    then none
    else some (record s { rest = (check_rest s.rest).0 }, (check_rest s.rest).1)

-- get_sendq of a local client: the classes of its confs, where `none` is a conf without a class;
-- `retc` stays BAD_CLIENT_CLASS. A send queue size fits an int here.
unfoldable pub sendq_of : ℤ → List (Option Class) → ℤ
sendq_of sendq [] = sendq
sendq_of sendq (none ∷ confs) = sendq_of sendq confs
sendq_of sendq (some cl ∷ confs) =
    sendq_of (if ltb_ℤ (negsuc 2) cl.class_type then cl.max_sendq else sendq) confs

unfoldable pub get_sendq : List (Option Class) → ℤ
unfolding sendq_of
get_sendq confs = sendq_of default_sendq confs

-- What is read of a struct ConfItem: `status & (CONF_CLIENT | CONF_SERVER)`, its class and the name
-- of its class.
pub record Conf : Type 0 where
  pub client_or_server : Bool
  pub c_class : Option Class
  pub conf_class_name : Option (List ℕ)

-- get_conf_ping of a conf that is not NULL; `none` is BAD_PING.
unfoldable pub get_conf_ping : Conf → Option ℤ
get_conf_ping conf = elim conf.c_class [ none ↦ none | some c ↦ some c.ping_freq ]

-- `(ping2 != BAD_PING) && ping2 > 0`; BAD_PING, -2, is not positive either.
abbrev pub better_ping : ℤ → Option ℤ → ℤ
better_ping ping none = ping
better_ping ping (some p) = if positive p then p else ping

-- The loop of get_client_ping over the confs of the client.
unfoldable pub ping_of : ℤ → List Conf → ℤ
unfolding get_conf_ping
ping_of ping [] = ping
ping_of ping (conf ∷ confs) =
    ping_of (if conf.client_or_server then better_ping ping (get_conf_ping conf) else ping) confs

unfoldable pub get_client_ping : List Conf → ℤ
unfolding ping_of
get_client_ping confs = ping_of default_ping_frequency confs

-- The loop of get_client_class over the confs of a local client, and its result without any.
unfoldable pub class_of : List ℕ → List Conf → List ℕ
class_of retc [] = retc
class_of retc (conf ∷ confs) =
    class_of
      (elim conf.conf_class_name [
        | none ↦ b'd' ∷ b'e' ∷ b'f' ∷ b'a' ∷ b'u' ∷ b'l' ∷ b't' ∷ []
        | some name ↦ name
      ])
      confs

unfoldable pub get_client_class : List Conf → List ℕ
unfolding class_of
get_client_class confs = class_of (b'u' ∷ b'n' ∷ b'k' ∷ b'n' ∷ b'o' ∷ b'w' ∷ b'n' ∷ []) confs

-- get_con_freq
unfoldable pub get_con_freq : Option Class → ℤ
get_con_freq none = default_connect_frequency
get_con_freq (some c) = c.con_freq
