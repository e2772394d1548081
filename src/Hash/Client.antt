-- ===== src/Hash/Client.antt =====
-- src/hash.c: the tables of clients by nickname or server name and by ID.
use ircd_hybrid_8_cvs.Common.{
  ℕ, ◌≡◌, refl, inl, inr, Bool, true, false, ◌&&◌, ◌||◌, List, [], ◌∷◌, take, Option, none, some,
  ◌==◌, if◌then◌else◌, arith, Bool-cases,
}
use ircd_hybrid_8_cvs.Text.Compare.{IsText, same_name, same_name_iff}
use ircd_hybrid_8_cvs.Hash.Function.{hash_nick_name, hash_id, hash_case_blind}
use ircd_hybrid_8_cvs.Hash.Chain.{
  Table, clear, add_at, del_at, find_in, find_in-add_at, list-del_at-add_at,
}

-- What the tables read of a struct Client: its address, its name, the ID of its struct User if it
-- has one, and whether it is a server (or this server).
pub record Client : Type 0 where
  pub ptr : ℕ
  pub name : List ℕ
  pub id : Option (List ℕ)
  pub server : Bool

-- clientTable and idTable
pub record Tables : Type 0 where
  pub clients : Table Client
  pub ids : Table Client

-- clear_client_hash_table and clear_id_hash_table, as init_hash calls them
unfoldable pub init_tables : Tables
init_tables = record { clients = clear; ids = clear }

-- add_to_client_hash_table
unfoldable pub add_client : Tables → List ℕ → Client → Tables
add_client t name c = record t { clients = add_at t.clients (hash_nick_name name) c }

-- add_to_id_hash_table
unfoldable pub add_id : Tables → List ℕ → Client → Tables
add_id t id c = record t { ids = add_at t.ids (hash_id id) c }

-- del_from_client_hash_table
unfoldable pub del_client : Tables → List ℕ → Client → Tables
del_client t name c = record t {
  clients = del_at (λ (d : Client). d.ptr) t.clients (hash_nick_name name) c.ptr;
}

-- del_from_id_hash_table
unfoldable pub del_id : Tables → List ℕ → Client → Tables
del_id t id c = record t { ids = del_at (λ (d : Client). d.ptr) t.ids (hash_id id) c.ptr }

-- strcmp(a, b) == 0
unfoldable pub same_text : List ℕ → List ℕ → Bool
same_text [] [] = true
same_text [] (b ∷ t) = false
same_text (a ∷ s) [] = false
same_text (a ∷ s) (b ∷ t) = a == b && same_text s t

-- found_client->user && strcmp(name, found_client->user->id) == 0
abbrev pub has_id : List ℕ → Option (List ℕ) → Bool
has_id name none = false
has_id name (some id) = same_text name id

-- find_id
unfoldable pub find_id : Tables → List ℕ → Option Client
find_id t name = find_in (λ (c : Client). has_id name c.id) (t.ids (hash_id name)).list

-- The search of find_client in the chain of the name.
unfoldable pub find_nick : Tables → List ℕ → Option Client
find_nick t name =
    find_in (λ (c : Client). same_name name c.name) (t.clients (hash_nick_name name)).list

-- *name == '.'
abbrev pub is_id : List ℕ → Bool
is_id [] = false
is_id (c ∷ cs) = c == b'.'

-- find_client
unfoldable pub find_client : Tables → List ℕ → Option Client
find_client t name = if is_id name then find_id t name else find_nick t name

-- The loop of hash_find_masked_server: for each dot of the name, the rest from there with a star in
-- front.
unfoldable pub find_masked : Tables → List ℕ → Option Client
find_masked t [] = none
find_masked t (c ∷ cs) =
    let rest = find_masked t cs in
    if c == b'.'
    then elim (find_client t (b'*' ∷ c ∷ cs)) [ some s ↦ some s | none ↦ rest ]
    else rest

-- HOSTLEN
abbrev pub hostlen : ℕ
hostlen = 63

-- hash_find_masked_server
unfoldable pub hash_find_masked_server : Tables → List ℕ → Option Client
hash_find_masked_server t [] = none
hash_find_masked_server t (c ∷ cs) =
    if c == b'*' || c == b'.' then none else find_masked t (take hostlen (c ∷ cs))

-- find_server, for a name that is not NULL
unfoldable pub find_server : Tables → List ℕ → Option Client
find_server t name =
    elim (find_in (λ (c : Client). c.server && same_name name c.name)
      (t.clients (hash_nick_name name)).list) [
        | some s ↦ some s
        | none ↦ hash_find_masked_server t name
      ]

-- A client that was added under its name is found under every spelling of the name that irccmp
-- takes for the same, and a lookup of any other name finds what it found before; the name looked up
-- is no ID (one that starts with a dot).
pub find_client-add_client :
    (t : Tables) (c : Client) (name : List ℕ)
    → IsText name
    → IsText c.name
    → is_id name ≡ false
    → find_client (add_client t c.name c) name
      ≡ (if same_name name c.name then some c else find_client t name)
unfolding find_client find_nick add_client
find_client-add_client t c name vn vc plain =
    let test = λ (d : Client). same_name name d.name in
    rw (plain, find_in-add_at test t.clients (hash_nick_name c.name) (hash_nick_name name) c)
      (elim (Bool-cases (same_name name c.name)) [
        | inr differ ↦ rw differ (ground arith)
        | inl same ↦
            rw (same, (hash_case_blind name c.name ((same_name_iff name c.name vn vc).0 same)).0)
              (ground arith)
      ])

-- A client that is added and then deleted leaves every lookup as it was.
pub find_client-del_client :
    (t : Tables) (c : Client) (name : List ℕ)
    → find_client (del_client (add_client t c.name c) c.name c) name ≡ find_client t name
unfolding find_client find_nick add_client del_client find_id
find_client-del_client t c name = rw (list_back (hash_nick_name name)) refl
  where
    list_back :
        (j : ℕ)
        → (del_at
            (λ (d : Client). d.ptr)
            (add_at t.clients (hash_nick_name c.name) c)
            (hash_nick_name c.name)
            c.ptr
            j).list
          ≡ (t.clients j).list
    list_back j = list-del_at-add_at (λ (d : Client). d.ptr) t.clients (hash_nick_name c.name) j c
