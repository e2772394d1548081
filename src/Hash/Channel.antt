-- ===== src/Hash/Channel.antt =====
-- src/hash.c: the table of channels, with get_or_create_channel, and the table of reserved channels.
use ircd_hybrid_8_cvs.Common.{
  ℕ, ◌+◌, ◌≡◌, refl, ap, Bool, true, false, List, [], ◌∷◌, ◌++◌, length, take, Option, none, some,
  arith,
}
use ircd_hybrid_8_cvs.Text.Compare.{IsText, same_name, same_name_iff}
use ircd_hybrid_8_cvs.Hash.Function.{hash_channel_name, hash_resv_channel, hash_case_blind}
use ircd_hybrid_8_cvs.Hash.Chain.{
  Table, add_at, del_at, del_resv_at, del_resv_at_loses, find_in, find_in-add_at, Absent,
}

-- What the tables read of a struct Channel or of a struct ResvChannel.
pub record Named : Type 0 where
  pub ptr : ℕ
  pub name : List ℕ

-- channelTable, GlobalChannelList and Count.chan
pub record Channels : Type 0 where
  pub table : Table Named
  pub global : List Named
  pub count : ℕ

-- CHANNELLEN
abbrev pub channellen : ℕ
channellen = 200

-- hash_find_channel
unfoldable pub hash_find_channel : Channels → List ℕ → Option Named
hash_find_channel s name =
    find_in (λ (c : Named). same_name name c.name) (s.table (hash_channel_name name)).list

-- add_to_channel_hash_table
unfoldable pub add_channel : Table Named → List ℕ → Named → Table Named
add_channel t name c = add_at t (hash_channel_name name) c

-- del_from_channel_hash_table
unfoldable pub del_channel : Table Named → List ℕ → Named → Table Named
del_channel t name c = del_at (λ (d : Named). d.ptr) t (hash_channel_name name) c.ptr

-- The end of get_or_create_channel: a channel at the address `ptr`, that is new.
unfoldable pub create_channel : Channels → ℕ → List ℕ → Channels × Named
create_channel s ptr name =
    let c : Named = record { ptr = ptr; name = name } in
    (record { table = add_channel s.table name c; global = c ∷ s.global; count = s.count + 1 }, c)

-- What get_or_create_channel does behind the cut of the name.
unfoldable pub get_or_create : Channels → ℕ → List ℕ → Channels × Named × Bool
get_or_create s ptr name = elim (hash_find_channel s name) [
  | some c ↦ (s, c, false)
  | none ↦ ((create_channel s ptr name).0, (create_channel s ptr name).1, true)
]

-- get_or_create_channel: `ptr` is what BlockHeapAlloc gives; the last part of the result is
-- `*isnew`, and `none` is NULL, for an empty name.
unfoldable pub get_or_create_channel : Channels → ℕ → List ℕ → Option (Channels × Named × Bool)
get_or_create_channel s ptr [] = none
get_or_create_channel s ptr (c ∷ cs) = some (get_or_create s ptr (take channellen (c ∷ cs)))

-- hash_find_resv
unfoldable pub hash_find_resv : Table Named → List ℕ → Option Named
hash_find_resv t name =
    find_in (λ (c : Named). same_name name c.name) (t (hash_resv_channel name)).list

-- add_to_resv_hash_table
unfoldable pub add_resv : Table Named → List ℕ → Named → Table Named
add_resv t name c = add_at t (hash_resv_channel name) c

-- del_from_resv_hash_table
unfoldable pub del_resv : Table Named → List ℕ → Named → Table Named
del_resv t name c = del_resv_at (λ (d : Named). d.ptr) t (hash_resv_channel name) c.ptr

find_in-first :
    (test : Named → Bool) (c : Named) (l : List Named)
    → test c ≡ true
    → find_in test (c ∷ l) ≡ some c
unfolding find_in
find_in-first test c l h = rw h

find-create_channel :
    (s : Channels) (p : ℕ) (name other : List ℕ)
    → IsText name
    → IsText other
    → same_name other name ≡ true
    → hash_find_channel (create_channel s p name).0 other ≡ some (create_channel s p name).1
unfolding hash_find_channel create_channel add_channel
find-create_channel s p name other vn vo same =
    let c : Named = record { ptr = p; name = name } in
    rw
      (
        find_in-add_at (λ (d : Named). same_name other d.name) s.table (hash_channel_name name)
            (hash_channel_name other) c,
        same,
        (hash_case_blind other name ((same_name_iff other name vo vn).0 same)).1,
      )
      (ground arith)

-- When no channel has the name, get_or_create_channel makes one, puts it on the list of channels
-- and counts it; from then on every spelling of the name finds it, and makes no other.
pub get_or_create_twice :
    (s : Channels) (p q : ℕ) (name other : List ℕ)
    → IsText name
    → IsText other
    → same_name other name ≡ true
    → hash_find_channel s name ≡ none
    → let r = get_or_create s p name in
      (r.2 ≡ true)
      × (r.0.count ≡ s.count + 1)
      × (r.0.global ≡ r.1 ∷ s.global)
      × (get_or_create r.0 q other ≡ (r.0, r.1, false))
unfolding get_or_create create_channel
get_or_create_twice s p q name other vn vo same absent = rw first (refl, refl, refl, twice)
  where
    first :
        get_or_create s p name ≡ ((create_channel s p name).0, (create_channel s p name).1, true)
    first = rw (absent, get_or_create)

    twice :
        get_or_create (create_channel s p name).0 q other
        ≡ ((create_channel s p name).0, (create_channel s p name).1, false)
    twice = rw (find-create_channel s p name other vn vo same, get_or_create)

-- Where the links are counted right, deleting a reserved channel that is not the first of its chain,
-- and whose address none before it has, takes those before it out of the
-- table too: hash_find_resv no longer finds them, though they were not deleted.
pub del_resv-loses :
    (t : Table Named) (l r : List Named) (c d : Named) (name : List ℕ)
    → (t (hash_resv_channel name)).list ≡ (c ∷ l) ++ d ∷ r
    → Absent (λ (n : Named). n.ptr) d.ptr (c ∷ l)
    → (t (hash_resv_channel name)).links ≡ length (t (hash_resv_channel name)).list
    → same_name name c.name ≡ true
    → (hash_find_resv t name ≡ some c)
      × (hash_find_resv (del_resv t name d) name ≡ find_in (λ (n : Named). same_name name n.name) r)
unfolding hash_find_resv del_resv
del_resv-loses t l r c d name e out count same =
    let lost =
      del_resv_at_loses (λ (n : Named). n.ptr) t (hash_resv_channel name) d.ptr (c ∷ l) r d e out
        refl (omega arith) count in
    (
      rw e (find_in-first (λ (n : Named). same_name name n.name) c (l ++ d ∷ r) same),
      ap (find_in (λ (n : Named). same_name name n.name)) lost.0,
    )
