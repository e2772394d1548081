-- ===== src/Hash/Chain.antt =====
-- src/hash.c: one table and its chains, for any type of object. `ptr` is the object's address.
use ircd_hybrid_8_cvs.Common.{
  ℕ, ◌+◌, ◌-◌, ◌≤◌, ◌<◌, ◌≡◌, ap, ◌≢◌, Bool, true, false, List, [], ◌∷◌, ◌++◌, length,
  length-append, Option, none, some, ◌==◌, if◌then◌else◌, arith, All,
}

-- struct HashEntry
pub record HashEntry (A : Type 0) : Type 0 where
  pub hits : ℕ
  pub links : ℕ
  pub list : List A

-- An array of HashEntry, by index.
abbrev pub Table : Type 0 → Type 0
Table A = ℕ → HashEntry A

module _ {A : Type 0} where
  -- memset(table, 0, ...)
  unfoldable pub clear : Table A
  clear i = record { hits = 0; links = 0; list = [] }

  unfoldable pub update : Table A → ℕ → HashEntry A → Table A
  update t i e j = if j == i then e else t j

  -- What the four functions add_to_..._hash_table do at the object's index.
  unfoldable pub add_at : Table A → ℕ → A → Table A
  unfolding update
  add_at t i a =
      update t i (record { hits = (t i).hits + 1; links = (t i).links + 1; list = a ∷ (t i).list })

  -- The loop of the lookups: the first object of the chain that passes the test.
  unfoldable pub find_in : (A → Bool) → List A → Option A
  find_in test [] = none
  find_in test (a ∷ l) = if test a then some a else find_in test l

  module _ (ptr : A → ℕ) where
    -- Whether the loop of a deletion meets the object.
    unfoldable pub holds : ℕ → List A → Bool
    holds p [] = false
    holds p (a ∷ l) = if ptr a == p then true else holds p l

    -- The chain when the object is unlinked from the one before it.
    unfoldable pub unlink : ℕ → List A → List A
    unlink p [] = []
    unlink p (a ∷ l) = if ptr a == p then l else a ∷ unlink p l

    -- What del_from_id_hash_table, del_from_client_hash_table and del_from_channel_hash_table do.
    unfoldable pub del_at : Table A → ℕ → ℕ → Table A
    unfolding update
    del_at t i p =
        if holds p (t i).list
        then update t i
            (record { hits = (t i).hits; links = (t i).links - 1; list = unlink p (t i).list })
        else t

    -- The chain after del_from_resv_hash_table found the object: its loop leaves `prev` NULL, so
    -- the table's list becomes what stands behind the object.
    unfoldable pub behind : ℕ → List A → List A
    behind p [] = []
    behind p (a ∷ l) = if ptr a == p then l else behind p l

    -- del_from_resv_hash_table
    unfoldable pub del_resv_at : Table A → ℕ → ℕ → Table A
    unfolding update
    del_resv_at t i p =
        if holds p (t i).list
        then update t i
            (record { hits = (t i).hits; links = (t i).links - 1; list = behind p (t i).list })
        else t

    -- No object of the chain has this address.
    abbrev pub Absent : ℕ → List A → Type 0
    Absent p = All (λ a. ptr a ≢ p)

    unlink-append :
        (p : ℕ) (l r : List A) (a : A)
        → Absent p l
        → ptr a ≡ p
        → (unlink p (l ++ a ∷ r) ≡ l ++ r)
          × (behind p (l ++ a ∷ r) ≡ r)
          × (holds p (l ++ a ∷ r) ≡ true)
    unfolding unlink behind holds
    unlink-append p [] r a h e = ground arith
    unlink-append p (b ∷ l) r a h e = ground (arith, unlink-append p l r a h.1 e)

    module _ (t : Table A) (i p : ℕ) (l r : List A) (a : A) (e : (t i).list ≡ l ++ a ∷ r)
        (out : Absent p l) (here : ptr a ≡ p) where
      -- In a chain whose links are counted right and where no object before it has the address, a
      -- deletion takes the object out, wherever it stands, and counts one link less; the other objects of the chain keep their order, and the other chains are untouched.
      pub del_at_lem :
          (j : ℕ)
          → j ≢ i
          → (t i).links ≡ length (t i).list
          → ((del_at t i p i).list ≡ l ++ r)
            × ((del_at t i p i).links ≡ length (l ++ r))
            × (del_at t i p j ≡ t j)
      unfolding del_at
      del_at_lem j ne count =
          let (u, b, h) = unlink-append p l r a out here in
          let len = length-append l (a ∷ r) in
          let len' = length-append l r in
          (
            ground (arith, ap (unlink p) e, ap (holds p) e),
            ground (arith, ap (holds p) e, ap length e),
            ground (arith, ap (holds p) e),
          )

      -- del_from_resv_hash_table loses every object that stands before the one it deletes, but
      -- still counts them.
      pub del_resv_at_loses :
          1 ≤ length l
          → (t i).links ≡ length (t i).list
          → ((del_resv_at t i p i).list ≡ r)
            × ((del_resv_at t i p i).links ≡ length l + length r)
            × (length (del_resv_at t i p i).list < (del_resv_at t i p i).links)
      unfolding del_resv_at
      del_resv_at_loses some_before count =
          let (u, b, h) = unlink-append p l r a out here in
          let len = length-append l (a ∷ r) in
          (
            ground (arith, ap (behind p) e, ap (holds p) e),
            ground (arith, ap (holds p) e, ap length e),
            ground (arith, ap (behind p) e, ap (holds p) e, ap length e),
          )

  -- A lookup meets the new object first.
  pub find_in-add_at :
      (test : A → Bool) (t : Table A) (i j : ℕ) (a : A)
      → find_in test (add_at t i a j).list ≡ (
          if j == i
          then (if test a then some a else find_in test (t j).list)
          else find_in test (t j).list)
  unfolding find_in add_at
  find_in-add_at test t i j a = ground arith

  -- Deleting an object that the lookup does not look for does not change what it finds.
  pub find_in-append_skip :
      (test : A → Bool) (l r : List A) (a : A)
      → test a ≡ false
      → find_in test (l ++ a ∷ r) ≡ find_in test (l ++ r)
  unfolding find_in
  find_in-append_skip test [] r a h = rw h
  find_in-append_skip test (b ∷ l) r a h = rw (find_in-append_skip test l r a h)

  pub list-del_at-add_at :
      (ptr : A → ℕ) (t : Table A) (i j : ℕ) (a : A)
      → (del_at ptr (add_at t i a) i (ptr a) j).list ≡ (t j).list
  unfolding del_at add_at holds unlink
  list-del_at-add_at ptr t i j a = ground arith
