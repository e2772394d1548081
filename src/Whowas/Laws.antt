-- ===== src/Whowas/Laws.antt =====
-- src/whowas.c: the links between slots, hash chains and clients.
use ircd_hybrid_8_cvs.Common.{
  ℕ, ◌-◌, ◌≤◌, ◌≡◌, refl, sym, ap, ◌∙◌, ◌≢◌, inl, inr, Bool, true, ◌&&◌, List, [], ◌∷◌, Option,
  none, some, ◌==◌, arith, Bool-cases, none≢some, take, length, not, ltb, if_elim, take_all, subst,
}
use ircd_hybrid_8_cvs.Text.Compare.{IsText, same_name, same_name_iff}
use ircd_hybrid_8_cvs.Hash.Function.{hash_nick_name, hash_case_blind}
use ircd_hybrid_8_cvs.Whowas.{
  Whowas, History, Person, hash_whowas_name, initwhowas, del_slot, leave_client, reuse, store,
  add_history, forget, forget_all, off_history, search_bucket, get_history,
}
use ircd_hybrid_8_cvs.Whowas.Chains.{count, held, count-del_slot, count-del_slot_ne, assign_self}

-- Every slot stands once in the chain of its hash value and in no other, and once in the list of
-- the client that it knows and in no other; a slot that is not in use knows no client.
pub record IsHistory (w : History) : Type 0 where
  pub hashed : (i h : ℕ) → count i (w.bucket h) ≡ held h (w.slot i).hashv
  pub known : (i c : ℕ) → count i (w.clist c) ≡ held c (w.slot i).online
  pub unused : (i : ℕ) → (w.slot i).hashv ≡ none → (w.slot i).online ≡ none

pub initwhowas-IsHistory : IsHistory initwhowas
unfolding initwhowas
initwhowas-IsHistory = record { hashed = λ i h. refl; known = λ i c. refl; unused = λ i e. refl }

-- The slot is in no list.
record IsFree (w : History) (i : ℕ) : Type 0 where
  unhashed : (h : ℕ) → count i (w.bucket h) ≡ 0
  unknown : (c : ℕ) → count i (w.clist c) ≡ 0

-- Every other slot is in the lists where it belongs.
record Others (w : History) (i : ℕ) : Type 0 where
  hashed : (j h : ℕ) → j ≢ i → count j (w.bucket h) ≡ held h (w.slot j).hashv
  known : (j c : ℕ) → j ≢ i → count j (w.clist c) ≡ held c (w.slot j).online
  unused : (j : ℕ) → j ≢ i → (w.slot j).hashv ≡ none → (w.slot j).online ≡ none

count-leave_client :
    (lists : ℕ → List ℕ) (i : ℕ) (o : Option ℕ) (c : ℕ)
    → count i (lists c) ≡ held c o
    → count i (leave_client lists i o c) ≡ 0
unfolding leave_client
count-leave_client lists i none c h = h
count-leave_client lists i (some o) c h = ground (arith, count-del_slot i (lists o))

count-leave_client_ne :
    (lists : ℕ → List ℕ) (i j : ℕ) (o : Option ℕ) (c : ℕ)
    → j ≢ i
    → count j (leave_client lists i o c) ≡ count j (lists c)
unfolding leave_client
count-leave_client_ne lists i j none c ne = refl
count-leave_client_ne lists i j (some o) c ne = ground (arith, count-del_slot_ne i j (lists o) ne)

forget-IsHistory :
    (w : History) (c i : ℕ) (is : List ℕ)
    → IsHistory w
    → w.clist c ≡ i ∷ is
    → IsHistory (forget w c i) × ((forget w c i).clist c ≡ is)
unfolding forget
forget-IsHistory w c i is v e = (record { hashed = hashed; known = known; unused = unused }, here)
  where
    hashed : (j h : ℕ) → count j (w.bucket h) ≡ held h ((forget w c i).slot j).hashv
    hashed j h = elim (Bool-cases (j == i)) [
      | inl same ↦ ground (arith, v.hashed j h, v.hashed i h)
      | inr other ↦ ground (arith, v.hashed j h)
    ]

    known : (j o : ℕ) → count j ((forget w c i).clist o) ≡ held o ((forget w c i).slot j).online
    known j o = elim (Bool-cases (j == i)) [
      | inl same ↦ ground (arith, v.known i o, v.known i c, ap (count i) e, ap (del_slot i) e)
      | inr other ↦ ground (arith, v.known j o, v.known j c, count-del_slot_ne i j (w.clist c))
    ]

    unused : (j : ℕ) → ((forget w c i).slot j).hashv ≡ none → ((forget w c i).slot j).online ≡ none
    unused j idle = elim (Bool-cases (j == i)) [
      | inl same ↦ ground (arith)
      | inr other ↦ ground (arith, v.unused j, v.unused i)
    ]

    here : (forget w c i).clist c ≡ is
    here = ground (arith, ap (del_slot i) e)

forget_all-IsHistory :
    (c : ℕ) (is : List ℕ) (w : History)
    → IsHistory w
    → w.clist c ≡ is
    → IsHistory (forget_all c is w) × ((forget_all c is w).clist c ≡ [])
unfolding forget_all
forget_all-IsHistory c [] w v e = (v, e)
forget_all-IsHistory c (i ∷ is) w v e =
    let (u, e') = forget-IsHistory w c i is v e in forget_all-IsHistory c is (forget w c i) u e'

-- off_history keeps every link right, and no slot knows the client any more.
pub off_history-IsHistory :
    (w : History) (c : ℕ)
    → IsHistory w
    → IsHistory (off_history w c) × ((i : ℕ) → ((off_history w c).slot i).online ≢ some c)
unfolding off_history
off_history-IsHistory w c v =
    let (u, gone) = forget_all-IsHistory c (w.clist c) w v refl in
    (u, λ i e. ground (arith, u.known i c, ap (count i) gone, ap (held c) e))

found_online :
    (since : ℕ) (slot : ℕ → Whowas) (nick is : List ℕ) (c : ℕ)
    → ((i : ℕ) → (slot i).online ≢ some c)
    → search_bucket since slot nick is ≢ some c
unfolding search_bucket
found_online since slot nick [] c h = none≢some
found_online since slot nick (i ∷ is) c h =
    if_elim (λ o. o ≢ some c) (same_name nick (slot i).name && not (ltb (slot i).logoff since))
      (λ _. h i) (λ _. found_online since slot nick is c h)

-- After off_history of a client, get_history finds it under no nickname and for no limit of time.
pub get_history-off_history :
    (w : History) (c now timelimit : ℕ) (nick : List ℕ)
    → IsHistory w
    → get_history now (off_history w c) nick timelimit ≢ some c
unfolding get_history
get_history-off_history w c now timelimit nick v =
    found_online (now - timelimit) (off_history w c).slot nick
      ((off_history w c).bucket (hash_whowas_name nick)) c (off_history-IsHistory w c v).1

reuse-Others :
    (w : History) (i : ℕ) (o : Option ℕ)
    → IsHistory w
    → (w.slot i).hashv ≡ o
    → IsFree (reuse w i o) i × Others (reuse w i o) i
unfolding reuse
reuse-Others w i none v e = (
  record {
    unhashed = λ h. ground (arith, v.hashed i h);
    unknown = λ c. ground (arith, v.known i c, ap (held c) (v.unused i e));
  },
  record {
    hashed = λ j h ne. v.hashed j h;
    known = λ j c ne. v.known j c;
    unused = λ j ne. v.unused j;
  },
)
reuse-Others w i (some h) v e = (
  record {
    unhashed = λ k. ground (arith, v.hashed i k, v.hashed i h, count-del_slot i (w.bucket h));
    unknown = λ c. count-leave_client w.clist i (w.slot i).online c (v.known i c);
  },
  record {
    hashed =
        λ j k ne. ground (arith, v.hashed j k, v.hashed j h, count-del_slot_ne i j (w.bucket h) ne);
    known = λ j c ne. count-leave_client_ne w.clist i j (w.slot i).online c ne ∙ v.known j c;
    unused = λ j ne. v.unused j;
  },
)

module _ (nicklen now : ℕ) (w : History) (i : ℕ) (c : Person) (online : Bool) (free : IsFree w i)
    (others : Others w i) where
  store-hashed :
      (j h : ℕ)
      → count j ((store nicklen now w i c online).bucket h)
        ≡ held h ((store nicklen now w i c online).slot j).hashv
  unfolding store
  store-hashed j h = elim (Bool-cases (j == i)) [
    | inl same ↦ ground (arith, free.unhashed h)
    | inr other ↦ ground (arith, others.hashed j h)
  ]

  store-known :
      (j o : ℕ)
      → count j ((store nicklen now w i c online).clist o)
        ≡ held o ((store nicklen now w i c online).slot j).online
  unfolding store
  store-known j o = elim (Bool-cases (j == i)) [
    | inl same ↦ ground (arith, free.unknown o)
    | inr other ↦ ground (arith, others.known j o)
  ]

  store-IsHistory : IsHistory (store nicklen now w i c online)
  unfolding store
  store-IsHistory = record { hashed = store-hashed; known = store-known; unused = unused }
    where
      unused :
          (j : ℕ)
          → ((store nicklen now w i c online).slot j).hashv ≡ none
          → ((store nicklen now w i c online).slot j).online ≡ none
      unused j idle = elim (Bool-cases (j == i)) [
        | inl same ↦ ground arith
        | inr other ↦ ground (arith, others.unused j)
      ]

-- add_history keeps every link right, also when it takes a slot that is in use.
pub add_history-IsHistory :
    (nicklen now : ℕ) (w : History) (c : Person) (online : Bool)
    → IsHistory w
    → IsHistory (add_history nicklen now w c online)
unfolding add_history
add_history-IsHistory nicklen now w c online v =
    let (free, others) = reuse-Others w w.next (w.slot w.next).hashv v refl in
    store-IsHistory nicklen now (reuse w w.next (w.slot w.next).hashv) w.next c online free others

one_bucket :
    (s t : List ℕ)
    → IsText s
    → IsText t
    → same_name s t ≡ true
    → hash_whowas_name s ≡ hash_whowas_name t
unfolding hash_whowas_name hash_nick_name
one_bucket s t vs vt same = (hash_case_blind s t ((same_name_iff s t vs vt).0 same)).0

search_bucket_first :
    (since : ℕ) (slot : ℕ → Whowas) (nick : List ℕ) (i : ℕ) (is : List ℕ)
    → same_name nick (slot i).name ≡ true
    → since ≤ (slot i).logoff
    → search_bucket since slot nick (i ∷ is) ≡ (slot i).online
unfolding search_bucket
search_bucket_first since slot nick i is same recent = ground arith

-- After add_history of a client that is online, get_history finds it by every spelling of its
-- nickname that irccmp takes for the same, when the nickname has no more than NICKLEN characters and
-- the limit of time reaches back to the call.
pub get_history-add_history :
    (nicklen now : ℕ) (w : History) (c : Person) (later timelimit : ℕ) (nick : List ℕ)
    → IsText nick
    → IsText c.nick
    → same_name nick c.nick ≡ true
    → length c.nick ≤ nicklen
    → later - timelimit ≤ now
    → get_history later (add_history nicklen now w c true) nick timelimit ≡ some c.ptr
unfolding get_history add_history store
get_history-add_history nicklen now w c later timelimit nick vn vc same short recent =
    rw (one_bucket nick c.nick vn vc same, self (hash_whowas_name c.nick))
      (search_bucket_first (later - timelimit) after.slot nick w.next _
          (ap (λ (e : Whowas). same_name nick e.name) stored
            ∙ ap (same_name nick) (take_all nicklen c.nick short)
            ∙ same)
          (subst (λ (e : Whowas). later - timelimit ≤ e.logoff) (sym stored) recent)
        ∙ ap (λ (e : Whowas). e.online) stored)
  where
    after : History
    after = add_history nicklen now w c true

    self : (n : ℕ) → (n == n) ≡ true
    self n = ground arith

    entry : Whowas
    entry = record {
      hashv = some (hash_whowas_name c.nick);
      name = take nicklen c.nick;
      username = c.user;
      hostname = c.host;
      servername = c.server;
      realname = c.info;
      logoff = now;
      online = some c.ptr;
    }

    stored : after.slot w.next ≡ entry
    stored = assign_self (reuse w w.next (w.slot w.next).hashv).slot w.next entry
