-- ===== src/Mode/Cleared.antt =====
-- src/channel_mode.c: what the loops of chm_halfop leave of the changes and of the entries to resync.
use ircd_hybrid_8_cvs.Common.{
  ℕ, ◌≡◌, refl, Bool, true, false, ◌&&◌, ◌||◌, List, [], ◌∷◌, ◌++◌, ◌==◌, arith, Bool-cases, inl,
  inr,
}
use ircd_hybrid_8_cvs.Mode.State.{Dir, Change, Resync, arg_is, cancel_all}
use ircd_hybrid_8_cvs.Mode.Ranks.{
  is_for, was_noted, is_client, on_resync, forget_resync, settle_resync,
}

-- A kind of changes that has those of a letter for the nick leaves none of them.
pub was_noted-cancel_all :
    (d : ℕ) (opnick : List ℕ) (same : Change → Bool)
    → (0 == d) ≡ false
    → ((x : Change) → is_for d opnick x ≡ true → same x ≡ true)
    → (l : List Change) → was_noted d opnick (cancel_all same l) ≡ false
unfolding was_noted cancel_all is_for
was_noted-cancel_all d opnick same letter covers [] = refl
was_noted-cancel_all d opnick same letter covers (x ∷ l) =
    let rest = was_noted-cancel_all d opnick same letter covers l in
    elim (Bool-cases (same x)) [
      | inl y ↦ rw (y, letter, rest) refl
      | inr n ↦ elim (Bool-cases (x.letter == d && arg_is opnick x.arg)) [
        | inl q ↦ let p = covers x q in absurd (cc)
        | inr q ↦ rw (n, q, rest) refl
      ]
    ]

pub was_noted-snoc :
    (d : ℕ) (opnick : List ℕ) (x : Change)
    → is_for d opnick x ≡ true
    → (l : List Change) → was_noted d opnick (l ++ x ∷ []) ≡ true
unfolding was_noted
was_noted-snoc d opnick x e [] = rw e refl
was_noted-snoc d opnick x e (y ∷ l) = ground (arith, was_noted-snoc d opnick x e l)

-- Some entry is for the client.
abbrev pub has_resync : ℕ → List Resync → Bool
has_resync u [] = false
has_resync u (r ∷ l) = is_client u r.client || has_resync u l

pub has_resync-forget :
    (u : ℕ) (l : List Resync) → has_resync u (on_resync u forget_resync l) ≡ false
unfolding on_resync
has_resync-forget u [] = refl
has_resync-forget u (r ∷ l) = elim (Bool-cases (is_client u r.client)) [
  | inl y ↦ rw (y, has_resync-forget u l) refl
  | inr n ↦ rw (n, has_resync-forget u l, n) refl
]

-- The loop of MODE_ADD leaves none for the client if there is none, or one of its own letter at the end.
pub has_resync-settle :
    (u c : ℕ) (dir : Dir) (send : Bool) (l : List Resync)
    → has_resync u l ≡ false
    → has_resync u (on_resync u (settle_resync dir c send) l) ≡ false
unfolding on_resync
has_resync-settle u c dir send [] h = refl
has_resync-settle u c dir send (r ∷ l) h = elim (Bool-cases (is_client u r.client)) [
  | inl y ↦ absurd (ground arith)
  | inr n ↦ rw (n, has_resync-settle u c dir send l (ground arith), n) refl
]

pub has_resync-settle_last :
    (u c : ℕ) (dir : Dir) (send : Bool) (r : Resync) (l : List Resync)
    → (r.letter == c) ≡ true
    → has_resync u l ≡ false
    → has_resync u (on_resync u (settle_resync dir c send) (l ++ r ∷ [])) ≡ false
unfolding on_resync settle_resync
has_resync-settle_last u c dir send r [] e h = ground arith
has_resync-settle_last u c dir send r (q ∷ l) e h = elim (Bool-cases (is_client u q.client)) [
  | inl y ↦ absurd (ground arith)
  | inr n ↦ rw (n, has_resync-settle_last u c dir send r l e (ground arith), n) refl
]
