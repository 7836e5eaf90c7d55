-- ===== src/Media/Store/Sound.antt =====
-- What the maps of the media store agree on, and that every operation keeps it.
use halfmoon.Base.{
  ◌⊎◌, ℕ, suc, ◌+◌, ◌≤◌, ◌<◌, ◌≡◌, ◌≢◌, ◌∙◌, refl, sym, subst, inl, inr, Bool, true, false, ◌&&◌,
  not, Option, none, some, [], ◌∷◌, arith, Bool-cases, holds,
}
use halfmoon.Base.Text.{Text, text_dec}
use halfmoon.Base.Assoc.{lookup, insert, lookup-insert, lookup-insert_ne, lookup-insert_self}
use halfmoon.Media.Store.{
  CleanupPolicy, unset, delete_on_cleanup, forget_only, other, MediaMeta, MediaEntry, PathRefState,
  FileMediaStore, normalize_cleanup_policy, is_forget_only, is_delete_on_cleanup, bump, new_entry,
  store_ref, entry_path,
}
use halfmoon.Media.Store.Counts.{Refs, one_if, count, Distinct, count-insert, Distinct-insert}

-- The entry is of the path.
unfoldable pub at : Text → MediaEntry → Bool
at p e = holds (text_dec e.path p)

-- The entry is of the path, and the store must not delete its file.
unfoldable pub lent : Text → MediaEntry → Bool
unfolding at
lent p e = at p e && is_forget_only e.meta.cleanup_policy

-- A path's state counts the path's refs, and does not allow deletion while one of them only lends the
-- file.
abbrev pub Counted : Text → Refs → Option PathRefState → Type 0
Counted p refs none = count (at p) refs ≡ 0
Counted p refs (some st) =
    (st.ref_count ≡ count (at p) refs)
    × ((0 < st.ref_count) × (st.delete_eligible ≡ true → count (lent p) refs ≡ 0))

pub record Sound (s : FileMediaStore) : Type 0 where
  pub distinct : Distinct s.refs
  pub paths : (r : Text) → lookup text_dec r s.ref_to_path ≡ entry_path (lookup text_dec r s.refs)
  pub counted : (p : Text) → Counted p s.refs (lookup text_dec p s.path_states)
  pub named : count (at []) s.refs ≡ 0

pub lent-le : (p : Text) (m : Refs) → count (lent p) m ≤ count (at p) m
unfolding lent
lent-le p [] = omega arith
lent-le p ((r, e) ∷ m) = ground (arith, lent-le p m)

pub at_self : (e : MediaEntry) → at e.path e ≡ true
unfolding at
at_self e = ground arith

pub at-other : (p : Text) (e : MediaEntry) → e.path ≢ p → (at p e ≡ false) × (lent p e ≡ false)
unfolding at lent
at-other p e n = (ground arith, ground arith)

bump-Counted :
    (e : MediaEntry) (refs new : Refs) (m : Option PathRefState)
    → count (at e.path) new ≡ suc (count (at e.path) refs)
    → count (lent e.path) new
      ≡ one_if (is_forget_only e.meta.cleanup_policy) + count (lent e.path) refs
    → is_delete_on_cleanup e.meta.cleanup_policy ≡ not (is_forget_only e.meta.cleanup_policy)
    → count (lent e.path) refs ≤ count (at e.path) refs
    → Counted e.path refs m
    → Counted e.path new (some (bump e.meta.cleanup_policy m))
unfolding bump
bump-Counted e refs new none a l d k c = (ground arith, (omega arith, λ t. ground arith))
bump-Counted e refs new (some st) a l d k c = (
  omega (arith, c),
  (omega arith, λ t. not_lent t (Bool-cases (is_forget_only e.meta.cleanup_policy))),
)
  where
    not_lent :
        (bump e.meta.cleanup_policy (some st)).delete_eligible ≡ true
        → (is_forget_only e.meta.cleanup_policy ≡ true)
          ⊎ (is_forget_only e.meta.cleanup_policy ≡ false)
        → count (lent e.path) new ≡ 0
    not_lent t (inl f) = absurd (let p = c.1.0 in ground arith)
    not_lent t (inr f) = let p = c.1.0 in let z = c.1.1 (ground arith) in ground arith

pub Counted-same :
    (p : Text) (refs new : Refs) (m : Option PathRefState)
    → count (at p) new ≡ count (at p) refs
    → count (lent p) new ≡ count (lent p) refs
    → Counted p refs m
    → Counted p new m
Counted-same p refs new none a l c = a ∙ c
Counted-same p refs new (some st) a l c = (c.0 ∙ sym a, (c.1.0, λ t. l ∙ c.1.1 t))

normalized_policy :
    (c : CleanupPolicy)
    → is_delete_on_cleanup (normalize_cleanup_policy c)
      ≡ not (is_forget_only (normalize_cleanup_policy c))
normalized_policy unset = refl
normalized_policy delete_on_cleanup = refl
normalized_policy forget_only = refl
normalized_policy other = refl

-- Storing a path under a ref that is not in use keeps the agreement.
pub store_ref-Sound :
    (local_path : Text) (meta : MediaMeta) (scope ref : Text) (now : ℕ) (s : FileMediaStore)
    → local_path ≢ []
    → lookup text_dec ref s.refs ≡ none
    → Sound s
    → Sound (store_ref local_path meta scope ref now s)
unfolding store_ref
store_ref-Sound local_path meta scope ref now s ne fresh snd = record {
  distinct = Distinct-insert ref new s.refs snd.distinct;
  paths = λ r. ground (
    arith,
    lookup-insert text_dec ref r local_path s.ref_to_path,
    snd.paths r,
    lookup-insert text_dec ref r new s.refs,
  );
  counted = λ p. elim (text_dec local_path p) [
    | yes e ↦ subst after e stored
    | no n ↦
        let a = at-other p new n in
        subst (Counted p (insert text_dec ref new s.refs))
          (sym (lookup-insert_ne text_dec local_path p _ s.path_states n))
          (Counted-same p s.refs (insert text_dec ref new s.refs) (lookup text_dec p s.path_states)
            (let c = count-insert (at p) ref new s.refs fresh in ground arith)
            (let c = count-insert (lent p) ref new s.refs fresh in ground arith) (snd.counted p))
  ];
  named =
      let c = count-insert (at []) ref new s.refs fresh in
      let a = at-other [] new ne in ground (arith, snd.named);
}
  where
    new : MediaEntry
    new = new_entry local_path meta now

    after : Text → Type 0
    after q = Counted q (insert text_dec ref new s.refs) (
        lookup text_dec q (
          insert text_dec local_path
            (bump (normalize_cleanup_policy meta.cleanup_policy)
              (lookup text_dec local_path s.path_states))
            s.path_states))

    one_lent : one_if (lent local_path new) ≡ one_if (is_forget_only new.meta.cleanup_policy)
    one_lent = let a = at_self new in unfold lent in ground arith

    stored : after local_path
    stored =
        subst (Counted local_path (insert text_dec ref new s.refs))
          (sym (lookup-insert_self text_dec local_path _ s.path_states))
          (bump-Counted new s.refs (insert text_dec ref new s.refs)
            (lookup text_dec local_path s.path_states)
            (let c = count-insert (at local_path) ref new s.refs fresh in
              let a = at_self new in ground arith)
            (let c = count-insert (lent local_path) ref new s.refs fresh in
              let a = one_lent in ground arith)
            (normalized_policy meta.cleanup_policy) (lent-le local_path s.refs)
            (snd.counted local_path))
