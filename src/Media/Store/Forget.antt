-- ===== src/Media/Store/Forget.antt =====
-- Which refs the two clean-ups of the media store forget.
use halfmoon.Base.{
  ℕ, zero, suc, sym, ◌-◌, ◌≡◌, ◌∙◌, refl, ap, subst, inl, inr, Bool, true, false, Option, none,
  some, List, [], ◌∷◌, arith, if◌then◌else◌, ite, ltb, Bool-cases, holds,
}
use halfmoon.Base.Text.{Text, text_dec}
use halfmoon.Base.Assoc.{lookup, lookup-delete}
use halfmoon.Media.Store.{
  MediaEntry, FileMediaStore, entry_path, member, or_no_refs, resolve, with_scopes,
  release_ref_locked, release_refs, release_scope, release_all, unscope, clean_entries,
  clean_expired,
}
use halfmoon.Media.Store.Counts.{Refs, count, Distinct}
use halfmoon.Media.Store.Release.{release_ref_locked-refs}

either :
    {P : Type 0} (d : Dec P) (b : Bool) (x : Option MediaEntry)
    → (if b then none else ite d none x) ≡ (if (if holds d then true else b) then none else x)
either (yes k) true x = refl
either (yes k) false x = refl
either (no k) true x = refl
either (no k) false x = refl

entry_path-if :
    (b : Bool) (x : Option MediaEntry)
    → entry_path (if b then none else x) ≡ (if b then none else entry_path x)
entry_path-if true x = refl
entry_path-if false x = refl

release_refs-lookup :
    (rs : List Text) (s : FileMediaStore) (j : Text)
    → lookup text_dec j (release_refs rs s).0.refs
      ≡ (if member j rs then none else lookup text_dec j s.refs)
unfolding release_refs member
release_refs-lookup [] s j = refl
release_refs-lookup (r ∷ rs) s j =
    release_refs-lookup rs _ j
    ∙ ap (λ x. if member j rs then none else x)
        (ap (lookup text_dec j) (release_ref_locked-refs r _ s) ∙ lookup-delete text_dec r j s.refs)
    ∙ either (text_dec r j) (member j rs) (lookup text_dec j s.refs)

-- ReleaseAll forgets the refs of the scope and no other: afterwards Resolve answers with its error for
-- these, and as before for all others.
pub release_all-resolve :
    (scope : Text) (s : FileMediaStore) (j : Text)
    → resolve j (release_all scope s).0 ≡ (
        if member j (or_no_refs (lookup text_dec scope s.scope_to_refs)) then none else resolve j s)
unfolding release_all resolve
release_all-resolve scope s j = go (lookup text_dec scope s.scope_to_refs)
  where
    go :
        (m : Option (List Text))
        → entry_path (lookup text_dec j (release_scope scope m s).0.refs)
          ≡ (if member j (or_no_refs m) then none else entry_path (lookup text_dec j s.refs))
    go none = unfold release_scope member in refl
    go (some rs) =
        unfold release_scope in
        ap entry_path (release_refs-lookup rs s j)
        ∙ entry_path-if (member j rs) (lookup text_dec j s.refs)

abbrev pub is_stale : ℕ → Option MediaEntry → Bool
is_stale cutoff none = false
is_stale cutoff (some e) = ltb e.stored_at cutoff

stale_first :
    {P : Type 0} (d : Dec P) (cutoff : ℕ) (e : MediaEntry) (m x : Option MediaEntry)
    → (P → m ≡ none)
    → ltb e.stored_at cutoff ≡ true
    → (if is_stale cutoff m then none else ite d none x)
      ≡ (if is_stale cutoff (ite d (some e) m) then none else x)
stale_first (yes k) cutoff e m x h l = rw (h k, l) refl
stale_first (no k) cutoff e m x h l = refl

fresh_first :
    {P : Type 0} (d : Dec P) (cutoff : ℕ) (e : MediaEntry) (m x : Option MediaEntry)
    → (P → m ≡ none)
    → ltb e.stored_at cutoff ≡ false
    → (if is_stale cutoff m then none else x)
      ≡ (if is_stale cutoff (ite d (some e) m) then none else x)
fresh_first (yes k) cutoff e m x h l = rw (h k, l) refl
fresh_first (no k) cutoff e m x h l = refl

clean_entries-lookup :
    (cutoff : ℕ) (es : Refs) (s : FileMediaStore) (j : Text)
    → Distinct es
    → (lookup text_dec j (clean_entries cutoff es s).0.refs
        ≡ (if is_stale cutoff (lookup text_dec j es) then none else lookup text_dec j s.refs))
      × ((clean_entries cutoff es s).1.1 ≡ count (λ e. ltb e.stored_at cutoff) es)
unfolding clean_entries
clean_entries-lookup cutoff [] s j u = unfold lookup in (refl, refl)
clean_entries-lookup cutoff ((r, e) ∷ es) s j u = elim (Bool-cases (ltb e.stored_at cutoff)) [
  | inl l ↦
      let k =
        clean_entries-lookup cutoff es (release_ref_locked r e.path (with_scopes (unscope r s) s)).0
          j u.1 in
      rw (l, clean_entries)
        (
          k.0
              ∙ ap (λ x. if is_stale cutoff (lookup text_dec j es) then none else x)
                  (ap (lookup text_dec j)
                      (release_ref_locked-refs r e.path (with_scopes (unscope r s) s))
                    ∙ lookup-delete text_dec r j s.refs)
              ∙ unfold lookup in
                stale_first (text_dec r j) cutoff e (lookup text_dec j es)
                  (lookup text_dec j s.refs) absent l,
          omega (arith, k.1),
        )
  | inr l ↦
      let k = clean_entries-lookup cutoff es s j u.1 in
      rw (l, clean_entries)
        (
          k.0
              ∙ unfold lookup in
                fresh_first (text_dec r j) cutoff e (lookup text_dec j es)
                  (lookup text_dec j s.refs) absent l,
          omega (arith, k.1),
        )
]
  where
    absent : r ≡ j → lookup text_dec j es ≡ none
    absent i = subst (λ x. lookup text_dec x es ≡ none) i u.0

-- Whether a ref is too old for a maximal age; an age of zero turns the clean-up off.
abbrev pub is_expired : ℕ → ℕ → Option MediaEntry → Bool
is_expired zero now m = false
is_expired (suc age) now m = is_stale (now - suc age) m

count-none : (es : Refs) → count (λ e. false) es ≡ 0
count-none [] = refl
count-none (x ∷ es) = omega (arith, count-none es)

-- With a positive maximal age CleanExpired forgets the refs that were stored longer ago than that and
-- no other, and its result is their number; with an age of zero it forgets none.
pub clean_expired-resolve :
    (max_age now : ℕ) (s : FileMediaStore) (j : Text)
    → Distinct s.refs
    → (resolve j (clean_expired max_age now s).0
        ≡ (if is_expired max_age now (lookup text_dec j s.refs) then none else resolve j s))
      × ((clean_expired max_age now s).1.1 ≡ count (λ e. is_expired max_age now (some e)) s.refs)
unfolding clean_expired resolve
clean_expired-resolve zero now s j u = (refl, sym (count-none s.refs))
clean_expired-resolve (suc age) now s j u =
    let k = clean_entries-lookup (now - suc age) s.refs s j u in
    (
      ap entry_path k.0
          ∙ entry_path-if (is_stale (now - suc age) (lookup text_dec j s.refs))
              (lookup text_dec j s.refs),
      k.1,
    )
