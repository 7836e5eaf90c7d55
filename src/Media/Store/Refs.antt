-- ===== src/Media/Store/Refs.antt =====
-- The two clean-ups of the media store: ReleaseAll and CleanExpired.
use halfmoon.Base.{
  ℕ, zero, suc, ◌-◌, ◌≡◌, refl, sym, ap, subst, inl, inr, Option, none, some, List, [], ◌∷◌, arith,
  ltb, All, Bool-cases,
}
use halfmoon.Base.Text.{Text, text_dec}
use halfmoon.Base.Assoc.{lookup, delete, lookup-delete}
use halfmoon.Media.Store.{
  MediaEntry, FileMediaStore, with_scopes, release_ref_locked, fallback_path, add_path,
  release_refs, release_scope, release_all, unscope, clean_entries, clean_expired,
}
use halfmoon.Media.Store.Counts.{Refs, count, Distinct}
use halfmoon.Media.Store.Sound.{at, Sound}
use halfmoon.Media.Store.Release.{
  Eligible, Released, release_ref_locked-Released, release_ref_locked-refs,
}

with_scopes-Sound :
    (m : List (Text × List Text)) (s : FileMediaStore) → Sound s → Sound (with_scopes m s)
with_scopes-Sound m s snd = record {
  distinct = snd.distinct;
  paths = snd.paths;
  counted = snd.counted;
  named = snd.named;
}

Released-none : (s : FileMediaStore) → Sound s → Released s s []
Released-none s snd = record { sound = snd; gone = tt; sticky = λ p k. k; fewer = λ q. omega arith }

-- Two releases, one behind the other.
module _ (s s1 s2 : FileMediaStore) where
  gone_then :
      (ps : List Text)
      → ((p : Text)
          → Eligible (lookup text_dec p s1.path_states)
          → Eligible (lookup text_dec p s.path_states))
      → All (λ p. (count (at p) s2.refs ≡ 0) × Eligible (lookup text_dec p s1.path_states)) ps
      → All (λ p. (count (at p) s2.refs ≡ 0) × Eligible (lookup text_dec p s.path_states)) ps
  gone_then [] f a = tt
  gone_then (p ∷ ps) f a = ((a.0.0, f p a.0.1), gone_then ps f a.1)

  Released-trans :
      (p : Option Text) (ps : List Text)
      → Released s s1 (add_path p [])
      → Released s1 s2 ps
      → Released s s2 (add_path p ps)
  Released-trans p ps a b = record {
    sound = b.sound;
    gone = add p a.gone;
    sticky = λ q k. a.sticky q (b.sticky q k);
    fewer = λ q. (let k = a.fewer q in let l = b.fewer q in omega arith);
  }
    where
      add :
          (p : Option Text)
          → All
              (λ p. (count (at p) s1.refs ≡ 0) × Eligible (lookup text_dec p s.path_states))
              (add_path p [])
          → All
              (λ p. (count (at p) s2.refs ≡ 0) × Eligible (lookup text_dec p s.path_states))
              (add_path p ps)
      add none k = gone_then ps a.sticky b.gone
      add (some p) k = (
        ((let l = b.fewer (at p) in let m = k.0.0 in omega arith), k.0.1),
        gone_then ps a.sticky b.gone,
      )

release_refs-Released :
    (rs : List Text) (s : FileMediaStore)
    → Sound s
    → Released s (release_refs rs s).0 (release_refs rs s).1
unfolding release_refs
release_refs-Released [] s snd = Released-none s snd
release_refs-Released (r ∷ rs) s snd =
    let one = release_ref_locked-Released r (fallback_path (lookup text_dec r s.refs)) s snd refl in
    Released-trans s _ _ _ _ one (release_refs-Released rs _ one.sound)

rescoped :
    (m : List (Text × List Text)) (s after : FileMediaStore) (ps : List Text)
    → Released s after ps
    → Released s (with_scopes m after) ps
rescoped m s after ps k = record {
  sound = with_scopes-Sound m after k.sound;
  gone = k.gone;
  sticky = k.sticky;
  fewer = k.fewer;
}

pub release_all-Released :
    (scope : Text) (s : FileMediaStore)
    → Sound s
    → Released s (release_all scope s).0 (release_all scope s).1
unfolding release_all
release_all-Released scope s snd = go (lookup text_dec scope s.scope_to_refs)
  where
    go :
        (m : Option (List Text))
        → Released s (release_scope scope m s).0 (release_scope scope m s).1
    go none = unfold release_scope in Released-none s snd
    go (some rs) = unfold release_scope in rescoped _ s _ _ (release_refs-Released rs s snd)

-- The entries of the list stand in the store.
abbrev Stand : Refs → FileMediaStore → Type 0
Stand es s = All (λ p. lookup text_dec p.0 s.refs ≡ some p.1) es

Stand-more :
    (r : Text) (e : MediaEntry) (m : Refs) (es : Refs)
    → lookup text_dec r es ≡ none
    → All (λ p. lookup text_dec p.0 m ≡ some p.1) es
    → All (λ p. lookup text_dec p.0 ((r, e) ∷ m) ≡ some p.1) es
unfolding lookup
Stand-more r e m [] h a = tt
Stand-more r e m ((j, d) ∷ es) h a = (ground (arith, a.0), Stand-more r e m es (ground arith) a.1)

Stand-self : (m : Refs) → Distinct m → All (λ p. lookup text_dec p.0 m ≡ some p.1) m
unfolding lookup
Stand-self [] u = tt
Stand-self ((r, e) ∷ m) u = (ground arith, Stand-more r e m m u.0 (Stand-self m u.1))

Stand-delete :
    (r : Text) (m : Refs) (es : Refs)
    → lookup text_dec r es ≡ none
    → All (λ p. lookup text_dec p.0 m ≡ some p.1) es
    → All (λ p. lookup text_dec p.0 (delete text_dec r m) ≡ some p.1) es
unfolding lookup
Stand-delete r m [] h a = tt
Stand-delete r m ((j, d) ∷ es) h a =
    (ground (arith, a.0, lookup-delete text_dec r j m), Stand-delete r m es (ground arith) a.1)

clean_entries-Released :
    (cutoff : ℕ) (es : Refs) (s : FileMediaStore)
    → Distinct es
    → Stand es s
    → Sound s
    → Released s (clean_entries cutoff es s).0 (clean_entries cutoff es s).1.0
unfolding clean_entries
clean_entries-Released cutoff [] s u a snd = Released-none s snd
clean_entries-Released cutoff ((r, e) ∷ es) s u a snd = elim (Bool-cases (ltb e.stored_at cutoff)) [
  | inr l ↦ rw (l, clean_entries) (clean_entries-Released cutoff es s u.1 a.1 snd)
  | inl l ↦
      rw (l, clean_entries)
        (Released-trans s _ _ _ _ one (
          clean_entries-Released cutoff es _ u.1
            (subst (λ m. All (λ p. lookup text_dec p.0 m ≡ some p.1) es)
              (sym (release_ref_locked-refs r e.path scoped)) (Stand-delete r s.refs es u.0 a.1))
            one.sound))
]
  where
    scoped : FileMediaStore
    scoped = with_scopes (unscope r s) s

    one :
        Released s
          (release_ref_locked r e.path scoped).0
          (add_path (release_ref_locked r e.path scoped).1 [])
    one =
        let k =
          release_ref_locked-Released r e.path scoped (with_scopes-Sound (unscope r s) s snd)
            (sym (ap fallback_path a.0)) in
        record { sound = k.sound; gone = k.gone; sticky = k.sticky; fewer = k.fewer }

pub clean_expired-Released :
    (max_age now : ℕ) (s : FileMediaStore)
    → Sound s
    → Released s (clean_expired max_age now s).0 (clean_expired max_age now s).1.0
unfolding clean_expired
clean_expired-Released zero now s snd = Released-none s snd
clean_expired-Released (suc age) now s snd =
    clean_entries-Released (now - suc age) s.refs s snd.distinct (Stand-self s.refs snd.distinct)
      snd
