-- ===== src/Media/Store/Files.antt =====
-- The files on disk that the media store's refs stand for, through any run of whole calls; and what a
-- Store between the two phases of ReleaseAll loses.
use halfmoon.Base.{
  ◌⊎◌, ◌∙◌, ℕ, ◌≡◌, ◌≢◌, refl, ap, subst, inl, inr, Bool, true, false, Option, none, some, List, [],
  ◌∷◌, arith, if◌then◌else◌, All, Bool-cases, holds,
}
use halfmoon.Base.Text.{Text, text_dec}
use halfmoon.Base.Assoc.{lookup, lookup-insert_self}
use halfmoon.Media.Store.{
  MediaMeta, MediaEntry, PathRefState, release_path, release_state, release_ref_locked,
  release_scope, release_refs, or_path, without_ref, add_path, FileMediaStore, new_file_media_store,
  entry_path, new_entry, store, store_ref, resolve, release_all, clean_expired, remove_files,
}
use halfmoon.Media.Store.Counts.{Refs, count, count-insert, count-delete}
use halfmoon.Media.Store.Sound.{Counted, at, at_self, at-other, Sound, store_ref-Sound}
use halfmoon.Media.Store.Release.{Eligible, Released}
use halfmoon.Media.Store.Refs.{release_all-Released, clean_expired-Released}

abbrev pub Disk : Type 0
Disk = Text → Bool

abbrev set_file : Text → Disk → Disk
set_file p disk q = if holds (text_dec p q) then true else disk q

-- The states that whole calls lead to, from an empty store: any other program only adds files, no file
-- has the empty path, and a new ref is one that is not in use.
pub data Reachable (can_remove : Disk) : FileMediaStore → Disk → Type 0 where
  started : (disk : Disk) → disk [] ≡ false → Reachable can_remove new_file_media_store disk
  added :
      {s : FileMediaStore} {disk : Disk} (p : Text)
      → p ≢ []
      → Reachable can_remove s disk
      → Reachable can_remove s (set_file p disk)
  stored :
      {s after : FileMediaStore} {disk : Disk} (local_path : Text) (meta : MediaMeta)
      (scope ref : Text) (now : ℕ)
      → resolve ref s ≡ none
      → store disk local_path meta scope ref now s ≡ some after
      → Reachable can_remove s disk
      → Reachable can_remove after disk
  released_all :
      {s : FileMediaStore} {disk : Disk} (scope : Text)
      → Reachable can_remove s disk
      → Reachable can_remove
          (release_all scope s).0
          (remove_files can_remove (release_all scope s).1 disk)
  expired :
      {s : FileMediaStore} {disk : Disk} (max_age now : ℕ)
      → Reachable can_remove s disk
      → Reachable can_remove
          (clean_expired max_age now s).0
          (remove_files can_remove (clean_expired max_age now s).1.0 disk)

-- The maps agree, and the file of every ref is there.
pub record Kept (s : FileMediaStore) (disk : Disk) : Type 0 where
  pub sound : Sound s
  unnamed : disk [] ≡ false
  on_disk : (p : Text) → disk p ≡ false → count (at p) s.refs ≡ 0

remove_files-gone :
    (can_remove disk : Disk) (ps : List Text) (q : Text)
    → remove_files can_remove ps disk q ≡ false
    → (P : Text → Type 0) → All P ps
    → (disk q ≡ false) ⊎ P q
unfolding remove_files
remove_files-gone can_remove disk [] q h P a = inl h
remove_files-gone can_remove disk (p ∷ ps) q h P a = elim (text_dec p q) [
  | yes e ↦ inr (subst P e a.0)
  | no n ↦ remove_files-gone can_remove disk ps q (ground arith) P a.1
]

remove_files-no_more :
    (can_remove disk : Disk) (ps : List Text) (q : Text)
    → disk q ≡ false
    → remove_files can_remove ps disk q ≡ false
unfolding remove_files
remove_files-no_more can_remove disk [] q h = h
remove_files-no_more can_remove disk (p ∷ ps) q h =
    ground (arith, remove_files-no_more can_remove disk ps q h)

Kept-Released :
    (can_remove disk : Disk) (s after : FileMediaStore) (ps : List Text)
    → Kept s disk
    → Released s after ps
    → Kept after (remove_files can_remove ps disk)
Kept-Released can_remove disk s after ps k r = record {
  sound = r.sound;
  unnamed = remove_files-no_more can_remove disk ps [] k.unnamed;
  on_disk = λ p h. elim (remove_files-gone can_remove disk ps p h _ r.gone) [
    | inl d ↦ (let f = r.fewer (at p) in omega (arith, k.on_disk p d))
    | inr g ↦ g.0
  ];
}

stored_path :
    (disk : Disk) (local_path : Text) (meta : MediaMeta) (scope ref : Text) (now : ℕ)
    (s after : FileMediaStore)
    → store disk local_path meta scope ref now s ≡ some after
    → (disk local_path ≡ true) × (store_ref local_path meta scope ref now s ≡ after)
unfolding store
stored_path disk local_path meta scope ref now s after h = elim (Bool-cases (disk local_path)) [
  | inl d ↦ (d, cc)
  | inr d ↦ absurd (cc)
]

no_entry : (m : Option MediaEntry) → entry_path m ≡ none → m ≡ none
no_entry none h = refl
no_entry (some e) h = absurd (cc)

not_in_use :
    (ref : Text) (s : FileMediaStore) → resolve ref s ≡ none → lookup text_dec ref s.refs ≡ none
unfolding resolve
not_in_use ref s h = no_entry (lookup text_dec ref s.refs) h

Kept-store_ref :
    (disk : Disk) (local_path : Text) (meta : MediaMeta) (scope ref : Text) (now : ℕ)
    (s : FileMediaStore)
    → disk local_path ≡ true
    → lookup text_dec ref s.refs ≡ none
    → Kept s disk
    → Kept (store_ref local_path meta scope ref now s) disk
unfolding store_ref
Kept-store_ref disk local_path meta scope ref now s d h k = record {
  sound = store_ref-Sound local_path meta scope ref now s named h k.sound;
  unnamed = k.unnamed;
  on_disk = λ p f.
      let a = at-other p (new_entry local_path meta now) (λ z. other p f z) in
      let c = count-insert (at p) ref (new_entry local_path meta now) s.refs h in
      ground (arith, k.on_disk p f);
}
  where
    other : (p : Text) → disk p ≡ false → local_path ≢ p
    other p f z = let t = subst (λ x. disk x ≡ true) z d in cc

    named : local_path ≢ []
    named z = other [] k.unnamed z

pub Reachable-Kept :
    (can_remove : Disk) (s : FileMediaStore) (disk : Disk)
    → Reachable can_remove s disk
    → Kept s disk
Reachable-Kept can_remove s disk (started d u) = record {
  sound = record {
    distinct = tt;
    paths = λ r. unfold lookup in refl;
    counted = λ p. unfold lookup in refl;
    named = refl;
  };
  unnamed = u;
  on_disk = λ p f. refl;
}
Reachable-Kept can_remove s disk (added p n r) =
    let k = Reachable-Kept can_remove s _ r in
    record {
      sound = k.sound;
      unnamed = (let u = k.unnamed in ground arith);
      on_disk = λ q f. k.on_disk q (ground arith);
    }
Reachable-Kept can_remove s disk (stored local_path meta scope ref now h e r) =
    let k = Reachable-Kept can_remove _ disk r in
    let (d, eq) = stored_path disk local_path meta scope ref now _ s e in
    subst (λ x. Kept x disk) eq
      (Kept-store_ref disk local_path meta scope ref now _ d (not_in_use ref _ h) k)
Reachable-Kept can_remove s disk (released_all scope r) =
    let k = Reachable-Kept can_remove _ _ r in
    Kept-Released can_remove _ _ _ _ k (release_all-Released scope _ k.sound)
Reachable-Kept can_remove s disk (expired max_age now r) =
    let k = Reachable-Kept can_remove _ _ r in
    Kept-Released can_remove _ _ _ _ k (clean_expired-Released max_age now _ k.sound)

-- In every state that whole calls of Store, ReleaseAll and CleanExpired lead to, whichever removals
-- succeed, a ref that Resolve knows stands for a file that is on disk, as long as no other program
-- removes files.
pub resolve-file :
    (can_remove : Disk) (s : FileMediaStore) (disk : Disk) (ref p : Text)
    → Reachable can_remove s disk
    → resolve ref s ≡ some p
    → disk p ≡ true
unfolding resolve
resolve-file can_remove s disk ref p r h =
    go (lookup text_dec ref s.refs) refl h (Bool-cases (disk p))
  where
    k : Kept s disk
    k = Reachable-Kept can_remove s disk r

    go :
        (m : Option MediaEntry)
        → lookup text_dec ref s.refs ≡ m
        → entry_path m ≡ some p
        → (disk p ≡ true) ⊎ (disk p ≡ false)
        → disk p ≡ true
    go m l e (inl d) = d
    go none l e (inr d) = absurd (cc)
    go (some x) l e (inr d) =
        let c = count-delete (at p) ref x s.refs k.sound.distinct l in
        let path_eq : x.path ≡ p = cc in
        let a = subst (λ q. at q x ≡ true) path_eq (at_self x) in
        let z = k.on_disk p d in absurd (ground arith)

release_path-last :
    (p : Text) (refs : Refs) (s : FileMediaStore) (o : Option PathRefState)
    → lookup text_dec p s.path_states ≡ o
    → Counted p refs o
    → count (at p) refs ≡ 1
    → Eligible o
    → p ≢ []
    → (release_path p s).1 ≡ some p
unfolding release_path
release_path-last [] refs s o l c n e h = absurd (h refl)
release_path-last (x ∷ p) refs s none l c n e h = absurd e
release_path-last (x ∷ p) refs s (some st) l c n e h =
    ap (λ m. (release_state (x ∷ p) m s).1) l ∙ unfold release_state in ground arith

release_ref_locked-last :
    (ref fallback p : Text) (s : FileMediaStore)
    → Sound s
    → resolve ref s ≡ some p
    → count (at p) s.refs ≡ 1
    → Eligible (lookup text_dec p s.path_states)
    → (release_ref_locked ref fallback s).1 ≡ some p
unfolding release_ref_locked resolve
release_ref_locked-last ref fallback p s k h n e =
    ap (λ m. (release_path (or_path m fallback) (without_ref ref s)).1) (k.paths ref ∙ h)
    ∙ release_path-last p s.refs (without_ref ref s) _ refl (k.counted p) n e named
  where
    named : p ≢ []
    named z =
        let c = subst (λ q. count (at q) s.refs ≡ 1) z n in let d = k.named in absurd (omega arith)

release_all-last :
    (scope ref p : Text) (s : FileMediaStore)
    → Sound s
    → lookup text_dec scope s.scope_to_refs ≡ some (ref ∷ [])
    → resolve ref s ≡ some p
    → count (at p) s.refs ≡ 1
    → Eligible (lookup text_dec p s.path_states)
    → (release_all scope s).1 ≡ p ∷ []
unfolding release_all release_scope release_refs
release_all-last scope ref p s k l h n e =
    ap (λ m. (release_scope scope m s).1) l
    ∙ ap (λ o. add_path o []) (release_ref_locked-last ref _ p s k h n e)

-- The second phase of ReleaseAll runs without the lock. Take a scope with one ref, the only one of its
-- path, whose file the store may delete, in any state that whole calls lead to. A Store of that path
-- between the two phases succeeds, since the file is still there, and Resolve answers its new ref with
-- the path; the second phase then removes the file, when the removal succeeds.
pub store-between :
    (can_remove disk : Disk) (scope scope2 ref fresh p : Text) (meta : MediaMeta) (now : ℕ)
    (s : FileMediaStore)
    → Reachable can_remove s disk
    → lookup text_dec scope s.scope_to_refs ≡ some (ref ∷ [])
    → resolve ref s ≡ some p
    → count (at p) s.refs ≡ 1
    → Eligible (lookup text_dec p s.path_states)
    → can_remove p ≡ true
    → let released = release_all scope s in
      let after = store_ref p meta scope2 fresh now released.0 in
      (store disk p meta scope2 fresh now released.0 ≡ some after)
      × (resolve fresh after ≡ some p)
      × (remove_files can_remove released.1 disk p ≡ false)
unfolding store
store-between can_remove disk scope scope2 ref fresh p meta now s r l h n e c = (
  rw (resolve-file can_remove s disk ref p r h) refl,
  unfold store_ref resolve in
      ap entry_path
        (lookup-insert_self text_dec fresh (new_entry p meta now) (release_all scope s).0.refs),
  ap (λ ps. remove_files can_remove ps disk p)
        (release_all-last scope ref p s (Reachable-Kept can_remove s disk r).sound l h n e)
      ∙ unfold remove_files text_dec in ground arith,
)
