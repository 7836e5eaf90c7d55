-- ===== src/Media/Store/Release.antt =====
-- Releasing one ref of the media store.
use halfmoon.Base.{
  suc, ◌+◌, ◌-◌, ◌≤◌, ◌≡◌, ◌≢◌, ◌∙◌, refl, sym, ap, subst, inl, inr, Bool, true, false, Option,
  none, some, List, [], ◌∷◌, arith, if◌then◌else◌, leb, All, Bool-cases,
}
use halfmoon.Base.Text.{Text, text_dec}
use halfmoon.Base.Assoc.{
  lookup, insert, delete, lookup-insert_ne, lookup-insert_self, lookup-delete,
}
use halfmoon.Media.Store.{
  MediaEntry, PathRefState, FileMediaStore, with_path_states, without_ref, release_state,
  release_path, or_path, release_ref_locked, fallback_path, add_path,
}
use halfmoon.Media.Store.Counts.{one_if, count, delete-absent, count-delete, Distinct-delete}
use halfmoon.Media.Store.Sound.{at, lent, Counted, Sound, at_self, at-other, Counted-same}

-- The path's state lets the store delete the file.
abbrev pub Eligible : Option PathRefState → Type 0
Eligible none = ⊥
Eligible (some st) = st.delete_eligible ≡ true

-- The agreement is kept, no ref is added, no path becomes one to delete, and the paths to delete have
-- no ref left.
pub record Released (s after : FileMediaStore) (removed : List Text) : Type 0 where
  pub sound : Sound after
  pub gone :
      All (λ p. (count (at p) after.refs ≡ 0) × Eligible (lookup text_dec p s.path_states)) removed
  pub sticky :
      (p : Text)
      → Eligible (lookup text_dec p after.path_states)
      → Eligible (lookup text_dec p s.path_states)
  pub fewer : (q : MediaEntry → Bool) → count q after.refs ≤ count q s.refs

release_absent :
    (r : Text) (s : FileMediaStore)
    → Sound s
    → lookup text_dec r s.refs ≡ none
    → Released s (without_ref r s) []
release_absent r s snd h = record {
  sound = record {
    distinct = Distinct-delete r s.refs snd.distinct;
    paths = λ j. ground (
      arith,
      lookup-delete text_dec r j s.refs,
      lookup-delete text_dec r j s.ref_to_path,
      snd.paths j,
    );
    counted = λ p.
        subst (λ m. Counted p m (lookup text_dec p s.path_states)) (sym same_refs) (snd.counted p);
    named = ap (count (at [])) same_refs ∙ snd.named;
  };
  gone = tt;
  sticky = λ p k. k;
  fewer = λ q. (let e = ap (count q) same_refs in omega arith);
}
  where
    same_refs : delete text_dec r s.refs ≡ s.refs
    same_refs = delete-absent r s.refs h

module _ (r : Text) (e : MediaEntry) (s : FileMediaStore) (snd : Sound s)
    (h : lookup text_dec r s.refs ≡ some e) where
  counted_one :
      (q : MediaEntry → Bool) → count q s.refs ≡ one_if (q e) + count q (delete text_dec r s.refs)
  counted_one q = count-delete q r e s.refs snd.distinct h

  has_path : e.path ≢ []
  has_path z =
      let c = counted_one (at []) in
      let a = subst (λ p. at p e ≡ true) z (at_self e) in let n = snd.named in ground arith

  -- What is left to show of the new states of the paths.
  released :
      (ps : List (Text × PathRefState)) (removed : List Text)
      → ((p : Text) → e.path ≢ p → lookup text_dec p ps ≡ lookup text_dec p s.path_states)
      → Counted e.path (delete text_dec r s.refs) (lookup text_dec e.path ps)
      → All
          (λ p.
            (count (at p) (delete text_dec r s.refs) ≡ 0)
            × Eligible (lookup text_dec p s.path_states))
          removed
      → (Eligible (lookup text_dec e.path ps) → Eligible (lookup text_dec e.path s.path_states))
      → Released s (with_path_states ps (without_ref r s)) removed
  released ps removed others own gone sticky = record {
    sound = record {
      distinct = Distinct-delete r s.refs snd.distinct;
      paths = λ j. ground (
        arith,
        lookup-delete text_dec r j s.refs,
        lookup-delete text_dec r j s.ref_to_path,
        snd.paths j,
      );
      counted = λ p. elim (text_dec e.path p) [
        | yes k ↦ subst (λ x. Counted x (delete text_dec r s.refs) (lookup text_dec x ps)) k own
        | no n ↦
            let a = at-other p e n in
            subst (Counted p (delete text_dec r s.refs)) (sym (others p n)) (
              Counted-same p s.refs (delete text_dec r s.refs) (lookup text_dec p s.path_states)
                (let c = counted_one (at p) in ground arith)
                (let c = counted_one (lent p) in ground arith) (snd.counted p))
      ];
      named = (let c = counted_one (at []) in let n = snd.named in omega arith);
    };
    gone = gone;
    sticky = λ p. elim (text_dec e.path p) [
      | yes k ↦
          subst (λ x. Eligible (lookup text_dec x ps) → Eligible (lookup text_dec x s.path_states))
            k sticky
      | no n ↦ subst Eligible (others p n)
    ];
    fewer = λ q. (let c = counted_one q in omega arith);
  }

  own_count : count (at e.path) s.refs ≡ suc (count (at e.path) (delete text_dec r s.refs))
  own_count = let c = counted_one (at e.path) in let a = at_self e in ground arith

  abbrev removed_of : PathRefState → List Text
  removed_of st = add_path (if st.delete_eligible then some e.path else none) []

  release_last :
      (st : PathRefState)
      → lookup text_dec e.path s.path_states ≡ some st
      → Counted e.path s.refs (some st)
      → leb st.ref_count 1 ≡ true
      → Released s
          (with_path_states (delete text_dec e.path s.path_states) (without_ref r s))
          (removed_of st)
  release_last st k c l =
      released (delete text_dec e.path s.path_states) (removed_of st)
        (λ p n. ground (arith, lookup-delete text_dec e.path p s.path_states))
        (subst (Counted e.path (delete text_dec r s.refs)) (sym none_left) left)
        (gone st.delete_eligible (λ d. subst Eligible (sym k) d))
        (λ d. absurd (subst Eligible none_left d))
    where
      left : count (at e.path) (delete text_dec r s.refs) ≡ 0
      left = let o = own_count in let n = c.0 in ground arith

      none_left : lookup text_dec e.path (delete text_dec e.path s.path_states) ≡ none
      none_left = ground (arith, lookup-delete text_dec e.path e.path s.path_states)

      gone :
          (b : Bool)
          → (b ≡ true → Eligible (lookup text_dec e.path s.path_states))
          → All
              (λ p.
                (count (at p) (delete text_dec r s.refs) ≡ 0)
                × Eligible (lookup text_dec p s.path_states))
              (add_path (if b then some e.path else none) [])
      gone true d = ((left, d refl), tt)
      gone false d = tt

  release_shared :
      (st : PathRefState)
      → lookup text_dec e.path s.path_states ≡ some st
      → Counted e.path s.refs (some st)
      → leb st.ref_count 1 ≡ false
      → Released s
          (with_path_states
            (insert text_dec e.path
              (record { ref_count = st.ref_count - 1; delete_eligible = st.delete_eligible })
              s.path_states)
            (without_ref r s))
          []
  release_shared st k c l =
      released _ [] (λ p n. lookup-insert_ne text_dec e.path p _ s.path_states n)
        (subst (Counted e.path (delete text_dec r s.refs))
          (sym (lookup-insert_self text_dec e.path _ s.path_states))
          (
            (let o = own_count in let n = c.0 in ground arith),
            (
              ground arith,
              λ t. (let z = c.1.1 t in let d = counted_one (lent e.path) in omega arith),
            ),
          ))
        tt
        (λ d.
          subst Eligible (sym k)
            (subst Eligible (lookup-insert_self text_dec e.path _ s.path_states) d))

  release_present :
      (m : Option PathRefState)
      → lookup text_dec e.path s.path_states ≡ m
      → Counted e.path s.refs m
      → Released s
          (release_state e.path m (without_ref r s)).0
          (add_path (release_state e.path m (without_ref r s)).1 [])
  unfolding release_state
  release_present none k c = absurd (let o = own_count in omega (arith, c))
  release_present (some st) k c = elim (Bool-cases (leb st.ref_count 1)) [
    | inl l ↦ rw l (release_last st k c l)
    | inr l ↦ rw l (release_shared st k c l)
  ]

  release_own :
      Released s
        (release_path e.path (without_ref r s)).0
        (add_path (release_path e.path (without_ref r s)).1 [])
  release_own =
      subst (λ x. Released s x.0 (add_path x.1 [])) (sym (go e.path has_path))
        (release_present (lookup text_dec e.path s.path_states) refl (snd.counted e.path))
    where
      go :
          (p : Text)
          → p ≢ []
          → release_path p (without_ref r s)
            ≡ release_state p (lookup text_dec p s.path_states) (without_ref r s)
      go [] n = absurd (n refl)
      go (c ∷ p) n = unfold release_path in refl

-- Releasing a ref, with the path of its entry to fall back on as both callers do.
pub release_ref_locked-Released :
    (r fallback : Text) (s : FileMediaStore)
    → Sound s
    → fallback ≡ fallback_path (lookup text_dec r s.refs)
    → Released s
        (release_ref_locked r fallback s).0
        (add_path (release_ref_locked r fallback s).1 [])
unfolding release_ref_locked
release_ref_locked-Released r fallback s snd f = go (lookup text_dec r s.refs) refl
  where
    go :
        (m : Option MediaEntry)
        → lookup text_dec r s.refs ≡ m
        → Released s
            (release_path (or_path (lookup text_dec r s.ref_to_path) fallback) (without_ref r s)).0
            (add_path
              (release_path
                (or_path (lookup text_dec r s.ref_to_path) fallback)
                (without_ref r s)).1
              [])
    go none h = rw (snd.paths r, h, f, h) (unfold release_path in release_absent r s snd h)
    go (some e) h = rw (snd.paths r, h) (release_own r e s snd h)

release_state-refs :
    (p : Text) (m : Option PathRefState) (s : FileMediaStore)
    → (release_state p m s).0.refs ≡ s.refs
unfolding release_state
release_state-refs p none s = refl
release_state-refs p (some st) s = elim (Bool-cases (leb st.ref_count 1)) [
  | inl l ↦ rw l refl
  | inr l ↦ rw l refl
]

release_path-refs : (p : Text) (s : FileMediaStore) → (release_path p s).0.refs ≡ s.refs
unfolding release_path
release_path-refs [] s = refl
release_path-refs (c ∷ p) s = release_state-refs (c ∷ p) (lookup text_dec (c ∷ p) s.path_states) s

pub release_ref_locked-refs :
    (r fallback : Text) (s : FileMediaStore)
    → (release_ref_locked r fallback s).0.refs ≡ delete text_dec r s.refs
unfolding release_ref_locked
release_ref_locked-refs r fallback s = release_path-refs _ (without_ref r s)
