-- ===== src/Media/Store.antt =====
-- pkg/media/store.go. A map is an association list, whose order stands for the order in which Go's
-- range meets the entries; a set of refs is a list. Times are natural numbers on one clock.
pub mod Counts
pub mod Sound
pub mod Release
pub mod Refs
pub mod Forget
pub mod Files
pub mod Lent
pub mod Tests
use halfmoon.Base.{
  ℕ, zero, suc, ◌+◌, ◌-◌, Bool, true, false, Option, none, some, List, [], ◌∷◌, ltb, leb,
  if◌then◌else◌, holds, length,
}
use halfmoon.Base.Text.{Text, text_dec}
use halfmoon.Base.Assoc.{lookup, insert, delete}

-- The empty policy, the two that are named, and any other text.
pub data CleanupPolicy : Type 0 where
  unset delete_on_cleanup forget_only other : CleanupPolicy

pub record MediaMeta : Type 0 where
  pub filename : Text
  pub content_type : Text
  pub origin : Text
  pub cleanup_policy : CleanupPolicy

pub record MediaEntry : Type 0 where
  pub path : Text
  pub meta : MediaMeta
  pub stored_at : ℕ

pub record PathRefState : Type 0 where
  pub ref_count : ℕ
  pub delete_eligible : Bool

pub record FileMediaStore : Type 0 where
  pub refs : List (Text × MediaEntry)
  pub scope_to_refs : List (Text × List Text)
  pub ref_to_scope : List (Text × Text)
  pub ref_to_path : List (Text × Text)
  pub path_states : List (Text × PathRefState)

abbrev pub new_file_media_store : FileMediaStore
new_file_media_store = record {
  refs = [];
  scope_to_refs = [];
  ref_to_scope = [];
  ref_to_path = [];
  path_states = [];
}

abbrev pub normalize_cleanup_policy : CleanupPolicy → CleanupPolicy
normalize_cleanup_policy unset = delete_on_cleanup
normalize_cleanup_policy delete_on_cleanup = delete_on_cleanup
normalize_cleanup_policy forget_only = forget_only
normalize_cleanup_policy other = delete_on_cleanup

abbrev pub is_forget_only : CleanupPolicy → Bool
is_forget_only forget_only = true
is_forget_only unset = false
is_forget_only delete_on_cleanup = false
is_forget_only other = false

abbrev pub is_delete_on_cleanup : CleanupPolicy → Bool
is_delete_on_cleanup delete_on_cleanup = true
is_delete_on_cleanup unset = false
is_delete_on_cleanup forget_only = false
is_delete_on_cleanup other = false

-- A set of refs: adding one that is there changes nothing.
unfoldable pub member : Text → List Text → Bool
member r [] = false
member r (x ∷ xs) = if holds (text_dec x r) then true else member r xs

add_ref : Text → List Text → List Text
unfolding member
add_ref r xs = if member r xs then xs else r ∷ xs

drop_ref : Text → List Text → List Text
drop_ref r [] = []
drop_ref r (x ∷ xs) = let rest = drop_ref r xs in if holds (text_dec x r) then rest else x ∷ rest

abbrev pub or_no_refs : Option (List Text) → List Text
or_no_refs none = []
or_no_refs (some rs) = rs

-- What Store makes of the state of the path, which is zero for a path that is not there.
unfoldable pub bump : CleanupPolicy → Option PathRefState → PathRefState
bump policy none = record { ref_count = 1; delete_eligible = is_delete_on_cleanup policy }
bump policy (some st) = record {
  ref_count = suc st.ref_count;
  delete_eligible =
      if leb st.ref_count 0
      then is_delete_on_cleanup policy
      else if is_forget_only policy
      then false
      else st.delete_eligible;
}

-- The entry that Store makes, with the policy that it has settled on.
abbrev pub new_entry : Text → MediaMeta → ℕ → MediaEntry
new_entry local_path meta now = record {
  path = local_path;
  meta = record {
    filename = meta.filename;
    content_type = meta.content_type;
    origin = meta.origin;
    cleanup_policy = normalize_cleanup_policy meta.cleanup_policy;
  };
  stored_at = now;
}

-- Store behind the test for the file: ref is the fresh "media://<uuid>".
unfoldable pub store_ref : Text → MediaMeta → Text → Text → ℕ → FileMediaStore → FileMediaStore
unfolding add_ref bump
store_ref local_path meta scope ref now s = record {
  refs = insert text_dec ref (new_entry local_path meta now) s.refs;
  scope_to_refs =
      insert text_dec scope (add_ref ref (or_no_refs (lookup text_dec scope s.scope_to_refs)))
        s.scope_to_refs;
  ref_to_scope = insert text_dec ref scope s.ref_to_scope;
  ref_to_path = insert text_dec ref local_path s.ref_to_path;
  path_states =
      insert text_dec local_path
        (bump (normalize_cleanup_policy meta.cleanup_policy)
          (lookup text_dec local_path s.path_states))
        s.path_states;
}

-- Store; `none` is its error for a file that os.Stat does not find.
unfoldable pub store :
    (Text → Bool) → Text → MediaMeta → Text → Text → ℕ → FileMediaStore → Option FileMediaStore
unfolding store_ref
store exists local_path meta scope ref now s =
    if exists local_path then some (store_ref local_path meta scope ref now s) else none

abbrev pub entry_path : Option MediaEntry → Option Text
entry_path none = none
entry_path (some e) = some e.path

-- Resolve, with `none` for its error.
unfoldable pub resolve : Text → FileMediaStore → Option Text
resolve ref s = entry_path (lookup text_dec ref s.refs)

abbrev pub entry_with_meta : Option MediaEntry → Option (Text × MediaMeta)
entry_with_meta none = none
entry_with_meta (some e) = some (e.path, e.meta)

unfoldable pub resolve_with_meta : Text → FileMediaStore → Option (Text × MediaMeta)
resolve_with_meta ref s = entry_with_meta (lookup text_dec ref s.refs)

abbrev pub with_path_states : List (Text × PathRefState) → FileMediaStore → FileMediaStore
with_path_states ps s = record {
  refs = s.refs;
  scope_to_refs = s.scope_to_refs;
  ref_to_scope = s.ref_to_scope;
  ref_to_path = s.ref_to_path;
  path_states = ps;
}

-- The three maps that releaseRefLocked deletes the ref from.
abbrev pub without_ref : Text → FileMediaStore → FileMediaStore
without_ref ref s = record {
  refs = delete text_dec ref s.refs;
  scope_to_refs = s.scope_to_refs;
  ref_to_scope = delete text_dec ref s.ref_to_scope;
  ref_to_path = delete text_dec ref s.ref_to_path;
  path_states = s.path_states;
}

-- releaseRefLocked behind the lookup of the path's state.
release_state : Text → Option PathRefState → FileMediaStore → FileMediaStore × Option Text
release_state path none s = (s, none)
release_state path (some st) s =
    if leb st.ref_count 1
    then (
      with_path_states (delete text_dec path s.path_states) s,
      if st.delete_eligible then some path else none,
    )
    else (
      with_path_states
          (insert text_dec path
            (record { ref_count = st.ref_count - 1; delete_eligible = st.delete_eligible })
            s.path_states)
          s,
      none,
    )

release_path : Text → FileMediaStore → FileMediaStore × Option Text
unfolding release_state
release_path [] s = (s, none)
release_path (c ∷ p) s = release_state (c ∷ p) (lookup text_dec (c ∷ p) s.path_states) s

abbrev pub or_path : Option Text → Text → Text
or_path none fallback = fallback
or_path (some p) fallback = p

-- releaseRefLocked: the store, and the path to delete.
unfoldable pub release_ref_locked : Text → Text → FileMediaStore → FileMediaStore × Option Text
unfolding release_path
release_ref_locked ref fallback s =
    release_path (or_path (lookup text_dec ref s.ref_to_path) fallback) (without_ref ref s)

abbrev pub fallback_path : Option MediaEntry → Text
fallback_path none = []
fallback_path (some e) = e.path

abbrev pub add_path : Option Text → List Text → List Text
add_path none ps = ps
add_path (some p) ps = p ∷ ps

-- The loops of both clean-ups over the refs they release.
unfoldable pub release_refs : List Text → FileMediaStore → FileMediaStore × List Text
unfolding release_ref_locked
release_refs [] s = (s, [])
release_refs (r ∷ rs) s =
    let (s1, p) = release_ref_locked r (fallback_path (lookup text_dec r s.refs)) s in
    let (s2, ps) = release_refs rs s1 in (s2, add_path p ps)

abbrev pub with_scopes : List (Text × List Text) → FileMediaStore → FileMediaStore
with_scopes m s = record {
  refs = s.refs;
  scope_to_refs = m;
  ref_to_scope = s.ref_to_scope;
  ref_to_path = s.ref_to_path;
  path_states = s.path_states;
}

release_scope : Text → Option (List Text) → FileMediaStore → FileMediaStore × List Text
unfolding release_refs
release_scope scope none s = (s, [])
release_scope scope (some rs) s =
    let (s1, ps) = release_refs rs s in
    (with_scopes (delete text_dec scope s1.scope_to_refs) s1, ps)

-- The first phase of ReleaseAll: the store, and the paths to delete from disk.
unfoldable pub release_all : Text → FileMediaStore → FileMediaStore × List Text
unfolding release_scope
release_all scope s = release_scope scope (lookup text_dec scope s.scope_to_refs) s

abbrev pub set_or_delete : Text → List Text → List (Text × List Text) → List (Text × List Text)
set_or_delete scope [] m = delete text_dec scope m
set_or_delete scope (r ∷ rs) m = insert text_dec scope (r ∷ rs) m

-- CleanExpired takes the ref out of its scope's set, and an empty set out of the map.
unscope : Text → FileMediaStore → List (Text × List Text)
unfolding drop_ref
unscope ref s = elim (lookup text_dec ref s.ref_to_scope) [
  | none ↦ s.scope_to_refs
  | some scope ↦ elim (lookup text_dec scope s.scope_to_refs) [
    | none ↦ s.scope_to_refs
    | some rs ↦ set_or_delete scope (drop_ref ref rs) s.scope_to_refs
  ]
]

-- CleanExpired's loop over the entries: the store, the paths to delete, and how many refs expired.
unfoldable pub clean_entries :
    ℕ → List (Text × MediaEntry) → FileMediaStore → FileMediaStore × (List Text × ℕ)
unfolding release_ref_locked unscope
clean_entries cutoff [] s = (s, ([], 0))
clean_entries cutoff ((r, e) ∷ rest) s = elim (ltb e.stored_at cutoff) [
  | true ↦
      let (s1, p) = release_ref_locked r e.path (with_scopes (unscope r s) s) in
      let (s2, (ps, n)) = clean_entries cutoff rest s1 in (s2, (add_path p ps, suc n))
  | false ↦ clean_entries cutoff rest s
]

-- The first phase of CleanExpired; a maxAge of 0 stands for every one that is not positive.
unfoldable pub clean_expired : ℕ → ℕ → FileMediaStore → FileMediaStore × (List Text × ℕ)
unfolding clean_entries
clean_expired zero now s = (s, ([], 0))
clean_expired (suc age) now s = clean_entries (now - suc age) s.refs s

-- The second phase of both: os.Remove of each path, whose errors are only logged. The disk says which
-- files there are, and can_remove which of them os.Remove succeeds on.
unfoldable pub remove_files : (Text → Bool) → List Text → (Text → Bool) → Text → Bool
remove_files can_remove [] disk q = disk q
remove_files can_remove (p ∷ ps) disk q =
    let rest = remove_files can_remove ps disk q in
    if holds (text_dec p q) then (if can_remove p then false else rest) else rest
