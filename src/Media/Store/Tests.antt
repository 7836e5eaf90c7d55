-- ===== src/Media/Store/Tests.antt =====
-- Runs of the media store.
use halfmoon.Base.{◌≡◌, refl, true, false, none, some, [], if◌then◌else◌, holds}
use halfmoon.Base.Text.{text_dec, codes}
use halfmoon.Base.Assoc.{lookup, insert}
use halfmoon.Media.Store.{
  unset, forget_only, MediaMeta, FileMediaStore, new_file_media_store, store, store_ref, resolve,
  release_all, clean_expired, remove_files, bump,
}
use halfmoon.Media.Store.Forget.{is_expired, clean_expired-resolve}
use halfmoon.Media.Store.Files.{
  Disk, Reachable, started, added, stored, resolve-file, store-between,
}
use halfmoon.Media.Store.Sound.{at}
use halfmoon.Media.Store.Lent.{Unused, deleted-Unused}

abbrev no_files : Disk
no_files p = false

abbrev all_removable : Disk
all_removable p = true

abbrev meta_of_test : MediaMeta
meta_of_test = record { filename = []; content_type = []; origin = []; cleanup_policy = unset }

abbrev lent_meta : MediaMeta
lent_meta = record { filename = []; content_type = []; origin = []; cleanup_policy = forget_only }

abbrev one_file : Disk
one_file q = if holds (text_dec (codes "a.png") q) then true else false

-- One file, stored under one ref of the scope "s" at the time 5.
abbrev one_ref : FileMediaStore
unfolding store_ref
one_ref = store_ref (codes "a.png") meta_of_test (codes "s") (codes "r1") 5 new_file_media_store

abbrev two_refs : FileMediaStore
unfolding store_ref
two_refs = store_ref (codes "a.png") lent_meta (codes "t") (codes "r2") 9 one_ref

one_ref-Reachable : Reachable all_removable one_ref one_file
unfolding one_ref resolve store lookup text_dec
one_ref-Reachable =
    stored (codes "a.png") meta_of_test (codes "s") (codes "r1") 5 refl refl
      (added (codes "a.png") (λ z. cc) (started no_files refl))

two_refs-Reachable : Reachable all_removable two_refs one_file
unfolding two_refs one_ref resolve store store_ref lookup text_dec insert
two_refs-Reachable =
    stored (codes "a.png") lent_meta (codes "t") (codes "r2") 9 refl refl one_ref-Reachable

resolve-file_example : one_file (codes "a.png") ≡ true
unfolding one_ref store_ref insert resolve lookup text_dec
resolve-file_example =
    resolve-file all_removable one_ref one_file (codes "r1") (codes "a.png") one_ref-Reachable refl

deleted-Unused_example :
    Unused two_refs (release_all (codes "s") two_refs).0 (release_all (codes "s") two_refs).1
    × Unused two_refs (clean_expired 3 12 two_refs).0 (clean_expired 3 12 two_refs).1.0
deleted-Unused_example =
    deleted-Unused all_removable two_refs one_file (codes "s") 3 12 two_refs-Reachable

clean_expired-resolve_example :
    (resolve (codes "r1") (clean_expired 3 12 two_refs).0 ≡ (
      if is_expired 3 12 (lookup text_dec (codes "r1") two_refs.refs)
      then none
      else resolve (codes "r1") two_refs))
    × ((clean_expired 3 12 two_refs).1.1 ≡ 1)
unfolding two_refs one_ref store_ref insert text_dec
clean_expired-resolve_example =
    clean_expired-resolve 3 12 two_refs (codes "r1") (unfold lookup in (refl, (refl, tt)))

store-between_example :
    let released = release_all (codes "s") one_ref in
    let after = store_ref (codes "a.png") meta_of_test (codes "t") (codes "r2") 9 released.0 in
    (store one_file (codes "a.png") meta_of_test (codes "t") (codes "r2") 9 released.0 ≡ some after)
    × (resolve (codes "r2") after ≡ some (codes "a.png"))
    × (remove_files all_removable released.1 one_file (codes "a.png") ≡ false)
unfolding one_ref store_ref insert resolve lookup text_dec bump at
store-between_example =
    store-between all_removable one_file (codes "s") (codes "t") (codes "r1") (codes "r2")
      (codes "a.png") meta_of_test 9 one_ref one_ref-Reachable refl refl refl refl refl
