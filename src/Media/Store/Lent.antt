-- ===== src/Media/Store/Lent.antt =====
-- Which files the two clean-ups of the media store delete.
use halfmoon.Base.{ℕ, ◌≡◌, Option, none, some, List, [], ◌∷◌, All}
use halfmoon.Base.Text.{Text, text_dec}
use halfmoon.Base.Assoc.{lookup}
use halfmoon.Media.Store.{PathRefState, FileMediaStore, release_all, clean_expired}
use halfmoon.Media.Store.Counts.{Refs, count}
use halfmoon.Media.Store.Sound.{at, lent, Counted, Sound}
use halfmoon.Media.Store.Release.{Eligible, Released}
use halfmoon.Media.Store.Refs.{release_all-Released, clean_expired-Released}
use halfmoon.Media.Store.Files.{Disk, Reachable, Reachable-Kept}

Eligible-lent :
    (p : Text) (refs : Refs) (m : Option PathRefState)
    → Counted p refs m
    → Eligible m
    → count (lent p) refs ≡ 0
Eligible-lent p refs none c e = absurd e
Eligible-lent p refs (some st) c e = c.1.1 e

-- No ref is left for the paths, and none of them only lent the file.
abbrev pub Unused : FileMediaStore → FileMediaStore → List Text → Type 0
Unused s after = All (λ p. (count (at p) after.refs ≡ 0) × (count (lent p) s.refs ≡ 0))

Released-Unused :
    (s after : FileMediaStore) (ps : List Text) → Sound s → Released s after ps → Unused s after ps
Released-Unused s after ps snd r = go ps r.gone
  where
    go :
        (qs : List Text)
        → All (λ p. (count (at p) after.refs ≡ 0) × Eligible (lookup text_dec p s.path_states)) qs
        → Unused s after qs
    go [] a = tt
    go (q ∷ qs) a = ((a.0.0, Eligible-lent q s.refs _ (snd.counted q) a.0.1), go qs a.1)

-- In every state that whole calls lead to, ReleaseAll and CleanExpired ask to delete only files that
-- no ref stands for any more and that no ref with the policy to forget only stood for before.
pub deleted-Unused :
    (can_remove : Disk) (s : FileMediaStore) (disk : Disk) (scope : Text) (max_age now : ℕ)
    → Reachable can_remove s disk
    → Unused s (release_all scope s).0 (release_all scope s).1
      × Unused s (clean_expired max_age now s).0 (clean_expired max_age now s).1.0
deleted-Unused can_remove s disk scope max_age now r =
    let snd = (Reachable-Kept can_remove s disk r).sound in
    (
      Released-Unused s _ _ snd (release_all-Released scope s snd),
      Released-Unused s _ _ snd (clean_expired-Released max_age now s snd),
    )
