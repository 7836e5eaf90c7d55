-- ===== src/Providers/Cooldown/History.antt =====
-- The tracker after a history of marks, newest first.
use halfmoon.Base.{
  ℕ, suc, ◌+◌, ◌*◌, ◌≤◌, ◌≡◌, ap, refl, ◌∙◌, ite, if_pos, true, Option, none, some, List, [], ◌∷◌,
  arith, All, if◌then◌else◌,
}
use halfmoon.Base.Text.{Text, text_dec}
use halfmoon.Base.Assoc.{lookup, lookup-insert}
use halfmoon.Providers.Reason.{FailoverReason, billing}
use halfmoon.Providers.Cooldown.{
  Entry, CooldownTracker, hour, new_cooldown_tracker, entry_of, is_available, mark_failure,
  mark_success, entry_available, or_new, or_zero, count_of, succeed_entry, fail_entry, refresh,
  tally, is_stale, error_count, failure_count,
}
use halfmoon.Providers.Cooldown.Timing.{
  calculate_standard_cooldown-le, calculate_billing_cooldown-le,
}

pub data Mark : Type 0 where
  failed : FailoverReason → Mark
  succeeded : Mark

pub record Event : Type 0 where
  pub at : ℕ
  pub key : Text
  pub mark : Mark

abbrev pub marked : Mark → Text → ℕ → CooldownTracker → CooldownTracker
marked (failed r) key now ct = mark_failure key r now ct
marked succeeded key now ct = mark_success key ct

unfoldable pub after : List Event → CooldownTracker
after [] = new_cooldown_tracker
after (e ∷ older) = marked e.mark e.key e.at (after older)

-- What one key's entry becomes, from the marks of that key alone.
abbrev pub entry_marked : Mark → ℕ → Option Entry → Option Entry
entry_marked (failed r) now o = some (fail_entry now r (or_new o))
entry_marked succeeded now none = none
entry_marked succeeded now (some e) = some (succeed_entry e)

unfoldable pub entry_after : Text → List Event → Option Entry
entry_after key [] = none
entry_after key (e ∷ older) =
    let o = entry_after key older in ite (text_dec e.key key) (entry_marked e.mark e.at o) o

entry_of-marked :
    (m : Mark) (k key : Text) (now : ℕ) (ct : CooldownTracker)
    → entry_of key (marked m k now ct)
      ≡ ite (text_dec k key) (entry_marked m now (entry_of key ct)) (entry_of key ct)
unfolding entry_of mark_failure mark_success
entry_of-marked (failed r) k key now ct =
    ground
      (arith, lookup-insert text_dec k key (fail_entry now r (or_new (entry_of k ct))) ct.entries)
entry_of-marked succeeded k key now ct = go (entry_of k ct) refl
  where
    go :
        (o : Option Entry)
        → entry_of k ct ≡ o
        → entry_of key (mark_success k ct)
          ≡ ite (text_dec k key) (entry_marked succeeded now (entry_of key ct)) (entry_of key ct)
    go none e = ground arith
    go (some x) e = ground (arith, lookup-insert text_dec k key (succeed_entry x) ct.entries)

pub ite_cases {ℓ κ λ'} :
    {P : Type ℓ} {A : Type κ} (Q : A → Type λ') (d : Dec P) {a b : A} → Q a → Q b → Q (ite d a b)
ite_cases Q (yes p) x y = x
ite_cases Q (no p) x y = y

pub entry_of-after : (key : Text) (h : List Event) → entry_of key (after h) ≡ entry_after key h
unfolding after entry_after entry_of lookup
entry_of-after key [] = refl
entry_of-after key (e ∷ older) =
    entry_of-marked e.mark e.key key e.at (after older)
    ∙ ap (λ o. ite (text_dec e.key key) (entry_marked e.mark e.at o) o) (entry_of-after key older)

-- The failures of a key without a break, from the newest mark back: a success ends them, and so does
-- a gap of more than the failure window to the failure before.
abbrev pub last_failed : Text → List Event → Option ℕ
last_failed key [] = none
last_failed key (e ∷ older) =
    let rest = last_failed key older in
    ite (text_dec e.key key) (elim e.mark [ failed r ↦ some e.at | succeeded ↦ rest ]) rest

unfoldable pub streak : Text → List Event → ℕ
streak key [] = 0
streak key (e ∷ older) =
    let rest = streak key older in
    ite (text_dec e.key key)
      (elim e.mark [
        | failed r ↦ suc (if is_stale (last_failed key older) e.at then 0 else rest)
        | succeeded ↦ 0
      ])
      rest

pub record Tallied (o : Option Entry) (n : ℕ) (last : Option ℕ) : Type 0 where
  pub counted : (or_new o).error_count ≡ n
  pub timed : (or_new o).last_failure ≡ last

entry_marked-Tallied :
    (m : Mark) (now n : ℕ) (o : Option Entry) (last : Option ℕ)
    → Tallied o n last
    → Tallied
        (entry_marked m now o)
        (elim m [ failed r ↦ suc (if is_stale last now then 0 else n) | succeeded ↦ 0 ])
        (elim m [ failed r ↦ some now | succeeded ↦ last ])
unfolding fail_entry succeed_entry
entry_marked-Tallied (failed r) now n none last t = ground arith
entry_marked-Tallied (failed r) now n (some e) last t = ground arith
entry_marked-Tallied succeeded now n none last t = ground arith
entry_marked-Tallied succeeded now n (some e) last t = ground arith

ite-Tallied {ℓ} :
    {P : Type ℓ} (d : Dec P) {o o' : Option Entry} {n n' : ℕ} {l l' : Option ℕ}
    → Tallied o n l
    → Tallied o' n' l'
    → Tallied (ite d o o') (ite d n n') (ite d l l')
ite-Tallied (yes p) t t' = t
ite-Tallied (no p) t t' = t'

pub entry_after-Tallied :
    (key : Text) (h : List Event) → Tallied (entry_after key h) (streak key h) (last_failed key h)
unfolding entry_after streak
entry_after-Tallied key [] = record { counted = refl; timed = refl }
entry_after-Tallied key (e ∷ older) =
    ite-Tallied (text_dec e.key key)
      (entry_marked-Tallied e.mark e.at _ _ _ (entry_after-Tallied key older))
      (entry_after-Tallied key older)

or_new-error_count :
    (key : Text) (h : List Event)
    → error_count key (after h) ≡ (or_new (entry_after key h)).error_count
unfolding error_count
or_new-error_count key h = ap (λ o. (or_new o).error_count) (entry_of-after key h)

-- The error count of a key is the number of its failures without a break.
pub error_count-streak : (key : Text) (h : List Event) → error_count key (after h) ≡ streak key h
error_count-streak key h = or_new-error_count key h ∙ (entry_after-Tallied key h).counted

-- The ends of an entry whose marks all lie at or before n.
record IsBounded (o : Option Entry) (n : ℕ) : Type 0 where
  pub standard : or_zero (or_new o).cooldown_end ≤ n + hour
  pub disabled : or_zero (or_new o).disabled_until ≤ n + 24 * hour

entry_marked-IsBounded :
    (m : Mark) (now n : ℕ) (o : Option Entry)
    → now ≤ n
    → IsBounded o n
    → IsBounded (entry_marked m now o) n
unfolding fail_entry succeed_entry
entry_marked-IsBounded (failed r) now n o h b = ground (
  arith,
  calculate_standard_cooldown-le (tally now r (refresh now (or_new o))).error_count,
  calculate_billing_cooldown-le
      (count_of billing (tally now r (refresh now (or_new o))).failure_counts),
)
entry_marked-IsBounded succeeded now n none h b = b
entry_marked-IsBounded succeeded now n (some e) h b = omega arith

entry_after-IsBounded :
    (key : Text) (n : ℕ) (h : List Event) → All (λ e. e.at ≤ n) h → IsBounded (entry_after key h) n
unfolding entry_after
entry_after-IsBounded key n [] a = omega arith
entry_after-IsBounded key n (e ∷ older) (le, a) =
    ite_cases (λ o. IsBounded o n) (text_dec e.key key)
      (entry_marked-IsBounded e.mark e.at n _ le (entry_after-IsBounded key n older a))
      (entry_after-IsBounded key n older a)

available_late :
    (o : Option Entry) (n t : ℕ) → IsBounded o n → n + 24 * hour ≤ t → entry_available o t ≡ true
available_late none n t b h = refl
available_late (some e) n t b h = ground arith

-- Whatever the history, 24 hours after its last mark every key is available.
pub is_available-after :
    (key : Text) (n t : ℕ) (h : List Event)
    → All (λ e. e.at ≤ n) h
    → n + 24 * hour ≤ t
    → is_available key t (after h) ≡ true
unfolding is_available
is_available-after key n t h a le =
    rw (entry_of-after key h) (available_late _ n t (entry_after-IsBounded key n h a) le)

succeeded_entry :
    (key : Text) (now : ℕ) (h : List Event)
    → entry_of key (after (record { at = now; key = key; mark = succeeded } ∷ h))
      ≡ entry_marked succeeded now (entry_after key h)
succeeded_entry key now h =
    entry_of-after key (record { at = now; key = key; mark = succeeded } ∷ h)
    ∙ unfold entry_after in if_pos (text_dec key key) refl _ _

cleared :
    (r : FailoverReason) (now t : ℕ) (o : Option Entry)
    → (entry_available (entry_marked succeeded now o) t ≡ true)
      × ((or_new (entry_marked succeeded now o)).error_count ≡ 0)
      × (count_of r (or_new (entry_marked succeeded now o)).failure_counts ≡ 0)
unfolding succeed_entry count_of lookup
cleared r now t none = (refl, refl, refl)
cleared r now t (some e) = (refl, refl, refl)

-- After a success a key is available at once and its counters are zero.
pub mark_success-clears :
    (key : Text) (r : FailoverReason) (now t : ℕ) (h : List Event)
    → let ct = after (record { at = now; key = key; mark = succeeded } ∷ h) in
      (is_available key t ct ≡ true) × (error_count key ct ≡ 0) × (failure_count key r ct ≡ 0)
unfolding is_available error_count failure_count
mark_success-clears key r now t h =
    let e = succeeded_entry key now h in
    let (a, b, c) = cleared r now t (entry_after key h) in
    (
      ap (λ o. entry_available o t) e ∙ a,
      ap (λ o. (or_new o).error_count) e ∙ b,
      ap (λ o. count_of r (or_new o).failure_counts) e ∙ c,
    )
