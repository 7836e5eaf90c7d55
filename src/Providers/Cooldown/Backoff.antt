-- ===== src/Providers/Cooldown/Backoff.antt =====
-- How long a failure keeps a provider out, read off the history of marks.
use halfmoon.Base.{
  ℕ, ◌+◌, ◌<◌, ◌≡◌, ap, refl, sym, ◌∙◌, Bool, subst, ite, if_pos, true, false, Option, none, some,
  List, [], ◌∷◌, arith, if◌then◌else◌,
}
use halfmoon.Base.Text.{Text, text_dec}
use halfmoon.Base.Assoc.{lookup, insert, lookup-insert}
use halfmoon.Providers.Reason.{FailoverReason, billing, reason_dec}
use halfmoon.Providers.Cooldown.{
  Entry, is_available, entry_available, or_new, or_zero, count_of, succeed_entry, fail_entry,
  refresh, penalize, tally, is_stale, calculate_billing_cooldown, calculate_standard_cooldown,
}
use halfmoon.Providers.Cooldown.Timing.{
  standard_table, billing_table, calculate_standard_cooldown-table,
  calculate_billing_cooldown-table,
}
use halfmoon.Providers.Cooldown.History.{
  Mark, failed, succeeded, Event, after, entry_marked, entry_after, entry_of-after, last_failed,
  streak, entry_after-Tallied,
}

-- The billing failures among the failures of a key without a break.
abbrev billed : FailoverReason → ℕ
billed r = ite (reason_dec r billing) 1 0

unfoldable pub billing_streak : Text → List Event → ℕ
billing_streak key [] = 0
billing_streak key (e ∷ older) =
    let rest = billing_streak key older in
    ite (text_dec e.key key)
      (elim e.mark [
        | failed r ↦ billed r + (if is_stale (last_failed key older) e.at then 0 else rest)
        | succeeded ↦ 0
      ])
      rest

-- The backoff that a failure for this reason brings, at the end of a history, by the tables in the
-- comments of the two functions.
abbrev pub backoff : FailoverReason → Text → List Event → ℕ
backoff billing key h = billing_table (billing_streak key h)
backoff _ key h = standard_table (streak key h)

record Billed (o : Option Entry) (n : ℕ) (last : Option ℕ) : Type 0 where
  pub counted : count_of billing (or_new o).failure_counts ≡ n
  pub timed : (or_new o).last_failure ≡ last

insert_one :
    (r : FailoverReason) (d : Dec (r ≡ billing)) (counts : List (FailoverReason × ℕ))
    → or_zero (ite d (some (count_of r counts + 1)) (lookup reason_dec billing counts))
      ≡ ite d 1 0 + count_of billing counts
insert_one r (yes e) counts =
    subst (λ x. count_of x counts + 1 ≡ 1 + count_of billing counts) (sym e) (omega arith)
insert_one r (no n) counts = unfold count_of in omega arith

count_of-insert :
    (r : FailoverReason) (counts : List (FailoverReason × ℕ))
    → count_of billing (insert reason_dec r (count_of r counts + 1) counts)
      ≡ billed r + count_of billing counts
count_of-insert r counts =
    unfold count_of in
    ap or_zero (lookup-insert reason_dec r billing (count_of r counts + 1) counts)
    ∙ insert_one r (reason_dec r billing) counts

penalize-counts :
    (now : ℕ) (r : FailoverReason) (e : Entry)
    → (penalize now r e).failure_counts ≡ e.failure_counts
unfolding penalize
penalize-counts now billing e = refl
penalize-counts now _ e = refl

fail_entry-billed :
    (now : ℕ) (r : FailoverReason) (e : Entry) (n : ℕ)
    → count_of billing e.failure_counts ≡ n
    → count_of billing (fail_entry now r e).failure_counts
      ≡ billed r + (if is_stale e.last_failure now then 0 else n)
unfolding fail_entry tally
fail_entry-billed now r e n h =
    ap (count_of billing) (penalize-counts now r (tally now r (refresh now e)))
    ∙ count_of-insert r (refresh now e).failure_counts
    ∙ ap (λ k. billed r + k) (kept (is_stale e.last_failure now) refl)
  where
    kept :
        (b : Bool)
        → is_stale e.last_failure now ≡ b
        → count_of billing (refresh now e).failure_counts ≡ (if b then 0 else n)
    kept true s = unfold refresh count_of lookup in ground arith
    kept false s = unfold refresh in ground arith

fail_entry-last :
    (now : ℕ) (r : FailoverReason) (e : Entry) → (fail_entry now r e).last_failure ≡ some now
unfolding fail_entry
fail_entry-last now r e = ground arith

entry_marked-Billed :
    (m : Mark) (now n : ℕ) (o : Option Entry) (last : Option ℕ)
    → Billed o n last
    → Billed
        (entry_marked m now o)
        (elim m [ failed r ↦ billed r + (if is_stale last now then 0 else n) | succeeded ↦ 0 ])
        (elim m [ failed r ↦ some now | succeeded ↦ last ])
unfolding succeed_entry
entry_marked-Billed (failed r) now n o last b = record {
  counted =
      fail_entry-billed now r (or_new o) n b.counted
      ∙ ap (λ l. billed r + (if is_stale l now then 0 else n)) b.timed;
  timed = fail_entry-last now r (or_new o);
}
entry_marked-Billed succeeded now n none last b = record {
  counted = unfold count_of lookup in refl;
  timed = b.timed;
}
entry_marked-Billed succeeded now n (some e) last b = record {
  counted = unfold count_of lookup in refl;
  timed = b.timed;
}

ite-Billed {ℓ} :
    {P : Type ℓ} (d : Dec P) {o o' : Option Entry} {n n' : ℕ} {l l' : Option ℕ}
    → Billed o n l
    → Billed o' n' l'
    → Billed (ite d o o') (ite d n n') (ite d l l')
ite-Billed (yes p) b b' = b
ite-Billed (no p) b b' = b'

entry_after-Billed :
    (key : Text) (h : List Event)
    → Billed (entry_after key h) (billing_streak key h) (last_failed key h)
unfolding entry_after billing_streak
entry_after-Billed key [] = record { counted = unfold count_of lookup in refl; timed = refl }
entry_after-Billed key (e ∷ older) =
    ite-Billed (text_dec e.key key)
      (entry_marked-Billed e.mark e.at _ _ _ (entry_after-Billed key older))
      (entry_after-Billed key older)

abbrev entry_backoff : FailoverReason → Entry → ℕ
entry_backoff billing e = calculate_billing_cooldown (count_of billing e.failure_counts)
entry_backoff _ e = calculate_standard_cooldown e.error_count

blocked :
    (r : FailoverReason) (now t : ℕ) (e : Entry)
    → t < now + entry_backoff r (fail_entry now r e)
    → entry_available (some (fail_entry now r e)) t ≡ false
unfolding fail_entry
blocked billing now t e h = ground arith
blocked _ now t e h = ground arith

backoff-entry :
    (r : FailoverReason) (key : Text) (h : List Event)
    → backoff r key h ≡ entry_backoff r (or_new (entry_after key h))
backoff-entry billing key h =
    ap billing_table (sym (entry_after-Billed key h).counted)
    ∙ sym (calculate_billing_cooldown-table _)
backoff-entry _ key h =
    ap standard_table (sym (entry_after-Tallied key h).counted)
    ∙ sym (calculate_standard_cooldown-table _)

failed_after :
    (key : Text) (r : FailoverReason) (now : ℕ) (h : List Event)
    → entry_after key (record { at = now; key = key; mark = failed r } ∷ h)
      ≡ some (fail_entry now r (or_new (entry_after key h)))
unfolding entry_after
failed_after key r now h = if_pos (text_dec key key) refl _ _

-- When a key's newest mark is a failure, the key is out until its backoff has passed. For a billing
-- failure that is 5, 10, 20 and then 24 hours by the billing failures in the history without a break,
-- for any other 1, 5, 25 and then 60 minutes by all failures in it; a success or a gap of more than
-- the failure window is a break.
pub is_available-failed :
    (key : Text) (r : FailoverReason) (now t : ℕ) (h : List Event)
    → let h' = record { at = now; key = key; mark = failed r } ∷ h in
      t < now + backoff r key h' → is_available key t (after h') ≡ false
unfolding is_available
is_available-failed key r now t h lt =
    let e = failed_after key r now h in
    let b =
      backoff-entry r key (record { at = now; key = key; mark = failed r } ∷ h)
      ∙ ap (λ o. entry_backoff r (or_new o)) e in
    ap (λ o. entry_available o t)
      (entry_of-after key (record { at = now; key = key; mark = failed r } ∷ h) ∙ e)
    ∙ blocked r now t _ (rw b at lt)
