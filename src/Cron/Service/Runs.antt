-- ===== src/Cron/Service/Runs.antt =====
-- What a run leaves of a job.
use halfmoon.Base.{
  ℕ, ◌+◌, ◌-◌, ◌%◌, ◌^◌, ◌<◌, ◌≡◌, ◌∙◌, subst, sym, ap, refl, inl, inr, Bool, true, false, Option,
  none, some, List, [], ◌∷◌, arith, ltb, leb, if◌then◌else◌, Bool-cases, holds,
}
use halfmoon.Base.Int.{ℤ, pos, negsuc}
use halfmoon.Base.Text.{Text, text_dec}
use halfmoon.Cron.Job.{
  at, every, CronJob, is_due_at, wrapped, compute_kind, compute_next_run, next_every, is_due,
  with_next_run,
}
use halfmoon.Cron.Service.{
  CronService, is_found, same_id, save_store, find_job, update_first, without_id, remove_job,
  with_result, After, deleted, disabled, repeats, after_kind, after_run, stopped, apply_after,
  finish_job,
}
use halfmoon.Cron.Service.Wake.{save_store-jobs}

module _ (id : Text) (j : CronJob) (jobs : List CronJob) where
  find_hit : same_id id j ≡ true → find_job id (j ∷ jobs) ≡ some j
  unfolding find_job
  find_hit e = rw e refl

  find_miss : same_id id j ≡ false → find_job id (j ∷ jobs) ≡ find_job id jobs
  unfolding find_job
  find_miss e = rw e refl

  update_hit :
      (f : CronJob → CronJob) → same_id id j ≡ true → update_first id f (j ∷ jobs) ≡ f j ∷ jobs
  unfolding update_first
  update_hit f e = rw e refl

  update_miss :
      (f : CronJob → CronJob)
      → same_id id j ≡ false
      → update_first id f (j ∷ jobs) ≡ j ∷ update_first id f jobs
  unfolding update_first
  update_miss f e = rw e refl

find_job-update_first :
    (id : Text) (f : CronJob → CronJob) (jobs : List CronJob) (job : CronJob)
    → ((j : CronJob) → (f j).id ≡ j.id)
    → find_job id jobs ≡ some job
    → find_job id (update_first id f jobs) ≡ some (f job)
find_job-update_first id f [] job k h = absurd (unfold find_job in cc)
find_job-update_first id f (j ∷ jobs) job k h = elim (Bool-cases (same_id id j)) [
  | inl e ↦
      ap (find_job id) (update_hit id j jobs f e)
      ∙ find_hit id (f j) jobs (ap (λ x. holds (text_dec x id)) (k j) ∙ e)
      ∙ ap (λ x. some (f x)) (let g = sym (find_hit id j jobs e) ∙ h in cc)
  | inr e ↦
      ap (find_job id) (update_miss id j jobs f e)
      ∙ find_miss id j (update_first id f jobs) e
      ∙ find_job-update_first id f jobs job k (sym (find_miss id j jobs e) ∙ h)
]

find_job-without_id : (id : Text) (jobs : List CronJob) → find_job id (without_id id jobs) ≡ none
unfolding find_job without_id
find_job-without_id id [] = refl
find_job-without_id id (j ∷ jobs) = elim (Bool-cases (same_id id j)) [
  | inl e ↦ rw e (find_job-without_id id jobs)
  | inr e ↦ rw (e, e) (find_job-without_id id jobs)
]

abbrev pub found_after : After → CronJob → Option CronJob
found_after deleted job = none
found_after disabled job = some (stopped job)
found_after (repeats t) job = some (with_next_run t job)

with_result-id :
    (start now : ℕ) (result : Option Text) (j : CronJob)
    → (with_result start now result j).id ≡ j.id
with_result-id start now none j = refl
with_result-id start now (some e) j = refl

apply_after-find :
    (id : Text) (mark : CronJob → CronJob) (a : After) (w : Bool) (s : CronService) (job : CronJob)
    → ((j : CronJob) → (mark j).id ≡ j.id)
    → find_job id s.jobs ≡ some job
    → find_job id (apply_after id mark a w s).jobs ≡ found_after a (mark job)
unfolding apply_after
apply_after-find id mark deleted w s job k h =
    unfold remove_job in removed (is_found (find_job id (update_first id mark s.jobs)))
  where
    gone : CronService
    gone = record s { jobs = without_id id (update_first id mark s.jobs) }

    removed : (b : Bool) → find_job id (if b then save_store w gone else gone).jobs ≡ none
    removed true =
        ap (find_job id) (save_store-jobs w gone)
        ∙ find_job-without_id id (update_first id mark s.jobs)
    removed false = find_job-without_id id (update_first id mark s.jobs)
apply_after-find id mark disabled w s job k h =
    find_job-update_first id (λ j. stopped (mark j)) s.jobs job k h
apply_after-find id mark (repeats t) w s job k h =
    find_job-update_first id (λ j. with_next_run t (mark j)) s.jobs job k h

module _ (next_tick : Text → ℕ → Option ℤ) (id : Text) (start now later : ℕ) (result : Option Text)
    (first_write last_write : Bool) (s : CronService) (job : CronJob) where
  finish_job-find :
      find_job id s.jobs ≡ some job
      → find_job id (finish_job next_tick id start now later result first_write last_write s).jobs
        ≡ found_after (after_run next_tick job later) (with_result start now result job)
  unfolding finish_job
  finish_job-find h =
      rw (h, finish_job)
        (ap (find_job id) (save_store-jobs last_write _)
          ∙ apply_after-find id (with_result start now result) (after_run next_tick job later)
              first_write s job (with_result-id start now result) h)

-- Whether the job, if it is still there, is due.
abbrev pub found_due : Option CronJob → ℕ → Bool
found_due none t = false
found_due (some job) t = is_due t job

at_due :
    (a : CronJob) (d : Bool) (t : ℕ)
    → found_due (found_after (if d then deleted else disabled) a) t ≡ false
at_due a true t = refl
at_due a false t = unfold is_due in refl

-- After its run a one-time job is not due at any time again, whether it is removed or disabled and
-- whether the run succeeded.
pub finish_job-at :
    (next_tick : Text → ℕ → Option ℤ) (id : Text) (start now later : ℕ) (result : Option Text)
    (first_write last_write : Bool) (s : CronService) (job : CronJob) (t : ℕ)
    → find_job id s.jobs ≡ some job
    → job.schedule.kind ≡ at
    → found_due
        (find_job id (finish_job next_tick id start now later result first_write last_write s).jobs)
        t
      ≡ false
finish_job-at next_tick id start now later result first_write last_write s job t h k =
    ap (λ m. found_due m t)
      (finish_job-find next_tick id start now later result first_write last_write s job h)
    ∙ ap (λ a. found_due (found_after a (with_result start now result job)) t) after
    ∙ at_due (with_result start now result job) job.delete_after_run t
  where
    after : after_run next_tick job later ≡ (if job.delete_after_run then deleted else disabled)
    after = unfold after_run in ap (λ x. after_kind next_tick x job later) k

leb-pos : (e : ℕ) → 0 < e → leb e 0 ≡ false
leb-pos e h = ground arith

wrapped-due :
    (n t : ℕ) → n < 2 ^ 64 → is_due_at (wrapped n) t ≡ (if ltb n (2 ^ 63) then leb n t else true)
unfolding wrapped
wrapped-due n t h =
    let m : n % 2 ^ 64 ≡ n = omega arith in
    subst
      (λ r.
        is_due_at (if ltb r (2 ^ 63) then pos r else negsuc (2 ^ 64 - r - 1)) t
        ≡ (if ltb n (2 ^ 63) then leb n t else true))
      (sym m) (go (ltb n (2 ^ 63)))
  where
    go :
        (b : Bool)
        → is_due_at (if b then pos n else negsuc (2 ^ 64 - n - 1)) t ≡ (if b then leb n t else true)
    go true = refl
    go false = refl

-- After a run of an enabled job that repeats, it is due again when the interval behind the end of the
-- run has passed, and not before; but when that time does not fit 64 bits, it is due at once and at
-- every time.
pub finish_job-every :
    (next_tick : Text → ℕ → Option ℤ) (id : Text) (start now later : ℕ) (result : Option Text)
    (first_write last_write : Bool) (s : CronService) (job : CronJob) (e t : ℕ)
    → find_job id s.jobs ≡ some job
    → job.enabled ≡ true
    → job.schedule.kind ≡ every
    → job.schedule.every_ms ≡ some (pos e)
    → 0 < e
    → later + e < 2 ^ 64
    → found_due
        (find_job id (finish_job next_tick id start now later result first_write last_write s).jobs)
        t
      ≡ (if ltb (later + e) (2 ^ 63) then leb (later + e) t else true)
finish_job-every next_tick id start now later result first_write last_write s job e t h on k v p
      fits =
    ap (λ m. found_due m t)
      (finish_job-find next_tick id start now later result first_write last_write s job h)
    ∙ ap (λ a. found_due (found_after a (with_result start now result job)) t) after
    ∙ still_on result
    ∙ wrapped-due (later + e) t fits
  where
    next : compute_next_run next_tick job.schedule later ≡ some (wrapped (later + e))
    next =
        unfold compute_next_run in
        ap (λ x. compute_kind x next_tick job.schedule later) k
        ∙ unfold compute_kind in
          ap (λ x. next_every x later) v ∙ unfold next_every in rw (leb-pos e p) refl

    after : after_run next_tick job later ≡ repeats (some (wrapped (later + e)))
    after =
        unfold after_run in
        ap (λ x. after_kind next_tick x job later) k ∙ unfold after_kind in ap repeats next

    still_on :
        (r : Option Text)
        → found_due
            (found_after (repeats (some (wrapped (later + e)))) (with_result start now r job))
            t
          ≡ is_due_at (wrapped (later + e)) t
    still_on none = unfold is_due in rw on refl
    still_on (some x) = unfold is_due in rw on refl
