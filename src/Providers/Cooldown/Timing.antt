-- ===== src/Providers/Cooldown/Timing.antt =====
-- How long a provider stays out: the two backoff tables, and availability against what remains.
use halfmoon.Base.{
  ℕ, zero, suc, ◌+◌, ◌-◌, ◌*◌, ◌^◌, ◌≤◌, min, max, ◌≡◌, ◌↔◌, refl, true, Option, none, some, arith,
  leb, ◌==◌, if◌then◌else◌,
}
use halfmoon.Base.Text.{Text}
use halfmoon.Providers.Cooldown.{
  Entry, CooldownTracker, millisecond, hour, entry_of, is_available, cooldown_remaining,
  calculate_standard_cooldown, calculate_billing_cooldown, entry_available, entry_remaining,
}

abbrev pub minute : ℕ
minute = 60_000 * millisecond

-- The table in the comment of calculateStandardCooldown.
abbrev pub standard_table : ℕ → ℕ
standard_table n =
    if leb n 1 then minute else if n == 2 then 5 * minute else if n == 3 then 25 * minute else hour

-- The standard backoff is one minute, 5, 25 and then one hour for every further error.
pub calculate_standard_cooldown-table : (n : ℕ) → calculate_standard_cooldown n ≡ standard_table n
unfolding calculate_standard_cooldown
calculate_standard_cooldown-table zero = refl
calculate_standard_cooldown-table (suc zero) = refl
calculate_standard_cooldown-table (suc (suc zero)) = refl
calculate_standard_cooldown-table (suc (suc (suc zero))) = refl
calculate_standard_cooldown-table (suc (suc (suc (suc n)))) =
    let e : min (max 1 (suc (suc (suc (suc n)))) - 1) 3 ≡ 3 = omega arith in rw e (ground arith)

-- The table in the comment of calculateBillingCooldown.
abbrev pub billing_table : ℕ → ℕ
billing_table n =
    if leb n 1
    then 5 * hour
    else if n == 2
    then 10 * hour
    else if n == 3
    then 20 * hour
    else 24 * hour

billing_capped :
    (k : ℕ)
    → 3 ≤ k
    → k ≤ 10
    → min (24 * 60 * 60 * 1000) (5 * 60 * 60 * 1000 * 2 ^ k) ≡ 24 * 60 * 60 * 1000
billing_capped zero h l = absurd (omega arith)
billing_capped (suc zero) h l = absurd (omega arith)
billing_capped (suc (suc zero)) h l = absurd (omega arith)
billing_capped (suc (suc (suc zero))) h l = refl
billing_capped (suc (suc (suc (suc zero)))) h l = refl
billing_capped (suc (suc (suc (suc (suc zero))))) h l = refl
billing_capped (suc (suc (suc (suc (suc (suc zero)))))) h l = refl
billing_capped (suc (suc (suc (suc (suc (suc (suc zero))))))) h l = refl
billing_capped (suc (suc (suc (suc (suc (suc (suc (suc zero)))))))) h l = refl
billing_capped (suc (suc (suc (suc (suc (suc (suc (suc (suc zero))))))))) h l = refl
billing_capped (suc (suc (suc (suc (suc (suc (suc (suc (suc (suc k)))))))))) h l =
    let e : k ≡ 0 = omega arith in rw e

-- The billing backoff is 5 hours, 10, 20 and then 24 hours for every further error.
pub calculate_billing_cooldown-table : (n : ℕ) → calculate_billing_cooldown n ≡ billing_table n
unfolding calculate_billing_cooldown
calculate_billing_cooldown-table zero = refl
calculate_billing_cooldown-table (suc zero) = refl
calculate_billing_cooldown-table (suc (suc zero)) = refl
calculate_billing_cooldown-table (suc (suc (suc zero))) = refl
calculate_billing_cooldown-table (suc (suc (suc (suc n)))) =
    rw (billing_capped (min (max 1 (suc (suc (suc (suc n)))) - 1) 10) (omega arith) (omega arith))
      (ground arith)

pub calculate_standard_cooldown-le : (n : ℕ) → calculate_standard_cooldown n ≤ hour
calculate_standard_cooldown-le n = rw (calculate_standard_cooldown-table n) (ground arith)

pub calculate_billing_cooldown-le : (n : ℕ) → calculate_billing_cooldown n ≤ 24 * hour
calculate_billing_cooldown-le n = rw (calculate_billing_cooldown-table n) (ground arith)

later_iff :
    (e : Option Entry) (now t : ℕ)
    → now ≤ t
    → (entry_available e t ≡ true) ↔ (now + entry_remaining e now ≤ t)
later_iff none now t h = (λ _. omega arith, λ _. refl)
later_iff (some e) now t h = (λ k. ground arith, λ k. ground arith)

-- What remains of a cooldown is exact: with no mark in between, the key is out for just that long, so
-- it is available now exactly when nothing remains.
pub is_available_later :
    (key : Text) (now t : ℕ) (ct : CooldownTracker)
    → now ≤ t
    → (is_available key t ct ≡ true) ↔ (now + cooldown_remaining key now ct ≤ t)
unfolding is_available cooldown_remaining
is_available_later key now t ct h = later_iff (entry_of key ct) now t h
