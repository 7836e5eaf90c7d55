-- ===== src/Routing/AgentId/Laws.antt =====
-- What NormalizeAgentID can return.
use halfmoon.Base.{
  ℕ, zero, suc, ◌≤◌, ◌≡◌, ◌≢◌, inl, inr, refl, ap₂, Bool, true, false, [], ◌∷◌, arith, ltb, ◌==◌,
  if◌then◌else◌, length, take, All, Bool-cases,
}
use halfmoon.Base.Text.{Text, to_lower, lower, trim_space, is_space}
use halfmoon.Base.Text.Laws.{trim_space_solid}
use halfmoon.Routing.AgentId.{
  default_agent_id, default_account_id, max_agent_id_length, is_id_char, all_id_chars, is_valid_id,
  replace_invalid, strip_leading, keep_dash, strip_trailing, shorten, or_default, sanitize,
  normalize_trimmed, normalize_agent_id, normalize_account_id,
}

abbrev pub AllIdChars : Text → Type 0
AllIdChars = All (λ c. is_id_char c ≡ true)

-- Not empty, at most 64 characters, each a lower-case letter, a digit, "_" or "-".
pub record IsId (s : Text) : Type 0 where
  pub nonempty : s ≢ []
  pub short : length s ≤ max_agent_id_length
  pub chars : AllIdChars s

all_id_chars-AllIdChars : (s : Text) → all_id_chars s ≡ true → AllIdChars s
unfolding all_id_chars
all_id_chars-AllIdChars [] e = tt
all_id_chars-AllIdChars (c ∷ s) e = (ground arith, all_id_chars-AllIdChars s (ground arith))

pub is_valid_id-IsId : (s : Text) → is_valid_id s ≡ true → IsId s
unfolding is_valid_id
is_valid_id-IsId [] e = absurd (cc)
is_valid_id-IsId (c ∷ s) e = record {
  nonempty = λ z. cc;
  short = ground arith;
  chars = (ground arith, all_id_chars-AllIdChars s (ground arith));
}

replace_invalid-AllIdChars : (b : Bool) (s : Text) → AllIdChars (replace_invalid b s)
unfolding replace_invalid
replace_invalid-AllIdChars b [] = tt
replace_invalid-AllIdChars b (c ∷ s) = elim (Bool-cases (is_id_char c)) [
  | inl v ↦ rw (v, replace_invalid) (v, replace_invalid-AllIdChars false s)
  | inr v ↦ rw (v, replace_invalid) (open_run b (replace_invalid-AllIdChars true s))
]
  where
    open_run :
        (d : Bool)
        → AllIdChars (replace_invalid true s)
        → AllIdChars (if d then replace_invalid true s else b'-' ∷ replace_invalid true s)
    open_run true h = h
    open_run false h = (refl, h)

strip_leading-AllIdChars : (s : Text) → AllIdChars s → AllIdChars (strip_leading s)
unfolding strip_leading
strip_leading-AllIdChars [] h = tt
strip_leading-AllIdChars (c ∷ s) h = elim (Bool-cases (c == b'-')) [
  | inl d ↦ rw d (strip_leading-AllIdChars s h.1)
  | inr d ↦ rw d h
]

keep_dash-AllIdChars :
    (c : ℕ) (s : Text) → is_id_char c ≡ true → AllIdChars s → AllIdChars (keep_dash c s)
unfolding keep_dash
keep_dash-AllIdChars c [] h k = elim (Bool-cases (c == b'-')) [
  | inl d ↦ rw d tt
  | inr d ↦ rw d (h, tt)
]
keep_dash-AllIdChars c (x ∷ xs) h k = (h, k)

strip_trailing-AllIdChars : (s : Text) → AllIdChars s → AllIdChars (strip_trailing s)
unfolding strip_trailing
strip_trailing-AllIdChars [] h = tt
strip_trailing-AllIdChars (c ∷ s) h =
    keep_dash-AllIdChars c (strip_trailing s) h.0 (strip_trailing-AllIdChars s h.1)

take-AllIdChars :
    (n : ℕ) (s : Text) → AllIdChars s → AllIdChars (take n s) × (length (take n s) ≤ n)
take-AllIdChars zero s h = (tt, omega arith)
take-AllIdChars (suc n) [] h = (tt, omega arith)
take-AllIdChars (suc n) (c ∷ s) h = let (k, l) = take-AllIdChars n s h.1 in ((h.0, k), omega arith)

shorten-AllIdChars :
    (s : Text) → AllIdChars s → AllIdChars (shorten s) × (length (shorten s) ≤ max_agent_id_length)
unfolding shorten
shorten-AllIdChars s h = elim (Bool-cases (ltb max_agent_id_length (length s))) [
  | inl long ↦ rw long (take-AllIdChars max_agent_id_length s h)
  | inr fits ↦ rw fits (h, ground arith)
]

sanitize-AllIdChars :
    (s : Text) → AllIdChars (sanitize s) × (length (sanitize s) ≤ max_agent_id_length)
unfolding sanitize
sanitize-AllIdChars s =
    shorten-AllIdChars (strip_trailing (strip_leading (replace_invalid false s))) (
      strip_trailing-AllIdChars (strip_leading (replace_invalid false s))
        (strip_leading-AllIdChars (replace_invalid false s) (replace_invalid-AllIdChars false s)))

or_default-IsId :
    (d s : Text) → IsId d → AllIdChars s × (length s ≤ max_agent_id_length) → IsId (or_default d s)
unfolding or_default
or_default-IsId d [] k h = k
or_default-IsId d (c ∷ s) k h = record { nonempty = λ z. cc; short = h.1; chars = h.0 }

normalize_trimmed-IsId : (d s : Text) → IsId d → IsId (normalize_trimmed d s)
unfolding normalize_trimmed
normalize_trimmed-IsId d [] k = k
normalize_trimmed-IsId d (c ∷ s) k = elim (Bool-cases (is_valid_id (to_lower (c ∷ s)))) [
  | inl v ↦ rw (v, normalize_trimmed) (is_valid_id-IsId (to_lower (c ∷ s)) v)
  | inr v ↦
      rw (v, normalize_trimmed)
        (or_default-IsId d (sanitize (to_lower (c ∷ s))) k (sanitize-AllIdChars (to_lower (c ∷ s))))
]

-- Whatever the text, NormalizeAgentID and NormalizeAccountID return an id: not empty, at most 64
-- characters, and each of them a lower-case letter, a digit, an underscore or a dash.
pub normalize_agent_id-IsId :
    (id : Text) → IsId (normalize_agent_id id) × IsId (normalize_account_id id)
unfolding normalize_agent_id normalize_account_id
normalize_agent_id-IsId id = (
  normalize_trimmed-IsId default_agent_id (trim_space id) (is_valid_id-IsId default_agent_id refl),
  normalize_trimmed-IsId default_account_id (trim_space id)
      (is_valid_id-IsId default_account_id refl),
)

id_char_solid : (c : ℕ) → is_id_char c ≡ true → (is_space c ≡ false) × (lower c ≡ c)
id_char_solid c h = (ground arith, ground arith)

solid_chars : (s : Text) → AllIdChars s → All (λ c. is_space c ≡ false) s
solid_chars [] h = tt
solid_chars (c ∷ s) h = ((id_char_solid c h.0).0, solid_chars s h.1)

pub to_lower-AllIdChars : (s : Text) → AllIdChars s → to_lower s ≡ s
unfolding to_lower
to_lower-AllIdChars [] h = refl
to_lower-AllIdChars (c ∷ s) h =
    ap₂ (λ x xs. x ∷ xs) (id_char_solid c h.0).1 (to_lower-AllIdChars s h.1)

pub trim_space-AllIdChars : (s : Text) → AllIdChars s → trim_space s ≡ s
trim_space-AllIdChars s h = trim_space_solid s (solid_chars s h)

normalize_trimmed-valid : (d s : Text) → is_valid_id s ≡ true → normalize_trimmed d s ≡ s
unfolding normalize_trimmed
normalize_trimmed-valid d [] v = absurd (unfold is_valid_id in cc)
normalize_trimmed-valid d (c ∷ s) v =
    let e = to_lower-AllIdChars (c ∷ s) (is_valid_id-IsId (c ∷ s) v).chars in
    rw (e, v, normalize_trimmed) refl

-- A text that matches validIDRe is its own id.
pub normalize_agent_id-valid : (s : Text) → is_valid_id s ≡ true → normalize_agent_id s ≡ s
unfolding normalize_agent_id
normalize_agent_id-valid s v =
    rw (trim_space-AllIdChars s (is_valid_id-IsId s v).chars)
      (normalize_trimmed-valid default_agent_id s v)
