-- ===== src/Providers/ModelRef/Canonical.antt =====
-- Normalized providers and model keys are canonical: normalizing again changes nothing, and a key
-- tells its provider and its model.
use halfmoon.Base.{
  ℕ, ◌≡◌, ◌≢◌, ◌↔◌, subst, refl, ap, ap₂, ◌∙◌, false, Option, none, some, List, [], ◌∷◌, ◌++◌,
  arith, All,
}
use halfmoon.Base.Text.{Text, text_dec, to_lower, trim_space, is_space, cut}
use halfmoon.Base.Text.Laws.{to_lower_idem, trim_space-to_lower, trim_space_idem, trim_space_join}
use halfmoon.Base.Assoc.{lookup}
use halfmoon.Providers.ModelRef.{
  provider_aliases, or_same, normalize_provider, parse_model_ref, model_key,
}

-- A provider that normalizing leaves as it is.
abbrev pub IsNormal : Text → Type 0
IsNormal p = normalize_provider p ≡ p

aliases-IsNormal : All (λ row. IsNormal row.1) provider_aliases
unfolding normalize_provider lookup text_dec to_lower trim_space
aliases-IsNormal = (
  refl,
  (
    refl,
    (
      refl,
      (
        refl,
        (refl, (refl, (refl, (refl, (refl, (refl, (refl, (refl, (refl, (refl, (refl, tt))))))))))),
      ),
    ),
  ),
)

lookup-All :
    (P : Text → Type 0) (p t : Text) (rows : List (Text × Text))
    → All (λ row. P row.1) rows
    → lookup text_dec p rows ≡ some t
    → P t
unfolding lookup
lookup-All P p t [] h e = absurd (ground arith)
lookup-All P p t ((k, v) ∷ rows) h e = elim (text_dec k p) [
  | yes q ↦ subst P (ground arith) h.0
  | no q ↦ lookup-All P p t rows h.1 (ground arith)
]

base_idem : (s : Text) → to_lower (trim_space (to_lower (trim_space s))) ≡ to_lower (trim_space s)
base_idem s =
    ap to_lower (trim_space-to_lower (trim_space s))
    ∙ to_lower_idem (trim_space (trim_space s))
    ∙ ap to_lower (trim_space_idem s)

lookup-IsNormal :
    (q : Text) (o : Option Text)
    → to_lower (trim_space q) ≡ q
    → lookup text_dec q provider_aliases ≡ o
    → IsNormal (or_same o q)
unfolding normalize_provider
lookup-IsNormal q none b e =
    ap (λ x. or_same (lookup text_dec x provider_aliases) x) b ∙ ap (λ x. or_same x q) e
lookup-IsNormal q (some t) b e = lookup-All IsNormal q t provider_aliases aliases-IsNormal e

-- Normalizing a provider twice is normalizing it once.
pub normalize_provider_idem : (provider : Text) → IsNormal (normalize_provider provider)
normalize_provider_idem provider =
    unfold normalize_provider in
    lookup-IsNormal (to_lower (trim_space provider)) _ (base_idem provider) refl

-- A model's key does not depend on how its names are written: normalizing the provider, and changing
-- the case or the spaces around the model, give the same key.
pub model_key_canonical :
    (provider model : Text)
    → (model_key (normalize_provider provider) (to_lower (trim_space model))
        ≡ model_key provider model)
      × (model_key (to_lower provider) (to_lower model) ≡ model_key provider model)
unfolding model_key
model_key_canonical provider model = (
  ap₂ (λ p m. p ++ b'/' ∷ m) (normalize_provider_idem provider) (base_idem model),
  ap₂ (λ p m. p ++ b'/' ∷ m) (lower_provider provider) (lower_twice model),
)
  where
    lower_twice : (s : Text) → to_lower (trim_space (to_lower s)) ≡ to_lower (trim_space s)
    lower_twice s = ap to_lower (trim_space-to_lower s) ∙ to_lower_idem (trim_space s)

    lower_provider : (s : Text) → normalize_provider (to_lower s) ≡ normalize_provider s
    lower_provider s =
        unfold normalize_provider in
        ap (λ x. or_same (lookup text_dec x provider_aliases) x) (lower_twice s)

-- The text has no slash.
abbrev pub NoSlash : Text → Type 0
NoSlash = All (λ c. c ≢ b'/')

split_unique :
    (p q a b : Text) → NoSlash p → NoSlash q → p ++ b'/' ∷ a ≡ q ++ b'/' ∷ b → (p ≡ q) × (a ≡ b)
split_unique [] [] a b hp hq e = (refl, cc)
split_unique [] (d ∷ q) a b hp hq e = absurd (hq.0 (cc))
split_unique (c ∷ p) [] a b hp hq e = absurd (hp.0 (cc))
split_unique (c ∷ p) (d ∷ q) a b hp hq e =
    let (e', k) = split_unique p q a b hp.1 hq.1 (cc) in (cc, k)

-- Two models share a key exactly when their providers normalize alike and their names differ in case
-- and surrounding spaces alone, for providers without a slash.
pub model_key_injective :
    (p q m n : Text)
    → NoSlash (normalize_provider p)
    → NoSlash (normalize_provider q)
    → (model_key p m ≡ model_key q n) ↔ (
        (normalize_provider p ≡ normalize_provider q)
        × (to_lower (trim_space m) ≡ to_lower (trim_space n)))
unfolding model_key
model_key_injective p q m n hp hq =
    (split_unique _ _ _ _ hp hq, λ h. ap₂ (λ x y. x ++ b'/' ∷ y) h.0 h.1)

cut-append : (p m : Text) → NoSlash p → cut b'/' (p ++ b'/' ∷ m) ≡ some (p, m)
unfolding cut
cut-append [] m h = refl
cut-append (c ∷ p) m h = ground (arith, cut-append p m h.1)

-- A reference that is written provider/model is read back: the provider normalized, the model as it
-- stands. The provider begins with no space and has no slash, and the model is trimmed and not empty.
pub parse_model_ref-join :
    (c : ℕ) (p : Text) (d : ℕ) (m default_provider : Text)
    → NoSlash (c ∷ p)
    → is_space c ≡ false
    → trim_space (d ∷ m) ≡ d ∷ m
    → parse_model_ref (c ∷ p ++ b'/' ∷ d ∷ m) default_provider
      ≡ some (record { provider = normalize_provider (c ∷ p); model = d ∷ m })
unfolding parse_model_ref
parse_model_ref-join c p d m default_provider h hc hm =
    rw (trim_joined, cut-append (c ∷ p) (d ∷ m) h, hm)
  where
    ended : trim_space (b'/' ∷ d ∷ m) ≡ b'/' ∷ d ∷ m
    ended = trim_space_join b'/' [] (d ∷ m) refl hm (λ z. cc)

    trim_joined : trim_space (c ∷ p ++ b'/' ∷ d ∷ m) ≡ c ∷ p ++ b'/' ∷ d ∷ m
    trim_joined = trim_space_join c p (b'/' ∷ d ∷ m) hc ended (λ z. cc)
