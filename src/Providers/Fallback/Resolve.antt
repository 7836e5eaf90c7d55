-- ===== src/Providers/Fallback/Resolve.antt =====
-- The candidate list of ResolveCandidatesWithLookup: no model twice, and none missing.
use halfmoon.Base.{
  ◌≡◌, inl, inr, refl, ap, sym, ◌∙◌, true, false, ◌||◌, Option, none, some, List, [], ◌∷◌, ◌++◌,
  map, arith, All, Bool-cases, holds,
}
use halfmoon.Base.Text.{Text, text_dec, trim_space}
use halfmoon.Providers.ModelRef.{ModelRef, parse_model_ref, model_key}
use halfmoon.Providers.Fallback.{
  FallbackCandidate, ModelConfig, Candidates, is_seen, resolved, add_ref, add_candidates,
  resolve_candidates_with_lookup, key_of,
}

abbrev pub keys : List FallbackCandidate → List Text
keys cs = map key_of cs

-- Every key is new behind the ones before it: no two candidates share a key.
abbrev pub Distinct : List Text → List Text → Type 0
Distinct before [] = Unit
Distinct before (k ∷ ks) = (is_seen k before ≡ false) × Distinct (k ∷ before) ks

is_seen-cons :
    (k j : Text) (ks : List Text) → is_seen k (j ∷ ks) ≡ (holds (text_dec j k) || is_seen k ks)
unfolding is_seen
is_seen-cons k j ks = refl

-- What the loop keeps: the keys seen are those of the candidates, which are distinct.
record Tracks (c : Candidates) : Type 0 where
  pub seen_are : (k : Text) → is_seen k c.seen ≡ is_seen k (keys c.found)
  pub distinct : Distinct [] (keys c.found)

Distinct-snoc :
    (before ks : List Text) (k : Text)
    → Distinct before ks
    → is_seen k before ≡ false
    → is_seen k ks ≡ false
    → Distinct before (ks ++ k ∷ [])
unfolding is_seen
Distinct-snoc before [] k d h g = (h, tt)
Distinct-snoc before (j ∷ ks) k d h g =
    (d.0, Distinct-snoc (j ∷ before) ks k d.1 (ground arith) (ground arith))

is_seen-snoc :
    (k j : Text) (ks : List Text)
    → is_seen k (ks ++ j ∷ []) ≡ (holds (text_dec j k) || is_seen k ks)
unfolding is_seen
is_seen-snoc k j [] = refl
is_seen-snoc k j (i ∷ ks) = ground (arith, is_seen-snoc k j ks)

keys-snoc :
    (cs : List FallbackCandidate) (c : FallbackCandidate)
    → keys (cs ++ c ∷ []) ≡ keys cs ++ key_of c ∷ []
keys-snoc [] c = refl
keys-snoc (d ∷ cs) c = ap (◌∷◌ (key_of d)) (keys-snoc cs c)

add_ref-Tracks : (ref : Option ModelRef) (c : Candidates) → Tracks c → Tracks (add_ref ref c)
unfolding add_ref
add_ref-Tracks none c t = t
add_ref-Tracks (some ref) c t =
    elim (Bool-cases (is_seen (model_key ref.provider ref.model) c.seen)) [
      | inl old ↦ rw old t
      | inr new ↦ rw new (record {
        seen_are = λ k.
            is_seen-cons k key c.seen
            ∙ ap (λ b. holds (text_dec key k) || b) (t.seen_are k)
            ∙ sym (rw (keys-snoc c.found added) (is_seen-snoc k key (keys c.found)));
        distinct = rw (keys-snoc c.found added) (
            Distinct-snoc [] (keys c.found) key t.distinct (unfold is_seen in refl)
              (sym (t.seen_are key) ∙ new));
      })
    ]
  where
    key : Text
    key = model_key ref.provider ref.model

    added : FallbackCandidate
    added = record { provider = ref.provider; model = ref.model }

-- The key of a reference is among those of the candidates.
abbrev Held : Option ModelRef → Candidates → Type 0
Held none c = Unit
Held (some ref) c = is_seen (model_key ref.provider ref.model) c.seen ≡ true

add_ref-Held : (ref : Option ModelRef) (c : Candidates) → Held ref (add_ref ref c)
unfolding add_ref
add_ref-Held none c = tt
add_ref-Held (some ref) c = ground arith

add_ref-keeps :
    (ref : Option ModelRef) (c : Candidates) (k : Text)
    → is_seen k c.seen ≡ true
    → is_seen k (add_ref ref c).seen ≡ true
unfolding add_ref
add_ref-keeps none c k h = h
add_ref-keeps (some ref) c k h = ground arith

-- What a raw name is read as.
abbrev pub read_as : (Text → Option Text) → Text → Text → Option ModelRef
read_as find default_provider raw =
    parse_model_ref (resolved find (trim_space raw)) default_provider

-- The model that a name is read as is among these candidates; a name that is read as none is passed
-- over.
abbrev pub IsListed : Option ModelRef → List FallbackCandidate → Type 0
IsListed none cs = Unit
IsListed (some ref) cs = is_seen (model_key ref.provider ref.model) (keys cs) ≡ true

module _ (find : Text → Option Text) (default_provider : Text) where
  add_candidates-Tracks :
      (raws : List Text) (c : Candidates)
      → Tracks c
      → Tracks (add_candidates find default_provider raws c)
  unfolding add_candidates
  add_candidates-Tracks [] c t = t
  add_candidates-Tracks (raw ∷ raws) c t =
      add_candidates-Tracks raws _ (add_ref-Tracks (read_as find default_provider raw) c t)

  add_candidates-keeps :
      (raws : List Text) (c : Candidates) (k : Text)
      → is_seen k c.seen ≡ true
      → is_seen k (add_candidates find default_provider raws c).seen ≡ true
  unfolding add_candidates
  add_candidates-keeps [] c k h = h
  add_candidates-keeps (raw ∷ raws) c k h =
      add_candidates-keeps raws _ k (add_ref-keeps (read_as find default_provider raw) c k h)

  Held-later :
      (ref : Option ModelRef) (raws : List Text) (c : Candidates)
      → Held ref c
      → Held ref (add_candidates find default_provider raws c)
  Held-later none raws c h = tt
  Held-later (some ref) raws c h = add_candidates-keeps raws c _ h

  add_candidates-Held :
      (raws : List Text) (c : Candidates)
      → All
          (λ raw.
            Held (read_as find default_provider raw) (add_candidates find default_provider raws c))
          raws
  unfolding add_candidates
  add_candidates-Held [] c = tt
  add_candidates-Held (raw ∷ raws) c =
      let ref = read_as find default_provider raw in
      (
        Held-later ref raws (add_ref ref c) (add_ref-Held ref c),
        add_candidates-Held raws (add_ref ref c),
      )

  Held-IsListed :
      (ref : Option ModelRef) (c : Candidates) → Tracks c → Held ref c → IsListed ref c.found
  Held-IsListed none c t h = tt
  Held-IsListed (some ref) c t h = sym (t.seen_are _) ∙ h

  All-IsListed :
      (raws : List Text) (c : Candidates)
      → Tracks c
      → All (λ raw. Held (read_as find default_provider raw) c) raws
      → All (λ raw. IsListed (read_as find default_provider raw) c.found) raws
  All-IsListed [] c t h = tt
  All-IsListed (raw ∷ raws) c t h = (Held-IsListed _ c t h.0, All-IsListed raws c t h.1)

  -- No two candidates have the same key, and each of the configured names, the primary one and the
  -- fallbacks, that reads as a model has that model's key among the candidates.
  pub resolve_candidates_complete :
      (cfg : ModelConfig)
      → let cs = resolve_candidates_with_lookup cfg default_provider find in
        Distinct [] (keys cs)
        × All (λ raw. IsListed (read_as find default_provider raw) cs) (cfg.primary ∷ cfg.fallbacks)
  unfolding resolve_candidates_with_lookup
  resolve_candidates_complete cfg =
      let raws = cfg.primary ∷ cfg.fallbacks in
      let none_yet : Candidates = record { seen = []; found = [] } in
      let t =
        add_candidates-Tracks raws none_yet (record { seen_are = λ k. refl; distinct = tt }) in
      (t.distinct, All-IsListed raws _ t (add_candidates-Held raws none_yet))
