-- ===== src/Blackboard/Reads.antt =====
-- What reads of the blackboard return, and what `expire` and `clear_source` remove.
use minecraft_ai.Prelude.{
  inl, inr, Bool-cases, ℕ, suc, ◌+◌, ◌*◌, ◌≤◌, ◌<◌, Str, Bool, true, Option, none, some, ◌≡◌, refl,
  ◌⊎◌, ◌↔◌, List, [], ◌∷◌, lookup, Dict, values, without, same_iff, In, In-select, select, arith,
  if◌then◌else◌, IsSortedBy, sort_by-IsSortedBy, In-sort_by,
}
use minecraft_ai.Blackboard.{
  PerceptFact, PerceptionBlackboard, PerceptKind, PerceptSource, get, passes, snapshot, any,
  kind_allowed, source_allowed, stale, decides, PerceptKind-discrete, PerceptSource-discrete,
}

-- no list, or one that the item stands in
abbrev pub IsAmong : {A : Type 0} → Option (List A) → A → Type 0
IsAmong none x = Unit
IsAmong (some xs) x = In x xs

decides_iff : {P : Type 0} → (d : Dec P) → (decides d ≡ true) ↔ P
decides_iff (yes p) = (λ h. p, λ p. refl)
decides_iff (no n) = (λ h. absurd (cc h), λ p. absurd (n p))

any-In :
    {A : Type 0} (d : (x y : A) → Dec (x ≡ y)) (a : A) (xs : List A)
    → (any (λ x. decides (d x a)) xs ≡ true) ↔ In a xs
any-In d a [] = (λ h. absurd (cc h), λ m. absurd m)
any-In d a (x ∷ xs) =
    let here = decides_iff (d x a) in
    let rest = any-In d a xs in
    elim (Bool-cases (decides (d x a))) [
      | inl b ↦ (λ h. inl (here.0 b), λ m. rw b refl)
      | inr b ↦ (
        λ h. inr (rest.0 (rw b at h)),
        λ m. elim m [ inl p ↦ absurd (cc (here.1 p, b)) | inr n ↦ rw b (rest.1 n) ],
      )
    ]

kind_allowed-IsAmong :
    (kinds : Option (List PerceptKind)) (k : PerceptKind)
    → (kind_allowed kinds k ≡ true) ↔ IsAmong kinds k
unfolding kind_allowed
kind_allowed-IsAmong none k = (λ h. tt, λ h. refl)
kind_allowed-IsAmong (some ks) k = any-In PerceptKind-discrete k ks

source_allowed-IsAmong :
    (sources : Option (List PerceptSource)) (s : PerceptSource)
    → (source_allowed sources s ≡ true) ↔ IsAmong sources s
unfolding source_allowed
source_allowed-IsAmong none s = (λ h. tt, λ h. refl)
source_allowed-IsAmong (some ss) s = any-In PerceptSource-discrete s ss

module _ {V : Type 0} where
  -- `get` returns a fact exactly if it is stored under the key, is confident enough and, unless stale
  -- facts are asked for, its ttl has not passed since its observation.
  pub get_iff :
      (k : Str) (min_confidence : ℕ) (include_stale : Bool) (now : ℕ) (b : PerceptionBlackboard V)
      (f : PerceptFact V)
      → (get k min_confidence include_stale now b ≡ some f) ↔ (
          (lookup k b.facts ≡ some f)
          × (min_confidence ≤ f.confidence)
          × ((include_stale ≡ true)
              ⊎ ((0 < f.ttl_ms) × (now < f.observed_monotonic_ns + f.ttl_ms * 1000000))))
  unfolding get
  get_iff k m i now b f = ground arith

  -- the fact is confident enough, of a kind and source asked for, and fresh unless stale facts are
  -- asked for: its ttl is not 0 and has not passed since its observation
  pub record IsWanted (kinds : Option (List PerceptKind)) (sources : Option (List PerceptSource))
      (min_confidence : ℕ) (include_stale : Bool) (captured : ℕ) (f : PerceptFact V) : Type 0 where
    pub confident : min_confidence ≤ f.confidence
    pub of_kind : IsAmong kinds f.kind
    pub of_source : IsAmong sources f.source
    pub fresh :
        (include_stale ≡ true)
        ⊎ ((0 < f.ttl_ms) × (captured < f.observed_monotonic_ns + f.ttl_ms * 1000000))

  passes_parts :
      (kinds : Option (List PerceptKind)) (sources : Option (List PerceptSource))
      (min_confidence : ℕ) (include_stale : Bool) (captured : ℕ) (f : PerceptFact V)
      → (passes kinds sources min_confidence include_stale captured f ≡ true) ↔ (
          (min_confidence ≤ f.confidence)
          × (kind_allowed kinds f.kind ≡ true)
          × (source_allowed sources f.source ≡ true)
          × ((include_stale ≡ true)
              ⊎ ((0 < f.ttl_ms) × (captured < f.observed_monotonic_ns + f.ttl_ms * 1000000))))
  unfolding passes stale
  passes_parts kinds sources m i captured f = ground arith

  passes-IsWanted :
      (kinds : Option (List PerceptKind)) (sources : Option (List PerceptSource))
      (min_confidence : ℕ) (include_stale : Bool) (captured : ℕ) (f : PerceptFact V)
      → (passes kinds sources min_confidence include_stale captured f ≡ true)
        ↔ IsWanted kinds sources min_confidence include_stale captured f
  passes-IsWanted kinds sources m i captured f =
      let parts = passes_parts kinds sources m i captured f in
      let kind = kind_allowed-IsAmong kinds f.kind in
      let source = source_allowed-IsAmong sources f.source in
      (
        λ h.
            let (a, b, c, d) = parts.0 h in
            record { confident = a; of_kind = kind.0 b; of_source = source.0 c; fresh = d },
        λ w. parts.1 (w.confident, kind.1 w.of_kind, source.1 w.of_source, w.fresh),
      )

  -- A snapshot is sorted by key, holds exactly the stored facts that are confident enough, of the
  -- kinds and sources asked for and, unless stale facts are asked for, with a ttl that has not passed
  -- since their observation, and takes the next snapshot number.
  pub snapshot_lem :
      (kinds : Option (List PerceptKind)) (sources : Option (List PerceptSource))
      (min_confidence : ℕ) (include_stale : Bool) (captured : ℕ) (b : PerceptionBlackboard V)
      → let (s, b') = snapshot kinds sources min_confidence include_stale captured b in
        IsSortedBy (λ (f : PerceptFact V). f.key) s.facts
        × ((f : PerceptFact V)
            → In f s.facts ↔ (
                In f (values b.facts)
                × IsWanted kinds sources min_confidence include_stale captured f))
        × (s.sequence ≡ suc b.snapshot_sequence)
        × (b'.snapshot_sequence ≡ s.sequence)
        × (b'.facts ≡ b.facts)
  unfolding snapshot
  snapshot_lem kinds sources m i captured b =
      let kept = select (passes kinds sources m i captured) (values b.facts) in
      let key = λ (f : PerceptFact V). f.key in
      let member =
        λ (f : PerceptFact V). In-select (passes kinds sources m i captured) f (values b.facts) in
      (
        sort_by-IsSortedBy key kept,
        λ f. (
          λ h.
              let (stored, pass) = (member f).0 ((In-sort_by key f kept).0 h) in
              (stored, (passes-IsWanted kinds sources m i captured f).0 pass),
          λ h.
              (In-sort_by key f kept).1
                ((member f).1 (h.0, (passes-IsWanted kinds sources m i captured f).1 h.1)),
        ),
        refl,
        refl,
        refl,
      )

  -- removing items by a test, for a dict whose items stand under their own keys, each key once
  abbrev pub IsKeyed : Dict (PerceptFact V) → Type 0
  IsKeyed [] = Unit
  IsKeyed ((j, f) ∷ d) = (f.key ≡ j) × (lookup j d ≡ none) × IsKeyed d

  pub lookup-without :
      (test : PerceptFact V → Bool) (k : Str) (d : Dict (PerceptFact V))
      → IsKeyed d
      → lookup k (without test d)
        ≡ elim (lookup k d) [ none ↦ none | some f ↦ if test f then none else some f ]
  unfolding lookup without
  lookup-without test k [] h = refl
  lookup-without test k ((j, f) ∷ d) h = ground (arith, lookup-without test k d h.2, same_iff j k)
