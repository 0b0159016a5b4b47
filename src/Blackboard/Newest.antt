-- ===== src/Blackboard/Newest.antt =====
-- After any facts have been published, the store holds the newest fact of each key.
use minecraft_ai.Prelude.{
  ◌≤◌, ◌<◌, Str, Option, none, some, ◌≡◌, ◌≢◌, refl, ◌⊎◌, inl, inr, ◌↔◌, List, [], ◌∷◌, lookup,
  lookup-insert, same, same_iff, In, arith, Bool-cases, if◌then◌else◌,
}
use minecraft_ai.Blackboard.{
  PerceptFact, PerceptionBlackboard, empty, holds_off, publish, publish_many,
}

module _ {V : Type 0} where
  -- `f` is at least as new as `g`: a higher sequence, or the same and not observed earlier
  pub record IsAtLeast (f g : PerceptFact V) : Type 0 where
    pub order :
        (g.sequence < f.sequence)
        ⊎ ((g.sequence ≡ f.sequence) × (g.observed_monotonic_ns ≤ f.observed_monotonic_ns))

  -- `o` is the newest of the facts in `P` with the key `k`, or there is none
  abbrev pub IsNewest : Str → (PerceptFact V → Type 0) → Option (PerceptFact V) → Type 0
  IsNewest k P none = (g : PerceptFact V) → P g → g.key ≢ k
  IsNewest k P (some f) =
      P f × (f.key ≡ k) × ((g : PerceptFact V) → P g → g.key ≡ k → IsAtLeast f g)

  IsNewest-iff :
      (k : Str) {P Q : PerceptFact V → Type 0} (o : Option (PerceptFact V))
      → ((g : PerceptFact V) → P g ↔ Q g)
      → IsNewest k P o
      → IsNewest k Q o
  IsNewest-iff k none e h = λ g q. h g ((e g).1 q)
  IsNewest-iff k (some f) e h = ((e f).0 h.0, h.1, λ g q. h.2 g ((e g).1 q))

  -- which of the stored and the published fact stays
  abbrev newer : Option (PerceptFact V) → PerceptFact V → PerceptFact V
  newer none f = f
  newer (some c) f = if holds_off c f then c else f

  lookup-publish :
      (f : PerceptFact V) (b : PerceptionBlackboard V) (k : Str)
      → lookup k (publish f b).1.facts
        ≡ (if same f.key k then some (newer (lookup k b.facts) f) else lookup k b.facts)
  unfolding publish
  lookup-publish f b k = ground (arith, lookup-insert f.key k f b.facts, same_iff f.key k)

  IsAtLeast-trans : (f g h : PerceptFact V) → IsAtLeast f g → IsAtLeast g h → IsAtLeast f h
  IsAtLeast-trans f g h p q = ground arith

  newer-IsNewest :
      (k : Str) (P : PerceptFact V → Type 0) (o : Option (PerceptFact V)) (f : PerceptFact V)
      → f.key ≡ k
      → IsNewest k P o
      → IsNewest k (λ g. P g ⊎ (f ≡ g)) (some (newer o f))
  unfolding holds_off
  newer-IsNewest k P none f e h = (
    inr refl,
    e,
    λ g m key. elim m [ inl p ↦ absurd (h g p key) | inr q ↦ rw (← q) (ground arith) ],
  )
  newer-IsNewest k P (some c) f e h = elim (Bool-cases (holds_off c f)) [
    | inl held ↦
        let late : IsAtLeast c f = ground arith in
        rw held (inl h.0, h.1, λ g m key. elim m [ inl p ↦ h.2 g p key | inr q ↦ rw (← q) late ])
    | inr passed ↦
        let late : IsAtLeast f c = ground arith in
        rw passed (
          inr refl,
          e,
          λ g m key. elim m [
            | inl p ↦ IsAtLeast-trans f c g late (h.2 g p key)
            | inr q ↦ rw (← q) (ground arith)
          ],
        )
  ]

  publish-IsNewest :
      (k : Str) (P : PerceptFact V → Type 0) (f : PerceptFact V) (b : PerceptionBlackboard V)
      → IsNewest k P (lookup k b.facts)
      → IsNewest k (λ g. P g ⊎ (f ≡ g)) (lookup k (publish f b).1.facts)
  publish-IsNewest k P f b h = rw lookup-publish (elim (Bool-cases (same f.key k)) [
    | inl e ↦ rw e (newer-IsNewest k P (lookup k b.facts) f ((same_iff f.key k).0 e) h)
    | inr e ↦ rw e (other (lookup k b.facts) (λ p. cc ((same_iff f.key k).1 p, e)) h)
  ])
    where
      other :
          (o : Option (PerceptFact V))
          → f.key ≢ k
          → IsNewest k P o
          → IsNewest k (λ g. P g ⊎ (f ≡ g)) o
      other none ne h = λ g m. elim m [ inl p ↦ h g p | inr q ↦ rw (← q) ne ]
      other (some c) ne h =
          (inl h.0, h.1, λ g m key. elim m [ inl p ↦ h.2 g p key | inr q ↦ absurd (ne (rw q key)) ])

  IsNewest-from :
      (k : Str) (P : PerceptFact V → Type 0) (fs : List (PerceptFact V))
      (b : PerceptionBlackboard V)
      → IsNewest k P (lookup k b.facts)
      → IsNewest k (λ g. P g ⊎ In g fs) (lookup k (publish_many fs b).1.facts)
  unfolding publish_many
  IsNewest-from k P [] b h =
      IsNewest-iff k (lookup k b.facts) (λ g. (λ p. inl p, elim [ inl p ↦ p | inr n ↦ absurd n ])) h
  IsNewest-from k P (f ∷ fs) b h =
      IsNewest-iff k (lookup k (publish_many fs (publish f b).1).1.facts)
        (λ g. (
          elim [ inl m ↦ elim m [ inl p ↦ inl p | inr q ↦ inr (inl q) ] | inr n ↦ inr (inr n) ],
          elim [ inl p ↦ inl (inl p) | inr m ↦ elim m [ inl q ↦ inl (inr q) | inr n ↦ inr n ] ],
        ))
        (IsNewest-from k (λ g. P g ⊎ (f ≡ g)) fs (publish f b).1 (publish-IsNewest k P f b h))

  -- After any facts have been published to an empty blackboard in any order, the fact stored under a
  -- key is one of them with that key, and none of them with that key has a higher sequence, or the
  -- same sequence and a later observation; with nothing stored, none of them had the key.
  pub publish_many-IsNewest :
      (fs : List (PerceptFact V)) (k : Str)
      → IsNewest k (λ g. In g fs) (lookup k (publish_many fs empty).1.facts)
  unfolding lookup
  publish_many-IsNewest fs k =
      IsNewest-iff k (lookup k (publish_many fs empty).1.facts)
        (λ g. (elim [ inl p ↦ absurd p | inr n ↦ n ], λ n. inr n))
        (IsNewest-from k (λ g. ⊥) fs empty (λ g p. absurd p))
