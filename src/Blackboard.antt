-- ===== src/Blackboard.antt =====
-- perception/blackboard.py: the latest-fact store shared by perception, skills and cognition. The
-- lock makes each method one step, and the reading of the clock is an argument. A confidence is a
-- float in [0, 1], in units of 2 ^ -1074; the value of a fact is of any type.
pub mod Newest
pub mod Reads
pub mod Keyed
mod Examples
use minecraft_ai.Prelude.{
  ℕ, zero, suc, ◌+◌, ◌*◌, ◌-◌, Str, Bool, true, false, Option, none, some, ◌&&◌, ◌||◌, not, ltb,
  leb, ◌==◌, any, select, if◌then◌else◌, List, [], ◌∷◌, length, map, lookup, insert, without,
  values, Dict, sort_by,
}

pub data PerceptSource : Type 0 where
  fast_vision hud chat gui vlm motor audio system : PerceptSource

pub data PerceptKind : Type 0 where
  player hud_kind hotbar gui_kind chat_kind crosshair object terrain event motion world :
      PerceptKind

pub PerceptSource-discrete : Discrete PerceptSource
PerceptSource-discrete = hlevel

pub PerceptKind-discrete : Discrete PerceptKind
PerceptKind-discrete = hlevel

abbrev pub decides : {P : Type 0} → Dec P → Bool
decides (yes _) = true
decides (no _) = false

-- `kinds is None or fact.kind in kinds`
unfoldable pub kind_allowed : Option (List PerceptKind) → PerceptKind → Bool
unfolding PerceptKind-discrete
kind_allowed none k = true
kind_allowed (some ks) k = any (λ x. decides (PerceptKind-discrete x k)) ks

unfoldable pub source_allowed : Option (List PerceptSource) → PerceptSource → Bool
unfolding PerceptSource-discrete
source_allowed none s = true
source_allowed (some ss) s = any (λ x. decides (PerceptSource-discrete x s)) ss

module _ (V : Type 0) where
  pub record PerceptFact : Type 0 where
    pub key : Str
    pub kind : PerceptKind
    pub source : PerceptSource
    pub value : V
    pub confidence : ℕ
    pub sequence : ℕ
    pub observed_monotonic_ns : ℕ
    pub ttl_ms : ℕ
    pub provenance : Option Str

  pub record PerceptionBlackboard : Type 0 where
    pub facts : Dict PerceptFact
    pub snapshot_sequence : ℕ

  pub record BlackboardSnapshot : Type 0 where
    pub sequence : ℕ
    pub captured_monotonic_ns : ℕ
    pub facts : List PerceptFact

module _ {V : Type 0} where
  abbrev pub empty : PerceptionBlackboard V
  empty = record { facts = []; snapshot_sequence = 0 }

  -- `age_ms(now) >= ttl_ms`. The source divides by 10 ^ 6 in floats: a ttl is at most 300000, so a
  -- quotient below it stays below after rounding, and the test is this one on whole nanoseconds.
  unfoldable pub stale : PerceptFact V → ℕ → Bool
  stale f now = leb (f.ttl_ms * 1000000) (now - f.observed_monotonic_ns)

  -- whether `current` stands in the way of `fact`
  unfoldable pub holds_off : PerceptFact V → PerceptFact V → Bool
  holds_off current fact =
      ltb fact.sequence current.sequence
      || (fact.sequence == current.sequence
          && leb fact.observed_monotonic_ns current.observed_monotonic_ns)

  unfoldable pub publish : PerceptFact V → PerceptionBlackboard V → Bool × PerceptionBlackboard V
  unfolding holds_off
  publish fact b =
      let stored = record b { facts = insert fact.key fact b.facts } in
      elim (lookup fact.key b.facts) [
        | none ↦ (true, stored)
        | some current ↦ if holds_off current fact then (false, b) else (true, stored)
      ]

  -- the number of facts that were accepted
  unfoldable pub publish_many :
      List (PerceptFact V) → PerceptionBlackboard V → ℕ × PerceptionBlackboard V
  unfolding publish
  publish_many [] b = (0, b)
  publish_many (f ∷ fs) b =
      let (accepted, b') = publish f b in
      let (n, b'') = publish_many fs b' in ((if accepted then suc n else n), b'')

  unfoldable pub get :
      Str
      → (min_confidence : ℕ) → (include_stale : Bool) → (now : ℕ) → PerceptionBlackboard V
      → Option (PerceptFact V)
  unfolding stale
  get key min_confidence include_stale now b = elim (lookup key b.facts) [
    | none ↦ none
    | some fact ↦
        if ltb fact.confidence min_confidence
        then none
        else if not include_stale && stale fact now
        then none
        else some fact
  ]

  unfoldable pub passes :
      Option (List PerceptKind) → Option (List PerceptSource) → ℕ → Bool → ℕ → PerceptFact V → Bool
  unfolding kind_allowed source_allowed stale
  passes kinds sources min_confidence include_stale captured f =
      leb min_confidence f.confidence
      && (kind_allowed kinds f.kind
          && (source_allowed sources f.source && (include_stale || not (stale f captured))))

  unfoldable pub snapshot :
      Option (List PerceptKind)
      → Option (List PerceptSource)
      → ℕ
      → Bool
      → ℕ
      → PerceptionBlackboard V
      → BlackboardSnapshot V × PerceptionBlackboard V
  unfolding passes sort_by
  snapshot kinds sources min_confidence include_stale captured b =
      let taken = suc b.snapshot_sequence in
      (
        record {
          sequence = taken;
          captured_monotonic_ns = captured;
          facts =
              sort_by (λ f. f.key)
                (select (passes kinds sources min_confidence include_stale captured)
                  (values b.facts));
        },
        record b { snapshot_sequence = taken },
      )

  -- the sorted keys of the facts that pass a test
  abbrev keys_of : (PerceptFact V → Bool) → PerceptionBlackboard V → List Str
  keys_of test b =
      sort_by (λ k. k) (map (λ (f : PerceptFact V). f.key) (select test (values b.facts)))

  unfoldable pub expire : ℕ → PerceptionBlackboard V → List Str × PerceptionBlackboard V
  unfolding stale
  expire now b =
      (keys_of (λ f. stale f now) b, record b { facts = without (λ f. stale f now) b.facts })

  unfoldable pub clear_source : PerceptSource → PerceptionBlackboard V → ℕ × PerceptionBlackboard V
  unfolding PerceptSource-discrete
  clear_source source b =
      let from = λ (f : PerceptFact V). decides (PerceptSource-discrete f.source source) in
      (length (select from (values b.facts)), record b { facts = without from b.facts })
