-- ===== src/Blackboard/Keyed.antt =====
-- Every fact is stored under its own key, once, so that `expire` and `clear_source` remove what they
-- mean to.
use minecraft_ai.Prelude.{
  ℕ, ◌≤◌, Str, Bool, false, Option, none, some, ◌≡◌, refl, inl, inr, List, [], ◌∷◌, lookup, insert,
  lookup-insert, Dict, without, same_iff, arith, Option-cases, if◌then◌else◌,
}
use minecraft_ai.Blackboard.{
  PerceptFact, PerceptionBlackboard, empty, PerceptKind, PerceptSource, PerceptSource-discrete,
  decides, publish, stale, get, snapshot, expire, clear_source,
}
use minecraft_ai.Blackboard.Reads.{IsKeyed, lookup-without}

-- an operation that changes the blackboard
pub data Operation (V : Type 0) : Type 0 where
  publishing : PerceptFact V → Operation V
  expiring : ℕ → Operation V
  clearing : PerceptSource → Operation V
  taking : Option (List PerceptKind) → Option (List PerceptSource) → ℕ → Bool → ℕ → Operation V

module _ {V : Type 0} where
  insert-IsKeyed :
      (f : PerceptFact V) (d : Dict (PerceptFact V)) → IsKeyed d → IsKeyed (insert f.key f d)
  unfolding insert lookup
  insert-IsKeyed f [] h = (refl, refl, tt)
  insert-IsKeyed f ((j, g) ∷ d) h =
      ground (
        arith,
        insert-IsKeyed f d h.2,
        same_iff j f.key,
        same_iff f.key j,
        lookup-insert f.key j f d,
      )

  without-IsKeyed :
      (test : PerceptFact V → Bool) (d : Dict (PerceptFact V))
      → IsKeyed d
      → IsKeyed (without test d)
  unfolding without
  without-IsKeyed test [] h = tt
  without-IsKeyed test ((j, f) ∷ d) h =
      ground (arith, without-IsKeyed test d h.2, lookup-without test j d h.2)

  abbrev pub operate : Operation V → PerceptionBlackboard V → PerceptionBlackboard V
  operate (publishing f) b = (publish f b).1
  operate (expiring now) b = (expire now b).1
  operate (clearing source) b = (clear_source source b).1
  operate (taking kinds sources m i now) b = (snapshot kinds sources m i now b).1

  abbrev pub operate_all : List (Operation V) → PerceptionBlackboard V → PerceptionBlackboard V
  operate_all [] b = b
  operate_all (o ∷ os) b = operate_all os (operate o b)

  operate-IsKeyed :
      (o : Operation V) (b : PerceptionBlackboard V) → IsKeyed b.facts → IsKeyed (operate o b).facts
  unfolding publish expire clear_source snapshot
  operate-IsKeyed (publishing f) b h = ground (arith, insert-IsKeyed f b.facts h)
  operate-IsKeyed (expiring now) b h = without-IsKeyed (λ f. stale f now) b.facts h
  operate-IsKeyed (clearing source) b h =
      without-IsKeyed (λ f. decides (PerceptSource-discrete f.source source)) b.facts h
  operate-IsKeyed (taking kinds sources m i now) b h = h

  operate_from :
      (os : List (Operation V)) (b : PerceptionBlackboard V)
      → IsKeyed b.facts
      → IsKeyed (operate_all os b).facts
  operate_from [] b h = h
  operate_from (o ∷ os) b h = operate_from os (operate o b) (operate-IsKeyed o b h)

  -- After any operations on an empty blackboard every fact is stored under its own key, and each key
  -- once.
  pub operate_all-IsKeyed :
      (os : List (Operation V)) → IsKeyed (operate_all os (empty {V = V})).facts
  operate_all-IsKeyed os = operate_from os empty tt

  -- `expire` removes only what reads no longer show: a read without stale facts, at the time of the
  -- `expire` or later, returns what it would have returned without it.
  pub get-expire :
      (k : Str) (m now later : ℕ) (b : PerceptionBlackboard V)
      → IsKeyed b.facts
      → now ≤ later
      → get k m false later (expire now b).1 ≡ get k m false later b
  unfolding get expire
  get-expire k m now later b h le = elim (Option-cases (lookup k b.facts)) [
    | inl e ↦ ground (arith, lookup-without (λ f. stale f now) k b.facts h)
    | inr (f, e) ↦ ground (arith, lookup-without (λ f. stale f now) k b.facts h)
  ]

  -- After `clear_source` exactly the facts of other sources are found, as they were.
  pub lookup-clear_source :
      (k : Str) (source : PerceptSource) (b : PerceptionBlackboard V)
      → IsKeyed b.facts
      → lookup k (clear_source source b).1.facts ≡ elim (lookup k b.facts) [
        | none ↦ none
        | some f ↦ if decides (PerceptSource-discrete f.source source) then none else some f
      ]
  unfolding clear_source
  lookup-clear_source k source b h =
      lookup-without (λ f. decides (PerceptSource-discrete f.source source)) k b.facts h
