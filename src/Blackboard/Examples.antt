-- ===== src/Blackboard/Examples.antt =====
-- A blackboard with two facts under one key.
use minecraft_ai.Prelude.{
  ℕ, suc, codes, false, none, some, ◌≡◌, refl, ◌↔◌, List, [], ◌∷◌, In, lookup, insert, values,
  IsSortedBy, same, arith,
}
use minecraft_ai.Blackboard.{
  PerceptFact, PerceptionBlackboard, empty, hud, vlm, object, hud_kind, publish_many, get, snapshot,
  expire,
}
use minecraft_ai.Blackboard.Newest.{IsNewest, publish_many-IsNewest}
use minecraft_ai.Blackboard.Reads.{IsWanted, snapshot_lem}
use minecraft_ai.Blackboard.Keyed.{
  Operation, publishing, operate_all, operate_all-IsKeyed, get-expire,
}

abbrev seen : PerceptFact ℕ
seen = record {
  key = codes "target.visible";
  kind = object;
  source = vlm;
  value = 1;
  confidence = 90;
  sequence = 4;
  observed_monotonic_ns = 1000;
  ttl_ms = 500;
  provenance = none;
}

abbrev lost : PerceptFact ℕ
lost = record seen { source = hud; value = 0; sequence = 5; observed_monotonic_ns = 900 }

abbrev health : PerceptFact ℕ
health = record seen {
  key = codes "hud.health";
  kind = hud_kind;
  source = hud;
  value = 20;
  ttl_ms = 5000;
}

abbrev board : PerceptionBlackboard ℕ
board = (publish_many (seen ∷ lost ∷ health ∷ seen ∷ []) empty).1

-- the higher sequence stays, though it was observed earlier, and the old fact does not come back
visible : get (codes "target.visible") 80 false 1500 board ≡ some lost
unfolding get publish_many insert lookup same
visible = refl

publish_many-IsNewest_example :
    IsNewest
      (codes "target.visible")
      (λ g. In g (seen ∷ lost ∷ health ∷ seen ∷ []))
      (lookup (codes "target.visible") board.facts)
publish_many-IsNewest_example =
    publish_many-IsNewest (seen ∷ lost ∷ health ∷ seen ∷ []) (codes "target.visible")

snapshot_lem_example :
    let (s, b') = snapshot none none 80 false 1500 board in
    IsSortedBy (λ (f : PerceptFact ℕ). f.key) s.facts
    × ((f : PerceptFact ℕ)
        → In f s.facts ↔ (In f (values board.facts) × IsWanted none none 80 false 1500 f))
    × (s.sequence ≡ suc board.snapshot_sequence)
    × (b'.snapshot_sequence ≡ s.sequence)
    × (b'.facts ≡ board.facts)
snapshot_lem_example = snapshot_lem none none 80 false 1500 board

abbrev steps : List (Operation ℕ)
steps = publishing seen ∷ publishing health ∷ publishing lost ∷ []

abbrev kept : PerceptionBlackboard ℕ
kept = operate_all steps empty

get-expire_example :
    get (codes "hud.health") 0 false 700000000 (expire 600000000 kept).1
    ≡ get (codes "hud.health") 0 false 700000000 kept
get-expire_example =
    get-expire (codes "hud.health") 0 600000000 700000000 kept (operate_all-IsKeyed steps)
      (omega arith)
