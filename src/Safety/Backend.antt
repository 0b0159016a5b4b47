-- ===== src/Safety/Backend.antt =====
-- The protocol InputBackend of safety.py, and its deterministic implementation FakeInputBackend.
use minecraft_ai.Prelude.{
  ℕ, ◌+◌, String, Str, List, [], ◌∷◌, ◌++◌, Option, none, some, update, difference,
}
use minecraft_ai.Outcome.{Exec, returned, raised, rejected}
use minecraft_ai.Safety.Lease.{MotorAction, MotorLease}

-- Any backend, over the state that it keeps. Every call may raise.
pub record InputBackend (S : Type 0) : Type 0 where
  pub backend_id : String
  pub bind_lease : MotorLease → Exec S (Unit {0})
  pub apply : MotorAction → Exec S (Unit {0})
  pub release_all : Exec S (Unit {0})
  pub clear_lease : Exec S (Unit {0})

-- what a FakeInputBackend keeps
pub record Fake : Type 0 where
  pub held_keys : List Str
  pub held_buttons : List Str
  pub actions : List MotorAction
  pub release_count : ℕ
  pub lease_id : Option String

unfoldable pub fake_bind_lease : MotorLease → Exec Fake (Unit {0})
fake_bind_lease lease f = (returned tt, record f { lease_id = some lease.lease_id })

-- the body of `apply` past its guard
unfoldable pub fake_press : MotorAction → Fake → Fake
fake_press a f = record f {
  held_keys = difference (update f.held_keys a.keys_down) a.keys_up;
  held_buttons = difference (update f.held_buttons a.buttons_down) a.buttons_up;
  actions = f.actions ++ a ∷ [];
}

unfoldable pub fake_apply : MotorAction → Exec Fake (Unit {0})
unfolding fake_press
fake_apply a f = elim f.lease_id [
  | none ↦ (raised (rejected "backend has no active motor lease"), f)
  | some _ ↦ (returned tt, fake_press a f)
]

unfoldable pub fake_release_all : Exec Fake (Unit {0})
fake_release_all f = (
  returned tt,
  record f { held_keys = []; held_buttons = []; release_count = f.release_count + 1 },
)

unfoldable pub fake_clear_lease : Exec Fake (Unit {0})
fake_clear_lease f = (returned tt, record f { lease_id = none })

abbrev pub fake_backend : InputBackend Fake
fake_backend = record {
  backend_id = "fake";
  bind_lease = fake_bind_lease;
  apply = fake_apply;
  release_all = fake_release_all;
  clear_lease = fake_clear_lease;
}

abbrev pub new_fake : Fake
new_fake = record {
  held_keys = [];
  held_buttons = [];
  actions = [];
  release_count = 0;
  lease_id = none;
}
