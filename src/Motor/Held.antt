-- ===== src/Motor/Held.antt =====
-- The keys that the policy believes held are those that its actions hold down in a backend.
use minecraft_ai.Prelude.{
  ℕ, Bool, false, List, [], ◌∷◌, ◌≡◌, refl, Option, none, some, ◌&&◌, ◌||◌, not, if◌then◌else◌, Str,
  same, same_iff, contains, update, difference, select, arith, Bool-cases, inl, inr, place, sort_by,
}
use minecraft_ai.Prelude.Int.{ℤ, pos, leb_ℤ}
use minecraft_ai.Outcome.{Outcome, returned, raised}
use minecraft_ai.Safety.Lease.{MotorAction}
use minecraft_ai.Safety.Backend.{Fake, fake_press, fake_release_all}
use minecraft_ai.Motor.{
  MouseFloats, Board, MotorIntent, BootstrapMotorPolicy, sorted, difference_action, press_keys,
  press_at, move, act, reset, notify_inputs_released,
}

pub contains-select :
    (test : Str → Bool) (xs : List Str) (k : Str)
    → contains (select test xs) k ≡ (contains xs k && test k)
unfolding contains
contains-select test [] k = refl
contains-select test (x ∷ xs) k = elim (Bool-cases (test x)) [
  | inl t ↦ ground (arith, t, same_iff x k, contains-select test xs k)
  | inr f ↦ ground (arith, f, same_iff x k, contains-select test xs k)
]

pub contains-difference :
    (xs ys : List Str) (k : Str)
    → contains (difference xs ys) k ≡ (contains xs k && not (contains ys k))
unfolding difference
contains-difference xs ys k = contains-select (λ x. not (contains ys x)) xs k

pub contains-update :
    (xs ys : List Str) (k : Str) → contains (update xs ys) k ≡ (contains xs k || contains ys k)
unfolding update contains
contains-update xs [] k = ground arith
contains-update xs (y ∷ ys) k =
    ground (arith, same_iff y k, contains-update (if contains xs y then xs else y ∷ xs) ys k)

contains-place :
    (x : Str) (xs : List Str) (k : Str)
    → contains (place (λ s. s) x xs) k ≡ (same x k || contains xs k)
unfolding place contains
contains-place x [] k = ground arith
contains-place x (y ∷ xs) k = ground (arith, contains-place x xs k)

pub contains-sorted : (xs : List Str) (k : Str) → contains (sorted xs) k ≡ contains xs k
unfolding sorted sort_by contains
contains-sorted [] k = refl
contains-sorted (x ∷ xs) k = ground (arith, contains-sorted xs k, contains-place x (sorted xs) k)

-- what is held of `k` after an action that turns `held` into `wanted`
reconciled :
    (held wanted real : List Str) (k : Str)
    → contains real k ≡ contains held k
    → contains
        (difference
          (update real (sorted (difference wanted held)))
          (sorted (difference held wanted)))
        k
      ≡ contains wanted k
reconciled held wanted real k h = ground (
  arith,
  contains-difference (update real (sorted (difference wanted held)))
      (sorted (difference held wanted)) k,
  contains-update real (sorted (difference wanted held)) k,
  contains-sorted (difference wanted held) k,
  contains-sorted (difference held wanted) k,
  contains-difference wanted held k,
  contains-difference held wanted k,
)

released :
    (held real : List Str) (k : Str)
    → contains real k ≡ contains held k
    → contains (difference (update real []) (sorted held)) k ≡ false
unfolding update
released held real k h = ground (
  arith,
  contains-difference (update real []) (sorted held) k,
  contains-sorted held k,
  contains-update real [] k,
)

module _ (fl : MouseFloats) where
  -- what happens to a policy: it acts on what it sees, it is reset, or the inputs were released
  pub data Event : Type 1 where
    acting : (board : Board fl) (intent : MotorIntent) (seq : ℕ) → Event
    resetting releasing : Event

  -- the backend takes the action, if there is one
  abbrev pub take_action :
      Outcome MotorAction × BootstrapMotorPolicy fl → Fake → BootstrapMotorPolicy fl × Fake
  take_action (returned a, p) f = (p, fake_press a f)
  take_action (raised e, p) f = (p, f)

  abbrev pub occur : Event → BootstrapMotorPolicy fl × Fake → BootstrapMotorPolicy fl × Fake
  occur (acting board intent seq) (p, f) = take_action (act fl board intent seq p) f
  occur resetting (p, f) = let (a, p') = reset fl p in (p', fake_press a f)
  occur releasing (p, f) = (notify_inputs_released fl p, (fake_release_all f).1)

  abbrev pub after : List Event → BootstrapMotorPolicy fl × Fake → BootstrapMotorPolicy fl × Fake
  after [] s = s
  after (e ∷ es) s = after es (occur e s)

  -- policy and backend agree on whether `k` is held, as a key and as a button
  abbrev pub Agrees : Str → BootstrapMotorPolicy fl × Fake → Type 0
  Agrees k (p, f) =
      (contains f.held_keys k ≡ contains p.held_keys k)
      × (contains f.held_buttons k ≡ contains p.held_buttons k)

  press_keys-Agrees :
      (k : Str) (board : Board fl) (intent : MotorIntent) (seq : ℕ) (dx dy : ℤ)
      (p : BootstrapMotorPolicy fl) (f : Fake)
      → Agrees k (p, f)
      → Agrees k (take_action (press_keys fl board intent seq dx dy p) f)
  unfolding press_keys difference_action fake_press
  press_keys-Agrees k board intent seq dx dy p f h =
      let p' = (press_keys fl board intent seq dx dy p).1 in
      (
        reconciled p.held_keys p'.held_keys f.held_keys k h.0,
        reconciled p.held_buttons p'.held_buttons f.held_buttons k h.1,
      )

  press_at-Agrees :
      (k : Str) (board : Board fl) (intent : MotorIntent) (seq : ℕ) (dx dy : Option ℤ)
      (p : BootstrapMotorPolicy fl) (f : Fake)
      → Agrees k (p, f)
      → Agrees k (take_action (press_at fl board intent seq dx dy p) f)
  press_at-Agrees k board intent seq none dy p f h = h
  press_at-Agrees k board intent seq (some x) none p f h = h
  press_at-Agrees k board intent seq (some x) (some y) p f h =
      press_keys-Agrees k board intent seq x y p f h

  act-Agrees :
      (k : Str) (board : Board fl) (intent : MotorIntent) (seq : ℕ) (p : BootstrapMotorPolicy fl)
      (f : Fake)
      → Agrees k (p, f)
      → Agrees k (take_action (act fl board intent seq p) f)
  unfolding act move
  act-Agrees k board intent seq p f h = elim (Bool-cases (leb_ℤ (pos seq) p.last_sequence)) [
    | inl e ↦ rw e h
    | inr e ↦ rw e (press_at-Agrees k board intent seq _ _ _ f h)
  ]

  occur-Agrees :
      (k : Str) (e : Event) (s : BootstrapMotorPolicy fl × Fake) → Agrees k s → Agrees k (occur e s)
  unfolding reset fake_press fake_release_all notify_inputs_released contains
  occur-Agrees k (acting board intent seq) (p, f) h = act-Agrees k board intent seq p f h
  occur-Agrees k resetting (p, f) h =
      (released p.held_keys f.held_keys k h.0, released p.held_buttons f.held_buttons k h.1)
  occur-Agrees k releasing (p, f) h = (refl, refl)

  -- If policy and backend agree on whether a key or button is held, they agree after any sequence of
  -- actions that the backend takes, refused calls, resets and releases.
  pub after-Agrees :
      (k : Str) (es : List Event) (s : BootstrapMotorPolicy fl × Fake)
      → Agrees k s
      → Agrees k (after es s)
  after-Agrees k [] s h = h
  after-Agrees k (e ∷ es) s h = after-Agrees k es (occur e s) (occur-Agrees k e s h)
