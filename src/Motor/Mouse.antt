-- ===== src/Motor/Mouse.antt =====
-- The steps of the mouse: their size, and their change from one action to the next.
use minecraft_ai.Prelude.{
  ℕ, ◌+◌, false, ◌≡◌, ◌⊎◌, inl, inr, Option, none, some, arith, Bool-cases, Option-cases, codes,
}
use minecraft_ai.Prelude.Int.{ℤ, pos, sub_ℕ, ◌+ℤ◌, ◌-ℤ◌, ◌≤ℤ◌, leb_ℤ}
use minecraft_ai.Outcome.{returned}
use minecraft_ai.Safety.Lease.{MotorAction}
use minecraft_ai.Motor.{
  MouseFloats, Board, MotorIntent, BootstrapMotorPolicy, bounded, smooth_mouse, aim_step, smoothed,
  target_number, mouse_step, press_keys, press_at, move, act, difference_action,
}

-- `-limit <= v <= limit`
abbrev pub Within : ℕ → ℤ → Type 0
Within limit v = (sub_ℕ 0 limit ≤ℤ v) × (v ≤ℤ pos limit)

bounded-Within : (v : ℤ) (limit : ℕ) → Within limit (bounded v limit)
unfolding bounded
bounded-Within v limit = ground arith

-- a bounded value is no further from a value in the bounds than it was
bounded_near :
    (v d : ℤ) (limit accel : ℕ)
    → Within limit v
    → Within accel d
    → Within accel (bounded (v +ℤ d) limit -ℤ v)
unfolding bounded ◌+ℤ◌ ◌-ℤ◌
bounded_near v d limit accel h k = ground arith

module _ (fl : MouseFloats) where
  -- A step of the mouse stays in the step limit, and either there is none or it differs from the
  -- last by at most the acceleration limit.
  abbrev pub Smooth : BootstrapMotorPolicy fl → ℤ → ℤ → Type 0
  Smooth p previous v =
      Within p.max_mouse_step v × ((v ≡ pos 0) ⊎ Within p.max_mouse_acceleration (v -ℤ previous))

  smoothed-Smooth :
      (p : BootstrapMotorPolicy fl) (previous target : ℤ)
      → Within p.max_mouse_step previous
      → Smooth p previous (smoothed fl p previous target)
  unfolding smoothed
  smoothed-Smooth p previous target h =
      let d = bounded (fl.blended previous target -ℤ previous) p.max_mouse_acceleration in
      (
        bounded-Within (previous +ℤ d) p.max_mouse_step,
        inr (
            bounded_near previous d p.max_mouse_step p.max_mouse_acceleration h
              (bounded-Within (fl.blended previous target -ℤ previous) p.max_mouse_acceleration)),
      )

  mouse_step-Smooth :
      (p : BootstrapMotorPolicy fl) (error : Option fl.Float) (previous v : ℤ)
      → Within p.max_mouse_step previous
      → mouse_step fl p error previous ≡ some v
      → Smooth p previous v
  unfolding mouse_step smooth_mouse
  mouse_step-Smooth p none previous v h e = ground arith
  mouse_step-Smooth p (some error) previous v h e = elim (Option-cases (aim_step fl p error)) [
    | inl q ↦ absurd (ground (arith, q))
    | inr (target, q) ↦
        let s : smoothed fl p previous target ≡ v = ground (arith, q) in
        rw (← s) (smoothed-Smooth p previous target h)
  ]

  -- the last steps of the mouse are in the limits
  abbrev pub Steady : BootstrapMotorPolicy fl → Type 0
  Steady p = Within p.max_mouse_step p.last_mouse_dx × Within p.max_mouse_step p.last_mouse_dy

  press_at_lem :
      (board : Board fl) (intent : MotorIntent) (seq : ℕ) (dx dy : Option ℤ)
      (p : BootstrapMotorPolicy fl) (a : MotorAction)
      → (press_at fl board intent seq dx dy p).0 ≡ returned a
      → (dx ≡ some a.mouse_dx)
        × (dy ≡ some a.mouse_dy)
        × (a.sequence ≡ seq)
        × ((press_at fl board intent seq dx dy p).1.last_mouse_dx ≡ a.mouse_dx)
        × ((press_at fl board intent seq dx dy p).1.last_mouse_dy ≡ a.mouse_dy)
  unfolding press_keys difference_action
  press_at_lem board intent seq none dy p a e = cc
  press_at_lem board intent seq (some x) none p a e = cc
  press_at_lem board intent seq (some x) (some y) p a e = ground arith

  -- If the last steps of the mouse are in the limits, an action that `act` returns has the sequence
  -- it was asked for, which is above the last, its steps are smooth, and they are the last ones next.
  pub act-Smooth :
      (board : Board fl) (intent : MotorIntent) (seq : ℕ) (p : BootstrapMotorPolicy fl)
      (a : MotorAction)
      → Steady p
      → (act fl board intent seq p).0 ≡ returned a
      → (a.sequence ≡ seq)
        × (leb_ℤ (pos seq) p.last_sequence ≡ false)
        × Smooth p p.last_mouse_dx a.mouse_dx
        × Smooth p p.last_mouse_dy a.mouse_dy
        × ((act fl board intent seq p).1.last_mouse_dx ≡ a.mouse_dx)
        × ((act fl board intent seq p).1.last_mouse_dy ≡ a.mouse_dy)
  unfolding act move
  act-Smooth board intent seq p a h e = elim (Bool-cases (leb_ℤ (pos seq) p.last_sequence)) [
    | inl old ↦ absurd (ground (arith, old))
    | inr new ↦
        let q = record p { last_sequence = pos seq; tick_count = p.tick_count + 1 } in
        let dx = target_number fl board (codes "target.dx") in
        let dy = target_number fl board (codes "target.dy") in
        let step_x = mouse_step fl q dx p.last_mouse_dx in
        let step_y = mouse_step fl q dy p.last_mouse_dy in
        let same_act : act fl board intent seq p ≡ press_at fl board intent seq step_x step_y q =
          ground (arith, new) in
        let (x, y, n, x', y') =
          press_at_lem board intent seq step_x step_y q a (rw same_act at e) in
        (
          n,
          new,
          mouse_step-Smooth q dx p.last_mouse_dx a.mouse_dx h.0 x,
          mouse_step-Smooth q dy p.last_mouse_dy a.mouse_dy h.1 y,
          rw same_act x',
          rw same_act y',
        )
  ]
