-- ===== src/Actions/Gate/Policy.antt =====
-- What the gate allows, confirms and refuses in each mode.
use auxitalk.Base.{
  ℕ, ◌≤◌, String, none, ◌≡◌, ◌≢◌, ◌↔◌, ◌⊎◌, arith, eq_iff, ◌==◌, if◌then◌else◌, string_eq, inl, inr,
  Option-cases, Bool-cases,
}
use auxitalk.Types.Action.{ActionRequest, low, medium, high, allowed, confirmed, denied, is_risk}
use auxitalk.Types.Action
use auxitalk.Actions.Gate.{
  decide, decide_mode, decide_local, decide_strict, mode_dev, mode_local, mode_strict,
}

module _ (mode : String) (a : ActionRequest) where
  allowed_mode :
      ((decide_mode mode a).0 ≡ allowed)
      ↔ ((mode ≡ mode_dev) ⊎ ((mode ≡ mode_local) × (a.risk ≡ low)))
  unfolding decide_mode
  allowed_mode = ground (
    arith,
    eq_iff mode mode_dev,
    eq_iff mode mode_local,
    eq_iff a.risk low,
    eq_iff allowed confirmed,
    eq_iff allowed denied,
    eq_iff allowed "",
  )

  confirmed_mode :
      ((decide_mode mode a).0 ≡ confirmed)
      ↔ (((mode ≡ mode_local) × (a.risk ≡ medium)) ⊎ ((mode ≡ mode_strict) × (a.risk ≡ low)))
  unfolding decide_mode
  confirmed_mode = ground (
    arith,
    eq_iff mode mode_dev,
    eq_iff mode mode_local,
    eq_iff mode mode_strict,
    eq_iff mode_local mode_strict,
    eq_iff mode_dev mode_strict,
    eq_iff mode_local mode_dev,
    eq_iff low medium,
    eq_iff a.risk low,
    eq_iff a.risk medium,
    eq_iff allowed confirmed,
    eq_iff confirmed denied,
    eq_iff confirmed "",
  )

  unknown_mode :
      ((decide_mode mode a).0 ≡ "")
      ↔ ((mode ≢ mode_dev) × (mode ≢ mode_local) × (mode ≢ mode_strict))
  unfolding decide_mode
  unknown_mode = ground (
    arith,
    eq_iff mode mode_dev,
    eq_iff mode mode_local,
    eq_iff mode mode_strict,
    eq_iff allowed "",
    eq_iff confirmed "",
    eq_iff denied "",
  )

  decide_cases :
      ((Action.validate a ≡ none) × (decide mode a ≡ decide_mode mode a))
      ⊎ ((Action.validate a ≢ none) × ((decide mode a).0 ≡ ""))
  unfolding decide
  decide_cases = ground arith

  -- The gate lets an action run at once exactly when it is valid and either the mode is dev, or the
  -- mode is local and its risk low.
  pub decide-allowed_iff :
      ((decide mode a).0 ≡ allowed)
      ↔ ((Action.validate a ≡ none) × ((mode ≡ mode_dev) ⊎ ((mode ≡ mode_local) × (a.risk ≡ low))))
  decide-allowed_iff = ground (arith, decide_cases, allowed_mode, eq_iff "" allowed)

  -- It asks for confirmation exactly when the action is valid and either the mode is local and the
  -- risk medium, or the mode is strict and the risk low.
  decide-confirmed_iff : ((decide mode a).0 ≡ confirmed) ↔ (
      (Action.validate a ≡ none)
      × (((mode ≡ mode_local) × (a.risk ≡ medium)) ⊎ ((mode ≡ mode_strict) × (a.risk ≡ low))))
  decide-confirmed_iff = ground (arith, decide_cases, confirmed_mode, eq_iff "" confirmed)

  -- It gives no status exactly when the action is invalid or the mode is unknown.
  pub decide-refused_iff : ((decide mode a).0 ≡ "") ↔ (
      (Action.validate a ≢ none) ⊎ ((mode ≢ mode_dev) × (mode ≢ mode_local) × (mode ≢ mode_strict)))
  decide-refused_iff = ground (arith, decide_cases, unknown_mode)

  -- It returns no error exactly when it allows the action or asks for confirmation.
  pub decide-error_iff :
      ((decide mode a).1 ≡ none) ↔ (((decide mode a).0 ≡ allowed) ⊎ ((decide mode a).0 ≡ confirmed))
  unfolding decide decide_mode
  decide-error_iff = ground (
    arith,
    eq_iff allowed denied,
    eq_iff confirmed denied,
    eq_iff allowed "",
    eq_iff confirmed "",
  )

-- How much a status lets happen without the user: all, after a confirmation, nothing.
abbrev pub freedom : String → ℕ
freedom s = if s == allowed then 2 else if s == confirmed then 1 else 0

-- For each action, strict mode leaves at most the freedom that local mode leaves, and local mode at
-- most that of dev mode.
pub freedom-decide :
    (a : ActionRequest)
    → (freedom (decide mode_strict a).0 ≤ freedom (decide mode_local a).0)
      × (freedom (decide mode_local a).0 ≤ freedom (decide mode_dev a).0)
unfolding decide decide_mode
freedom-decide a = elim (Option-cases (Action.validate a)) [
  | inr (e, p) ↦ rw (p, decide) (omega arith)
  | inl p ↦ elim (Bool-cases (a.risk == low)) [
    | inl l ↦ rw (p, l, decide, decide_local, decide_strict) (omega arith)
    | inr n ↦ elim (Bool-cases (a.risk == medium)) [
      | inl m ↦ rw (p, n, m, decide, decide_local, decide_strict) (omega arith)
      | inr k ↦ elim (Bool-cases (a.risk == high)) [
        | inl h ↦ rw (p, n, k, h, decide, decide_local, decide_strict) (omega arith)
        | inr o ↦ rw (p, n, k, o, decide, decide_local, decide_strict) (omega arith)
      ]
    ]
  ]
]
