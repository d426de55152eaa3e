-- ===== src/Cli/Plans/Validated.antt =====
-- The validation of the members leaves canonicalPlan no error to return.
use outage.Base.{
  true, false, Option, none, some, List, [], ◌∷◌, ◌≡◌, inl, inr, refl, arith, Bool-cases, Text,
  codes, equal, has_prefix, trim_prefix, ◌++◌, ℕ, ◌⊎◌,
}
use outage.Base.Int.{pos}
use outage.Cli.Result.{Result, ok, ◌>>=◌, bind-eq-ok}
use outage.Cli.Groups.{ConditionGroup}
use outage.Cli.Datetime.{datetime_prefix, parse_datetime_event}
use outage.Cli.Conditions.{
  Env, unix, Signal, ConditionSpec, Identity, signal_supported, resolve_signal,
  canonical_signal_name, is_signal_event, duration_prefix, file_prefix, parse_duration_event,
  duration_spec, datetime_spec, file_spec, signal_spec, parse_condition_spec,
  validate_condition_syntax_at, validate_condition_capability_at,
}
use outage.Cli.Plans.{
  Plan, Builder, Group, add_spec, add_members, add_groups, empty_group, empty_builder,
  canonical_plan, validate_members, validate_groups,
}

-- The two names of signals are resolved on Unix.
two-names :
    (event name : Text)
    → canonical_signal_name event ≡ some name
    → (name ≡ codes "USR1") ⊎ (name ≡ codes "USR2")
unfolding canonical_signal_name
two-names event name h = ground arith

canonical_signal_name-resolved :
    (event name : Text)
    → canonical_signal_name event ≡ some name
    → (s : Signal) × (resolve_signal unix name ≡ some s)
unfolding resolve_signal equal
canonical_signal_name-resolved event name h = elim (two-names event name h) [
  | inl e ↦ (Signal.sigusr1, rw e refl)
  | inr e ↦ (Signal.sigusr2, rw e refl)
]

module _ (env : Env) (raw : Text) where
  signal-ok :
      (n : Option Text)
      → canonical_signal_name raw ≡ n
      → has_prefix raw duration_prefix ≡ false
      → has_prefix raw datetime_prefix ≡ false
      → has_prefix raw file_prefix ≡ false
      → validate_condition_syntax_at env raw ≡ ok tt
      → validate_condition_capability_at (signal_supported env.platform) raw ≡ ok tt
      → (p : ConditionSpec × Identity) × (parse_condition_spec env raw ≡ ok p)
  unfolding validate_condition_syntax_at validate_condition_capability_at is_signal_event
      parse_condition_spec signal_supported
  signal-ok none c d t f s k = ground arith
  signal-ok (some name) c d t f s k =
      let (sig, r) = canonical_signal_name-resolved raw name c in
      let u : env.platform ≡ unix = ground arith in (signal_spec name sig, ground arith)

  prefixed-ok :
      has_prefix raw duration_prefix ≡ true
      → validate_condition_syntax_at env raw ≡ ok tt
      → (p : ConditionSpec × Identity) × (parse_condition_spec env raw ≡ ok p)
  unfolding validate_condition_syntax_at parse_condition_spec
  prefixed-ok d s =
      let h : ◌≡◌ {A = Result (Unit {0})} (parse_duration_event env.time raw >>= λ _. ok tt)
          (ok tt) =
        ground arith in
      let (x, e, _) = bind-eq-ok (parse_duration_event env.time raw) (λ _. ok tt) h in
      (duration_spec x, rw d (rw e refl))

  datetime-ok :
      has_prefix raw duration_prefix ≡ false
      → has_prefix raw datetime_prefix ≡ true
      → validate_condition_syntax_at env raw ≡ ok tt
      → (p : ConditionSpec × Identity) × (parse_condition_spec env raw ≡ ok p)
  unfolding validate_condition_syntax_at parse_condition_spec
  datetime-ok d t s =
      let m = parse_datetime_event env.time raw env.location in
      let h : ◌≡◌ {A = Result (Unit {0})} (m >>= λ _. ok tt) (ok tt) = ground arith in
      let (x, e, _) = bind-eq-ok m (λ _. ok tt) h in
      (datetime_spec env.time x, rw (d, t) (rw e refl))

  file-ok :
      has_prefix raw duration_prefix ≡ false
      → has_prefix raw datetime_prefix ≡ false
      → has_prefix raw file_prefix ≡ true
      → (p : ConditionSpec × Identity) × (parse_condition_spec env raw ≡ ok p)
  unfolding parse_condition_spec
  file-ok d t f = (file_spec (trim_prefix raw file_prefix), rw (d, t, f) refl)

  -- A member that passes both validations parses.
  pub member-ok :
      validate_condition_syntax_at env raw ≡ ok tt
      → validate_condition_capability_at (signal_supported env.platform) raw ≡ ok tt
      → (p : ConditionSpec × Identity) × (parse_condition_spec env raw ≡ ok p)
  member-ok s k = elim (Bool-cases (has_prefix raw duration_prefix)) [
    | inl d ↦ prefixed-ok d s
    | inr d ↦ elim (Bool-cases (has_prefix raw datetime_prefix)) [
      | inl t ↦ datetime-ok d t s
      | inr t ↦ elim (Bool-cases (has_prefix raw file_prefix)) [
        | inl f ↦ file-ok d t f
        | inr f ↦ signal-ok (canonical_signal_name raw) refl d t f s k
      ]
    ]
  ]

unit-ok : (u : Unit {0}) → ok u ≡ ok tt
unit-ok u = refl

module _ (check : Text → Result (Unit {0})) where
  validate_members-cons :
      (m : Text) (members : List Text)
      → validate_members check (m ∷ members) ≡ ok tt
      → (check m ≡ ok tt) × (validate_members check members ≡ ok tt)
  unfolding validate_members
  validate_members-cons m members h =
      let (u, p, q) = bind-eq-ok (check m) (λ _. validate_members check members) h in (p, q)

  validate_groups-cons :
      (g : ConditionGroup) (groups : List ConditionGroup)
      → validate_groups check (g ∷ groups) ≡ ok tt
      → (validate_members check g.members ≡ ok tt) × (validate_groups check groups ≡ ok tt)
  unfolding validate_groups
  validate_groups-cons g groups h =
      let (u, p, q) =
        bind-eq-ok (validate_members check g.members) (λ _. validate_groups check groups) h in
      (p, q)

module _ (env : Env) where
  abbrev syntax : Text → Result (Unit {0})
  syntax = validate_condition_syntax_at env

  abbrev capability : Text → Result (Unit {0})
  capability = validate_condition_capability_at (signal_supported env.platform)

  add_members-ok :
      (members : List Text) (s : Builder × Group)
      → validate_members syntax members ≡ ok tt
      → validate_members capability members ≡ ok tt
      → (r : Builder × Group) × (add_members env members s ≡ ok r)
  unfolding add_members
  add_members-ok [] s h k = (s, refl)
  add_members-ok (m ∷ members) s h k =
      let (h₁, h₂) = validate_members-cons syntax m members h in
      let (k₁, k₂) = validate_members-cons capability m members k in
      let (p, e) = member-ok env m h₁ k₁ in
      let (r, q) = add_members-ok members (add_spec p.0 p.1 s) h₂ k₂ in (r, rw e q)

  add_groups-ok :
      (groups : List ConditionGroup) (b : Builder) (read : List (List ℕ))
      → validate_groups syntax groups ≡ ok tt
      → validate_groups capability groups ≡ ok tt
      → (r : Builder × List (List ℕ)) × (add_groups env groups b read ≡ ok r)
  unfolding add_groups
  add_groups-ok [] b read h k = ((b, read), refl)
  add_groups-ok (g ∷ groups) b read h k =
      let (h₁, h₂) = validate_groups-cons syntax g groups h in
      let (k₁, k₂) = validate_groups-cons capability g groups k in
      let (s, e) = add_members-ok g.members (b, empty_group) h₁ k₁ in
      let (r, q) = add_groups-ok groups s.0 (read ++ s.1.group_indexes ∷ []) h₂ k₂ in (r, rw e q)

-- If every member passes the syntax validation, and the capability validation with what the build
-- supports, then canonicalPlan returns a plan: its own error returns are never taken.
pub canonical_plan-ok :
    (env : Env) (groups : List ConditionGroup)
    → validate_groups (validate_condition_syntax_at env) groups ≡ ok tt
    → validate_groups (validate_condition_capability_at (signal_supported env.platform)) groups
      ≡ ok tt
    → (plan : Plan) × (canonical_plan env groups ≡ ok plan)
unfolding canonical_plan
canonical_plan-ok env groups h k =
    let (r, e) = add_groups-ok env groups empty_builder [] h k in
    (
      record {
        conditions = r.0.conditions;
        groups = r.1;
        events_fd = pos 0;
        events_fd_set = false;
      },
      rw e refl,
    )
