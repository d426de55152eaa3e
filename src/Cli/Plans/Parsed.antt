-- ===== src/Cli/Plans/Parsed.antt =====
-- What Parse returns.
use outage.Base.{
  Bool, true, false, List, [], ◌∷◌, In, here, All, map, ◌≡◌, ◌≢◌, refl, sym, subst, Text, ℕ,
}
use outage.Base.Int.{pos, ◌≤ℤ◌}
use outage.Cli.Result.{ok, bind-eq-ok, ok-injective}
use outage.Cli.Options.Laws.{parse_events_fd_options-IsValid}
use outage.Cli.Options.{Options, parse_events_fd_options}
use outage.Cli.Groups.Split.{split-ne-nil}
use outage.Cli.Groups.Grammar.{Accepts, first, parse_condition_arguments_iff}
use outage.Cli.Groups.{
  ConditionGroup, split, and_separator, parse_condition_arguments, parse_condition_groups,
}
use outage.Cli.Conditions.Identities.{WholeLaws}
use outage.Cli.Conditions.{
  Env, signal_supported, validate_condition_syntax_at, validate_condition_capability_at,
}
use outage.Cli.Plans.Canonical.{Represents}
use outage.Cli.Plans.Represented.{RepresentsAll, nil, cons, IsCanonical, canonical_plan-IsCanonical}
use outage.Cli.Plans.{Plan, validate_groups, canonical_plan, parse_with_signal_support, parse}

-- The stages of a successful parse.
record Stages (env : Env) (supported : Bool) (args : List Text) (plan : Plan) : Type 0 where
  options : Options
  groups : List ConditionGroup
  canonical : Plan
  options_ok : parse_events_fd_options args ≡ ok options
  groups_ok : parse_condition_groups options.condition_args ≡ ok groups
  canonical_ok : canonical_plan env groups ≡ ok canonical
  plan_is :
      plan
      ≡ record canonical { events_fd = options.events_fd; events_fd_set = options.events_fd_set }

parse-Stages :
    (env : Env) (supported : Bool) (args : List Text) {plan : Plan}
    → parse_with_signal_support env supported args ≡ ok plan
    → Stages env supported args plan
unfolding parse_with_signal_support
parse-Stages env supported args h =
    let (o, a, h₁) = bind-eq-ok (parse_events_fd_options args) _ h in
    let (groups, b, h₂) = bind-eq-ok (parse_condition_groups o.condition_args) _ h₁ in
    let (_, _, h₃) = bind-eq-ok (validate_groups (validate_condition_syntax_at env) groups) _ h₂ in
    let (_, _, h₄) =
      bind-eq-ok (validate_groups (validate_condition_capability_at supported) groups) _ h₃ in
    let (canonical, c, e) = bind-eq-ok (canonical_plan env groups) _ h₄ in
    record {
      options = o;
      groups = groups;
      canonical = canonical;
      options_ok = a;
      groups_ok = b;
      canonical_ok = c;
      plan_is = sym (ok-injective e);
    }

-- What the rest of the program relies on in a plan.
pub record IsValid (env : Env) (args : List Text) (plan : Plan) : Type 0 where
  pub fd_if_set : plan.events_fd_set ≡ true → pos 3 ≤ℤ plan.events_fd
  pub fd_if_unset : plan.events_fd_set ≡ false → plan.events_fd ≡ pos 0
  pub options : Options
  pub groups : List ConditionGroup
  pub options_ok : parse_events_fd_options args ≡ ok options
  pub groups_ok : parse_condition_groups options.condition_args ≡ ok groups
  pub canonical : IsCanonical env plan groups
  pub has_group : plan.groups ≢ []
  pub groups_ne_nil : All (λ (g : List ℕ). g ≢ []) plan.groups

Represents-ne-nil :
    (env : Env) (plan : Plan) {indexes : List ℕ} (members : List Text)
    → members ≢ []
    → Represents env plan.conditions indexes members
    → indexes ≢ []
Represents-ne-nil env plan [] n r e = n refl
Represents-ne-nil env plan (m ∷ members) n r e =
    let (k, p, _) = r.complete m (here refl) in elim (subst (In k) e p) [ ]

RepresentsAll-ne-nil :
    (env : Env) (plan : Plan) {groups : List (List ℕ)} {raws : List ConditionGroup}
    → All (λ (g : ConditionGroup). g.members ≢ []) raws
    → RepresentsAll env plan.conditions groups raws
    → All (λ (g : List ℕ). g ≢ []) groups
RepresentsAll-ne-nil env plan h nil = tt
RepresentsAll-ne-nil env plan h (cons {group = g} r rest) =
    (Represents-ne-nil env plan g.members h.0 r, RepresentsAll-ne-nil env plan h.1 rest)

abbrev members_of : Text → ConditionGroup
members_of value = record { members = split value and_separator }

split-members :
    (values : List Text) → All (λ (g : ConditionGroup). g.members ≢ []) (map members_of values)
split-members [] = tt
split-members (v ∷ values) = (split-ne-nil v and_separator, split-members values)

Accepts-ne-nil : {args values : List Text} → Accepts args values → values ≢ []
Accepts-ne-nil (first o a) e = cc

map-ne-nil : (values : List Text) → values ≢ [] → map members_of values ≢ []
map-ne-nil [] n e = n refl
map-ne-nil (v ∷ values) n e = cc

RepresentsAll-has-group :
    (env : Env) (plan : Plan) {groups : List (List ℕ)} {raws : List ConditionGroup}
    → raws ≢ []
    → RepresentsAll env plan.conditions groups raws
    → groups ≢ []
RepresentsAll-has-group env plan n nil e = n refl
RepresentsAll-has-group env plan n (cons r rest) e = cc

-- The groups of the condition arguments, each with a member.
groups-ne-nil :
    (args : List Text) {groups : List ConditionGroup}
    → parse_condition_groups args ≡ ok groups
    → (groups ≢ []) × All (λ (g : ConditionGroup). g.members ≢ []) groups
unfolding parse_condition_groups
groups-ne-nil args h =
    let (values, p, e) =
      bind-eq-ok (parse_condition_arguments args) (λ values. ok (map members_of values)) h in
    let n = map-ne-nil values (Accepts-ne-nil ((parse_condition_arguments_iff args values).0 p)) in
    subst (λ g. (g ≢ []) × All (λ (x : ConditionGroup). x.members ≢ []) g) (ok-injective e)
      (n, split-members values)

-- A plan that Parse returns has its descriptor at 3 or above if it is set and at 0 if not; its
-- conditions have distinct ids, its groups stand for the groups of the condition arguments, there is
-- a group, and no group is empty.
pub parse-IsValid :
    (env : Env) (args : List Text) {plan : Plan}
    → WholeLaws env
    → parse env args ≡ ok plan
    → IsValid env args plan
unfolding parse
parse-IsValid env args {plan} laws h =
    let s = parse-Stages env (signal_supported env.platform) args h in
    let o = parse_events_fd_options-IsValid args s.options_ok in
    let c = canonical_plan-IsCanonical env s.groups laws s.canonical_ok in
    let (n, ms) = groups-ne-nil s.options.condition_args s.groups_ok in
    subst (IsValid env args) (sym s.plan_is) (record {
      fd_if_set = o.min_if_set;
      fd_if_unset = o.zero_if_unset;
      options = s.options;
      groups = s.groups;
      options_ok = s.options_ok;
      groups_ok = s.groups_ok;
      canonical = record { distinct = c.distinct; parsed = c.parsed; represents = c.represents };
      has_group = RepresentsAll-has-group env s.canonical n c.represents;
      groups_ne_nil = RepresentsAll-ne-nil env s.canonical ms c.represents;
    })
