-- ===== src/Cli/Plans.antt =====
-- internal/cli/cli.go: validation of the conditions and their canonical form (Plan, Parse, canonicalPlan).
pub mod Lookup
pub mod Interning
pub mod Canonical
pub mod Represented
pub mod Validated
pub mod Parsed
use outage.Base.{
  ℕ, Bool, true, false, Option, none, some, List, [], ◌∷◌, ◌++◌, length, if◌then◌else◌, Text,
}
use outage.Base.Int.{ℤ, pos}
use outage.Cli.Options.{Options, parse_events_fd_options}
use outage.Cli.Groups.{ConditionGroup, parse_condition_groups}
use outage.Cli.Conditions.{
  Env, ConditionSpec, Identity, identity_equal, signal_supported, parse_condition_spec,
  validate_condition_syntax_at, validate_condition_capability_at,
}
use outage.Cli.Result.{Result, ok, err, ◌>>=◌}

pub record Plan : Type 0 where
  pub conditions : List ConditionSpec
  pub groups : List (List ℕ)
  pub events_fd : ℤ
  pub events_fd_set : Bool

-- The map conditionIndexes, as an association list.
abbrev pub Indexes : Type 0
Indexes = List (Identity × ℕ)

unfoldable pub find_index : Identity → Indexes → Option ℕ
find_index i [] = none
find_index i ((j, n) ∷ rest) = if identity_equal j i then some n else find_index i rest

-- The set `seen`.
unfoldable pub is_seen : Identity → List Identity → Bool
is_seen i [] = false
is_seen i (j ∷ rest) = if identity_equal j i then true else is_seen i rest

-- What canonicalPlan keeps over the groups.
pub record Builder : Type 0 where
  pub conditions : List ConditionSpec
  pub indexes : Indexes

-- What it keeps over the members of one group.
pub record Group : Type 0 where
  pub group_indexes : List ℕ
  pub seen : List Identity

-- The index of an identity, which is added if it is new.
unfoldable pub intern : ConditionSpec → Identity → Builder → Builder × ℕ
intern spec i b = elim (find_index i b.indexes) [
  | some n ↦ (b, n)
  | none ↦ (
    record {
      conditions = b.conditions ++ spec ∷ [];
      indexes = (i, length b.conditions) ∷ b.indexes;
    },
    length b.conditions,
  )
]

-- The body of the inner loop.
unfoldable pub add_spec : ConditionSpec → Identity → Builder × Group → Builder × Group
add_spec spec i (b, g) =
    if is_seen i g.seen
    then (b, g)
    else (let (b', n) = intern spec i b in
        (b', record { group_indexes = g.group_indexes ++ n ∷ []; seen = i ∷ g.seen }))

-- The inner loop.
unfoldable pub add_members : Env → List Text → Builder × Group → Result (Builder × Group)
add_members env [] s = ok s
add_members env (raw ∷ members) s =
    parse_condition_spec env raw >>= λ p. add_members env members (add_spec p.0 p.1 s)

abbrev pub empty_group : Group
empty_group = record { group_indexes = []; seen = [] }

-- The outer loop.
unfoldable pub add_groups :
    Env → List ConditionGroup → Builder → List (List ℕ) → Result (Builder × List (List ℕ))
add_groups env [] b done = ok (b, done)
add_groups env (group ∷ groups) b done = add_members env group.members (b, empty_group) >>= λ s.
    add_groups env groups s.0 (done ++ s.1.group_indexes ∷ [])

abbrev pub empty_builder : Builder
empty_builder = record { conditions = []; indexes = [] }

-- canonicalPlan
unfoldable pub canonical_plan : Env → List ConditionGroup → Result Plan
canonical_plan env groups = add_groups env groups empty_builder [] >>= λ r.
    ok (record {
      conditions = r.0.conditions;
      groups = r.1;
      events_fd = pos 0;
      events_fd_set = false;
    })

-- A validation loop over the members of every group.
unfoldable pub validate_members : (Text → Result (Unit {0})) → List Text → Result (Unit {0})
validate_members check [] = ok tt
validate_members check (m ∷ members) = check m >>= λ _. validate_members check members

unfoldable pub validate_groups :
    (Text → Result (Unit {0})) → List ConditionGroup → Result (Unit {0})
validate_groups check [] = ok tt
validate_groups check (g ∷ groups) =
    validate_members check g.members >>= λ _. validate_groups check groups

-- parseWithSignalSupport, with what `supported` returns.
unfoldable pub parse_with_signal_support : Env → Bool → List Text → Result Plan
parse_with_signal_support env supported args = parse_events_fd_options args >>= λ o.
    parse_condition_groups o.condition_args >>= λ groups.
    validate_groups (validate_condition_syntax_at env) groups >>= λ _.
    validate_groups (validate_condition_capability_at supported) groups >>= λ _.
    canonical_plan env groups >>= λ plan.
    ok (record plan { events_fd = o.events_fd; events_fd_set = o.events_fd_set })

-- Parse
unfoldable pub parse : Env → List Text → Result Plan
parse env args = parse_with_signal_support env (signal_supported env.platform) args
