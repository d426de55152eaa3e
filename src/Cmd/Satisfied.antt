-- ===== src/Cmd/Satisfied.antt =====
-- The setup checks of cmd/outage/main.go, and file_event.go: which conditions hold already, and
-- whether they complete a group.
pub mod Meaning
use outage.Base.{
  ℕ, suc, ◌+◌, Bool, true, false, not, ◌&&◌, ◌||◌, Option, none, some, List, [], ◌∷◌, get_elem?,
  if◌then◌else◌, Text,
}
use outage.Base.Int.{pos, ltb_ℤ, leb_ℤ}
use outage.Time.{Time, Duration, sub_time}
use outage.Cli.Conditions.{Kind, ConditionSpec}
use outage.Cli.Plans.{Plan}

-- What the process observes: the k-th observation is a reading of the clock, or an os.Stat of a
-- path, which is an error or says whether the file is regular.
pub record World : Type 0 where
  pub now : ℕ → Time
  pub stat : ℕ → Text → Option Bool

-- isRegularFile, with the error that every caller drops.
unfoldable pub is_regular_file : World → ℕ → Text → Bool
is_regular_file w k path = elim (w.stat k path) [ none ↦ false | some regular ↦ regular ]

-- conditionAlreadySatisfied at the k-th observation, with the number of the next one.
unfoldable pub already_satisfied : World → Time → Kind → ConditionSpec → ℕ → Bool × ℕ
already_satisfied w started_at Kind.duration spec k =
    if leb_ℤ spec.duration_value (pos 0)
    then (true, k)
    else (leb_ℤ spec.duration_value (sub_time (w.now k) started_at), k + 1)
already_satisfied w started_at Kind.date_time spec k = (not (ltb_ℤ (w.now k) spec.deadline), k + 1)
already_satisfied w started_at Kind.file spec k = (is_regular_file w k spec.path, k + 1)
already_satisfied w started_at Kind.signal spec k = (false, k)
already_satisfied w started_at (Kind.other _) spec k = (false, k)

abbrev pub condition_already_satisfied : World → Time → ConditionSpec → ℕ → Bool × ℕ
condition_already_satisfied w started_at spec k = already_satisfied w started_at spec.kind spec k

abbrev pub is_file : Kind → Bool
is_file Kind.file = true
is_file _ = false

-- initialConditionStates, over the conditions of the plan.
unfoldable pub initial_condition_states :
    World → List ConditionSpec → Time → Bool → ℕ → List Bool × ℕ
initial_condition_states w [] started_at check_files k = ([], k)
initial_condition_states w (spec ∷ specs) started_at check_files k =
    let (s, k') =
      if is_file spec.kind && not check_files
      then (false, k)
      else condition_already_satisfied w started_at spec k in
    let (rest, k'') = initial_condition_states w specs started_at check_files k' in (s ∷ rest, k'')

-- The inner loop of conditionPlanSatisfied; `none` is the panic of an index out of range.
unfoldable pub group_complete : List ℕ → List Bool → Option Bool
group_complete [] satisfied = some true
group_complete (n ∷ group) satisfied = elim (get_elem? satisfied n) [
  | none ↦ none
  | some true ↦ group_complete group satisfied
  | some false ↦ some false
]

-- Its outer loop.
unfoldable pub groups_satisfied : List (List ℕ) → List Bool → Option Bool
groups_satisfied [] satisfied = some false
groups_satisfied (group ∷ groups) satisfied = elim (group_complete group satisfied) [
  | none ↦ none
  | some true ↦ some true
  | some false ↦ groups_satisfied groups satisfied
]

-- conditionPlanSatisfied
abbrev pub condition_plan_satisfied : Plan → List Bool → Option Bool
condition_plan_satisfied plan satisfied = groups_satisfied plan.groups satisfied

abbrev pub with_count : Option Bool → ℕ → Option (Bool × ℕ)
with_count none k = none
with_count (some b) k = some (b, k)

-- initialConditionSatisfaction
unfoldable pub initial_condition_satisfaction : World → Plan → Time → Bool → ℕ → Option (Bool × ℕ)
initial_condition_satisfaction w plan started_at check_files k =
    let (satisfied, k') = initial_condition_states w plan.conditions started_at check_files k in
    with_count (condition_plan_satisfied plan satisfied) k'
