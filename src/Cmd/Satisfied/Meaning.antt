-- ===== src/Cmd/Satisfied/Meaning.antt =====
-- A plan is satisfied exactly when the conditions as written on the command line are.
use outage.Base.{
  ℕ, Bool, true, false, Option, none, some, List, [], ◌∷◌, map, any, all, In, here, there,
  get_elem?, ◌≡◌, refl, sym, ap, ◌∙◌, arith, Bool_iff, Text, get_elem?-map, get_elem?-lt,
  lt-get_elem?, length, subst, ◌<◌,
}
use outage.Cli.Result.{Result, ok, err}
use outage.Cli.Groups.{ConditionGroup}
use outage.Cli.Conditions.Identities.{WholeLaws}
use outage.Cli.Conditions.{Env, ConditionSpec, Identity, parse_condition_spec}
use outage.Cli.Plans.Interning.{Stands}
use outage.Cli.Plans.Canonical.{Represents}
use outage.Cli.Plans.Represented.{RepresentsAll, nil, cons, canonical_plan-IsCanonical}
use outage.Cli.Plans.{Plan, canonical_plan}
use outage.Cmd.Satisfied.{group_complete, groups_satisfied, condition_plan_satisfied}

-- The value of a condition as it is written.
abbrev pub parsed_satisfied : (ConditionSpec → Bool) → Result (ConditionSpec × Identity) → Bool
parsed_satisfied sat (ok p) = sat p.0
parsed_satisfied sat (err e) = false

abbrev pub raw_satisfied : Env → (ConditionSpec → Bool) → Text → Bool
raw_satisfied env sat raw = parsed_satisfied sat (parse_condition_spec env raw)

-- Some group has all its conditions satisfied.
abbrev pub groups_hold : (Text → Bool) → List ConditionGroup → Bool
groups_hold sat = any (λ g. all sat g.members)

pub all-In {ℓ} :
    {A : Type ℓ} (p : A → Bool) (xs : List A) {a : A} → all p xs ≡ true → In a xs → p a ≡ true
all-In p [] h m = elim m [ ]
all-In p (x ∷ xs) h (here e) = rw e (ground arith)
all-In p (x ∷ xs) h (there m) = all-In p xs (ground arith) m

pub all-of_In {ℓ} :
    {A : Type ℓ} (p : A → Bool) (xs : List A) → ((a : A) → In a xs → p a ≡ true) → all p xs ≡ true
all-of_In p [] h = refl
all-of_In p (x ∷ xs) h = rw (h x (here refl)) (all-of_In p xs (λ a m. h a (there m)))

abbrev or_false : Option Bool → Bool
or_false none = false
or_false (some b) = b

-- Where every index is in range the loop stops at no panic.
group_complete-all :
    (states : List Bool) (indexes : List ℕ)
    → ((n : ℕ) → In n indexes → (b : Bool) × (get_elem? states n ≡ some b))
    → group_complete indexes states ≡ some (all (λ n. or_false (get_elem? states n)) indexes)
unfolding group_complete
group_complete-all states [] h = refl
group_complete-all states (n ∷ indexes) h =
    let (b, e) = h n (here refl) in
    go b e (group_complete-all states indexes (λ m p. h m (there p)))
  where
    go :
        (b : Bool)
        → get_elem? states n ≡ some b
        → group_complete indexes states ≡ some (all (λ m. or_false (get_elem? states m)) indexes)
        → group_complete (n ∷ indexes) states
          ≡ some (all (λ m. or_false (get_elem? states m)) (n ∷ indexes))
    go true e ih = rw (e, group_complete) ih
    go false e ih = rw (e, group_complete) refl

-- Indexes and members that stand for one another, valued alike, are all satisfied together.
pub Represents-all :
    (env : Env) {conditions : List ConditionSpec} {indexes : List ℕ} {members : List Text}
    (f : ℕ → Bool) (g : Text → Bool)
    → Represents env conditions indexes members
    → ((raw : Text) (n : ℕ) → Stands env conditions raw n → f n ≡ g raw)
    → all f indexes ≡ all g members
Represents-all env {indexes = indexes} {members = members} f g r same =
    Bool_iff (all f indexes) (all g members)
      (λ h.
        all-of_In g members
          (λ raw q. let (n, p, s) = r.complete raw q in sym (same raw n s) ∙ all-In f indexes h p))
      (λ h.
        all-of_In f indexes
          (λ n p. let (raw, q, s) = r.sound n p in same raw n s ∙ all-In g members h q))

module _ (env : Env) (sat : ConditionSpec → Bool) (conditions : List ConditionSpec) where
  Stands-state :
      {raw : Text} {n : ℕ}
      → Stands env conditions raw n
      → get_elem? (map sat conditions) n ≡ some (raw_satisfied env sat raw)
  Stands-state {n = n} s = rw s.parsed (get_elem?-map sat conditions n s.at)

  -- A group of indexes is complete when the members that it stands for are satisfied.
  Represents-complete :
      {indexes : List ℕ} {members : List Text}
      → Represents env conditions indexes members
      → group_complete indexes (map sat conditions) ≡ some (all (raw_satisfied env sat) members)
  Represents-complete {indexes} {members} r =
      group_complete-all (map sat conditions) indexes in_range
      ∙ ap some (
          Represents-all env at (raw_satisfied env sat) r (λ raw n s. ap or_false (Stands-state s)))
    where
      at : ℕ → Bool
      at n = or_false (get_elem? (map sat conditions) n)

      in_range : (n : ℕ) → In n indexes → (b : Bool) × (get_elem? (map sat conditions) n ≡ some b)
      in_range n p = let (raw, q, s) = r.sound n p in (raw_satisfied env sat raw, Stands-state s)

  RepresentsAll-satisfied :
      {groups : List (List ℕ)} {raws : List ConditionGroup}
      → RepresentsAll env conditions groups raws
      → groups_satisfied groups (map sat conditions)
        ≡ some (groups_hold (raw_satisfied env sat) raws)
  unfolding groups_satisfied
  RepresentsAll-satisfied nil = refl
  RepresentsAll-satisfied (cons {indexes} {groups} {group} {rest} r k) =
      go (all (raw_satisfied env sat) group.members) (Represents-complete r)
        (RepresentsAll-satisfied k) refl
    where
      go :
          (b : Bool)
          → group_complete indexes (map sat conditions)
            ≡ some (all (raw_satisfied env sat) group.members)
          → groups_satisfied groups (map sat conditions)
            ≡ some (groups_hold (raw_satisfied env sat) rest)
          → all (raw_satisfied env sat) group.members ≡ b
          → groups_satisfied (indexes ∷ groups) (map sat conditions)
            ≡ some (groups_hold (raw_satisfied env sat) (group ∷ rest))
      go true c ih e = rw (c ∙ ap some e, e, groups_satisfied) refl
      go false c ih e = rw (c ∙ ap some e, e, groups_satisfied) ih

-- With a state for each condition the check of the groups indexes in range.
pub RepresentsAll-in_range :
    (env : Env) (conditions : List ConditionSpec) (states : List Bool) {groups : List (List ℕ)}
    {raws : List ConditionGroup}
    → RepresentsAll env conditions groups raws
    → length states ≡ length conditions
    → (b : Bool) × (groups_satisfied groups states ≡ some b)
unfolding groups_satisfied
RepresentsAll-in_range env conditions states nil n = (false, refl)
RepresentsAll-in_range env conditions states (cons {indexes} {groups} r k) n =
    go (all (λ m. or_false (get_elem? states m)) indexes)
      (group_complete-all states indexes (λ m p.
        let (raw, _, s) = r.sound m p in
        lt-get_elem? states m (subst (λ l. m < l) (sym n) (get_elem?-lt conditions m s.at))))
      (RepresentsAll-in_range env conditions states k n)
  where
    go :
        (complete : Bool)
        → group_complete indexes states ≡ some complete
        → (b : Bool) × (groups_satisfied groups states ≡ some b)
        → (b : Bool) × (groups_satisfied (indexes ∷ groups) states ≡ some b)
    go true c ih = (true, rw (c, groups_satisfied) refl)
    go false c (b, e) = (b, rw (c, groups_satisfied) e)

-- Whatever decides single conditions, conditionPlanSatisfied on a canonical plan indexes in range,
-- and its answer is that of the groups as written: some group has all its members satisfied.
pub condition_plan_satisfied-meaning :
    (env : Env) (groups : List ConditionGroup) (sat : ConditionSpec → Bool) {plan : Plan}
    → WholeLaws env
    → canonical_plan env groups ≡ ok plan
    → condition_plan_satisfied plan (map sat plan.conditions)
      ≡ some (groups_hold (raw_satisfied env sat) groups)
condition_plan_satisfied-meaning env groups sat {plan} laws h =
    RepresentsAll-satisfied env sat plan.conditions
      (canonical_plan-IsCanonical env groups laws h).represents
