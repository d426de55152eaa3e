-- ===== src/Cli/Plans/Represented.antt =====
-- canonicalPlan as a whole, and the plan that Parse returns.
use mathlib.Core.Option.{some-injective}
use outage.Base.{
  get_elem?, some, ℕ, List, [], ◌∷◌, ◌++◌, IsNodup, ◌≡◌, inl, inr, sym, ap, ◌∙◌, subst, append-nil,
  append_assoc, Bool-cases, Text,
}
use outage.Cli.Result.{ok, bind-eq-ok, ok-injective}
use outage.Cli.Groups.{ConditionGroup}
use outage.Cli.Conditions.Identities.{WholeLaws}
use outage.Cli.Conditions.{Env, ConditionSpec, Identity, parse_condition_spec}
use outage.Cli.Plans.Interning.{ids, BuilderOk, intern-Interned}
use outage.Cli.Plans.Canonical.{
  Represents, GroupOk, Represents-append, GroupOk-append, GroupOk-seen, GroupOk-added,
}
use outage.Cli.Plans.{
  Plan, is_seen, Builder, Group, add_spec, add_members, add_groups, empty_group, empty_builder,
  canonical_plan,
}

-- What adding members to a group keeps.
record Added (env : Env) (b : Builder) (s : Builder × Group) (members : List Text) : Type 0 where
  builder_ok : BuilderOk env s.0
  group_ok : GroupOk env s.0.conditions s.1 members
  more : List ConditionSpec
  extends : s.0.conditions ≡ b.conditions ++ more

module _ (env : Env) (laws : WholeLaws env) where
  add_spec-Added :
      (members : List Text) (raw : Text) (spec : ConditionSpec) (i : Identity) (b : Builder)
      (g : Group)
      → BuilderOk env b
      → GroupOk env b.conditions g members
      → parse_condition_spec env raw ≡ ok (spec, i)
      → Added env b (add_spec spec i (b, g)) (members ++ raw ∷ [])
  unfolding add_spec
  add_spec-Added members raw spec i b g v r p = elim (Bool-cases (is_seen i g.seen)) [
    | inl s ↦
        rw (s, add_spec)
          (record {
            builder_ok = v;
            group_ok = GroupOk-seen env laws members raw spec i p r s;
            more = [];
            extends = sym (append-nil b.conditions);
          })
    | inr s ↦
        let x = intern-Interned env laws b raw spec i v p in
        let r' =
          subst (λ c. GroupOk env c g members) (sym x.extends) (GroupOk-append env x.more r) in
        rw (s, add_spec)
          (record {
            builder_ok = x.builder_ok;
            group_ok = GroupOk-added env laws members raw spec i p r' s x.holds;
            more = x.more;
            extends = x.extends;
          })
  ]

  add_members-cons :
      (raw : Text) (members : List Text) (s : Builder × Group) {r : Builder × Group}
      → add_members env (raw ∷ members) s ≡ ok r
      → (p : ConditionSpec × Identity) × (parse_condition_spec env raw ≡ ok p)
        × (add_members env members (add_spec p.0 p.1 s) ≡ ok r)
  unfolding add_members
  add_members-cons raw members s h =
      bind-eq-ok (parse_condition_spec env raw) (λ p. add_members env members (add_spec p.0 p.1 s))
        h

  add_members-nil :
      (s : Builder × Group) {r : Builder × Group} → add_members env [] s ≡ ok r → s ≡ r
  unfolding add_members
  add_members-nil s h = ok-injective h

  add_members-Added :
      (members read : List Text) (b : Builder) (g : Group) {r : Builder × Group}
      → BuilderOk env b
      → GroupOk env b.conditions g read
      → add_members env members (b, g) ≡ ok r
      → Added env b r (read ++ members)
  add_members-Added [] read b g v k h =
      subst (λ r. Added env b r (read ++ [])) (add_members-nil (b, g) h)
        (record {
          builder_ok = v;
          group_ok = subst (GroupOk env b.conditions g) (sym (append-nil read)) k;
          more = [];
          extends = sym (append-nil b.conditions);
        })
  add_members-Added (raw ∷ members) read b g {r} v k h =
      let (p, parsed, h') = add_members-cons raw members (b, g) h in
      let a = add_spec-Added read raw p.0 p.1 b g v k parsed in
      let s = add_spec p.0 p.1 (b, g) in
      let c = add_members-Added members (read ++ raw ∷ []) s.0 s.1 a.builder_ok a.group_ok h' in
      record {
        builder_ok = c.builder_ok;
        group_ok =
            subst (GroupOk env r.0.conditions r.1) (append_assoc read (raw ∷ []) members)
              c.group_ok;
        more = a.more ++ c.more;
        extends =
            c.extends ∙ ap (λ l. l ++ c.more) a.extends ∙ append_assoc b.conditions a.more c.more;
      }

-- Group by group.
pub data RepresentsAll (env : Env) (conditions : List ConditionSpec)
    : List (List ℕ) → List ConditionGroup → Type 0 where
  nil : RepresentsAll env conditions [] []
  cons :
      {indexes : List ℕ} {groups : List (List ℕ)} {group : ConditionGroup}
      {rest : List ConditionGroup}
      → Represents env conditions indexes group.members
      → RepresentsAll env conditions groups rest
      → RepresentsAll env conditions (indexes ∷ groups) (group ∷ rest)

RepresentsAll-append :
    (env : Env) {conditions : List ConditionSpec} (more : List ConditionSpec)
    {groups : List (List ℕ)} {raws : List ConditionGroup}
    → RepresentsAll env conditions groups raws
    → RepresentsAll env (conditions ++ more) groups raws
RepresentsAll-append env more nil = nil
RepresentsAll-append env more (cons r rest) =
    cons (Represents-append env more r) (RepresentsAll-append env more rest)

RepresentsAll-concat :
    (env : Env) {conditions : List ConditionSpec} {groups : List (List ℕ)}
    {raws : List ConditionGroup} {indexes : List ℕ} {group : ConditionGroup}
    → RepresentsAll env conditions groups raws
    → Represents env conditions indexes group.members
    → RepresentsAll env conditions (groups ++ indexes ∷ []) (raws ++ group ∷ [])
RepresentsAll-concat env nil r = cons r nil
RepresentsAll-concat env (cons x rest) r = cons x (RepresentsAll-concat env rest r)

-- The conditions were parsed and have distinct ids, and the groups stand for those of the command line.
pub record IsCanonical (env : Env) (plan : Plan) (raws : List ConditionGroup) : Type 0 where
  pub distinct : IsNodup (ids plan.conditions)
  pub parsed :
      (n : ℕ) (s : ConditionSpec)
      → get_elem? plan.conditions n ≡ some s
      → (raw : Text) × (i : Identity) × (parse_condition_spec env raw ≡ ok (s, i))
  pub represents : RepresentsAll env plan.conditions plan.groups raws

module _ (env : Env) (laws : WholeLaws env) where
  empty-GroupOk : (conditions : List ConditionSpec) → GroupOk env conditions empty_group []
  empty-GroupOk conditions = record {
    represents = record { sound = λ n p. elim p [ ]; complete = λ m p. elim p [ ]; nodup = tt };
    seen_index = λ i p. elim p [ ];
    index_seen = λ n p. elim p [ ];
  }

  add_groups-cons :
      (group : ConditionGroup) (groups : List ConditionGroup) (b : Builder) (read : List (List ℕ))
      {r : Builder × List (List ℕ)}
      → add_groups env (group ∷ groups) b read ≡ ok r
      → (s : Builder × Group) × (add_members env group.members (b, empty_group) ≡ ok s)
        × (add_groups env groups s.0 (read ++ s.1.group_indexes ∷ []) ≡ ok r)
  unfolding add_groups
  add_groups-cons group groups b read h =
      bind-eq-ok (add_members env group.members (b, empty_group))
        (λ s. add_groups env groups s.0 (read ++ s.1.group_indexes ∷ [])) h

  add_groups-nil :
      (b : Builder) (read : List (List ℕ)) {r : Builder × List (List ℕ)}
      → add_groups env [] b read ≡ ok r
      → (b, read) ≡ r
  unfolding add_groups
  add_groups-nil b read h = ok-injective h

  add_groups-Represents :
      (groups raws : List ConditionGroup) (b : Builder) (read : List (List ℕ))
      {r : Builder × List (List ℕ)}
      → BuilderOk env b
      → RepresentsAll env b.conditions read raws
      → add_groups env groups b read ≡ ok r
      → BuilderOk env r.0 × RepresentsAll env r.0.conditions r.1 (raws ++ groups)
  add_groups-Represents [] raws b read v k h =
      subst (λ r. BuilderOk env r.0 × RepresentsAll env r.0.conditions r.1 (raws ++ []))
        (add_groups-nil b read h)
        (v, subst (RepresentsAll env b.conditions read) (sym (append-nil raws)) k)
  add_groups-Represents (group ∷ groups) raws b read {r} v k h =
      let (s, m, h') = add_groups-cons group groups b read h in
      let a =
        add_members-Added env laws group.members [] b empty_group v (empty-GroupOk b.conditions)
          m in
      let k' =
        subst (λ c. RepresentsAll env c read raws) (sym a.extends)
          (RepresentsAll-append env a.more k) in
      let (v', k'') =
        add_groups-Represents groups (raws ++ group ∷ []) s.0 (read ++ s.1.group_indexes ∷ [])
          a.builder_ok (RepresentsAll-concat env k' a.group_ok.represents) h' in
      (v', subst (RepresentsAll env r.0.conditions r.1) (append_assoc raws (group ∷ []) groups) k'')

  empty-BuilderOk : BuilderOk env empty_builder
  empty-BuilderOk = record { entries = λ i n p. elim p [ ]; covered = λ n s h. cc; distinct = tt }

-- Every condition of the builder was parsed.
builder_parsed :
    (env : Env) (b : Builder) (n : ℕ) (s : ConditionSpec)
    → BuilderOk env b
    → get_elem? b.conditions n ≡ some s
    → (raw : Text) × (i : Identity) × (parse_condition_spec env raw ≡ ok (s, i))
builder_parsed env b n s v at =
    let (i, p) = v.covered n s at in
    let h = v.entries i n p in
    let same : h.spec ≡ s = some-injective h.spec s (sym h.at ∙ at) in
    (h.raw, i, subst (λ t. parse_condition_spec env h.raw ≡ ok (t, i)) same h.parsed)

-- The plan of canonicalPlan has conditions that were parsed, with distinct ids. Each group of it holds, once each, the
-- indexes of the conditions that the members of the command line's group parse to, and no others.
pub canonical_plan-IsCanonical :
    (env : Env) (groups : List ConditionGroup) {plan : Plan}
    → WholeLaws env
    → canonical_plan env groups ≡ ok plan
    → IsCanonical env plan groups
unfolding canonical_plan
canonical_plan-IsCanonical env groups {plan} laws h =
    let (r, a, e) = bind-eq-ok (add_groups env groups empty_builder []) _ h in
    let (v, k) =
      add_groups-Represents env laws groups [] empty_builder [] (empty-BuilderOk env laws) nil a in
    subst (λ p. IsCanonical env p groups) (ok-injective e)
      (record {
        distinct = v.distinct;
        parsed = λ n s at. builder_parsed env r.0 n s v at;
        represents = k;
      })
