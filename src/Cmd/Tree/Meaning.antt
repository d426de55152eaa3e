-- ===== src/Cmd/Tree/Meaning.antt =====
-- The tree of a canonical plan means what the command line says.
use outage.Base.{
  ℕ, suc, Bool, false, Option, none, some, List, [], ◌∷◌, any, all, In, here, there, get_elem?,
  length, ◌≡◌, refl, sym, ap, ◌∙◌, arith, Text, map, subst, ◌||◌, length-map, get_elem?-map,
}
use outage.Cli.Result.{ok}
use outage.Cli.Groups.{ConditionGroup}
use outage.Cli.Conditions.Identities.{WholeLaws, parsed_known}
use outage.Cli.Conditions.{Env, ConditionSpec}
use outage.Cli.Plans.Interning.{Stands}
use outage.Cli.Plans.Represented.{RepresentsAll, nil, cons, IsCanonical, canonical_plan-IsCanonical}
use outage.Cli.Plans.{Plan, canonical_plan}
use outage.Cmd.Satisfied.Meaning.{Represents-all, groups_hold, raw_satisfied}
use outage.Cmd.Tree.{
  Leaf, Node, leaf, and_of, Root, group, or_of, built, build_children, build_groups, node_of,
  root_of, build_condition_tree,
}
use outage.Cmd.Tree.Leaves.{Leaves, IsLeafOf, Occurrences, fires, occurs, build_leaves-built}

-- The value of a tree by that of its leaves: an And waits for all its children, an Or for one.
abbrev pub holds_node : (Leaf → Bool) → Node → Bool
holds_node held (leaf l) = held l
holds_node held (and_of id leaves) = all held leaves

abbrev pub holds : (Leaf → Bool) → Root → Bool
holds held (group node) = holds_node held node
holds held (or_of id nodes) = any (holds_node held) nodes

holds_node-node_of :
    (held : Leaf → Bool) (index : ℕ) (leaves : List Leaf)
    → holds_node held (node_of index leaves) ≡ all held leaves
holds_node-node_of held index [] = refl
holds_node-node_of held index (l ∷ []) = ground arith
holds_node-node_of held index (l ∷ k ∷ leaves) = refl

holds-root_of :
    (held : Leaf → Bool) (nodes : List Node)
    → holds held (root_of nodes) ≡ any (holds_node held) nodes
holds-root_of held [] = refl
holds-root_of held (n ∷ []) = ground arith
holds-root_of held (n ∷ m ∷ nodes) = refl

module _ (held : Leaf → Bool) (leaves : List Leaf) where
  abbrev leaf_held : Option Leaf → Bool
  leaf_held none = false
  leaf_held (some l) = held l

  build_children-built :
      (members : List ℕ)
      → ((n : ℕ) → In n members → (l : Leaf) × (get_elem? leaves n ≡ some l))
      → (ls : List Leaf) × (build_children leaves members ≡ built ls)
        × (all held ls ≡ all (λ n. leaf_held (get_elem? leaves n)) members)
  unfolding build_children
  build_children-built [] h = ([], refl, refl)
  build_children-built (n ∷ members) h =
      let (l, at) = h n (here refl) in
      let (ls, e, q) = build_children-built members (λ m p. h m (there p)) in
      (l ∷ ls, rw at (rw e refl), rw at (rw q refl))

module _ (env : Env) (held : Leaf → Bool) (sat : ConditionSpec → Bool)
    (conditions : List ConditionSpec) (leaves : List Leaf)
    (made : (k : ℕ) (s : ConditionSpec)
      → get_elem? conditions k ≡ some s
      → (l : Leaf) × (get_elem? leaves k ≡ some l) × (held l ≡ sat s)) where
  Stands-held :
      (raw : Text) (n : ℕ)
      → Stands env conditions raw n
      → leaf_held held leaves (get_elem? leaves n) ≡ raw_satisfied env sat raw
  Stands-held raw n s = let (l, at, e) = made n s.spec s.at in rw at (rw s.parsed e)

  build_groups-built :
      {groups : List (List ℕ)} {raws : List ConditionGroup} (index : ℕ)
      → RepresentsAll env conditions groups raws
      → (nodes : List Node) × (build_groups leaves index groups ≡ built nodes)
        × (any (holds_node held) nodes ≡ groups_hold (raw_satisfied env sat) raws)
  unfolding build_groups
  build_groups-built index nil = ([], refl, refl)
  build_groups-built index (cons {indexes} {groups} {group = g} {rest} r k) =
      let (ls, e, q) =
        build_children-built held leaves indexes (λ n p.
          let (raw, _, s) = r.sound n p in let (l, at, _) = made n s.spec s.at in (l, at)) in
      let (nodes, e', q') = build_groups-built (suc index) k in
      let v = holds_node-node_of held index ls ∙ q ∙ Represents-all env _ _ r Stands-held in
      (node_of index ls ∷ nodes, rw e (rw e' refl), rw (v, q') refl)

built-injective : {A : Type 0} {a b : A} → built a ≡ built b → a ≡ b
built-injective h = cc

-- The tree with a value for each leaf, where the leaf of a condition has the value of the condition.
pub IsCanonical-built :
    (env : Env) (groups : List ConditionGroup) (initial : List Bool) {plan : Plan}
    → IsCanonical env plan groups
    → length initial ≡ length plan.conditions
    → (root : Root) × (build_condition_tree plan initial ≡ built root)
      × ((held : Leaf → Bool) (sat : ConditionSpec → Bool)
          → ((k : ℕ) (s : ConditionSpec) (b : Bool) (l : Leaf)
              → get_elem? plan.conditions k ≡ some s
              → get_elem? initial k ≡ some b
              → IsLeafOf b s l
              → held l ≡ sat s)
          → holds held root ≡ groups_hold (raw_satisfied env sat) groups)
unfolding build_condition_tree
IsCanonical-built env groups initial {plan} c n =
    let known = λ (k : ℕ) (s : ConditionSpec) (at : get_elem? plan.conditions k ≡ some s).
      parsed_known env (c.parsed k s at).0 (c.parsed k s at).2 in
    let (leaves, e, made) = build_leaves-built plan.conditions 0 initial known (omega arith) in
    let nodes_of =
      λ (held : Leaf → Bool) (sat : ConditionSpec → Bool)
          (same : (k : ℕ) (s : ConditionSpec)
            → get_elem? plan.conditions k ≡ some s
            → (l : Leaf) × (get_elem? leaves k ≡ some l) × (held l ≡ sat s)).
        build_groups-built env held sat plan.conditions leaves same 0 c.represents in
    let (nodes, e', _) = nodes_of (λ _. false) (λ _. false) (idle leaves made) in
    (
      root_of nodes,
      rw e (rw e' refl),
      λ held sat agree.
          let made' = agreeing held sat leaves agree made in
          let same = built-injective (sym e' ∙ (nodes_of held sat made').1) in
          holds-root_of held nodes ∙ ap (any (holds_node held)) same ∙ (nodes_of held sat made').2,
    )
  where
    -- Every leaf has a value.
    idle :
        (leaves : List Leaf)
        → Leaves plan.conditions 0 initial leaves
        → (k : ℕ) (s : ConditionSpec) → get_elem? plan.conditions k ≡ some s
        → (l : Leaf) × (get_elem? leaves k ≡ some l) × (false ≡ false)
    idle leaves made k s at = let (l, _, x, _, _) = made k s at in (l, x, refl)

    agreeing :
        (held : Leaf → Bool) (sat : ConditionSpec → Bool) (leaves : List Leaf)
        → ((k : ℕ) (s : ConditionSpec) (b : Bool) (l : Leaf)
            → get_elem? plan.conditions k ≡ some s
            → get_elem? initial k ≡ some b
            → IsLeafOf b s l
            → held l ≡ sat s)
        → Leaves plan.conditions 0 initial leaves
        → (k : ℕ) (s : ConditionSpec) → get_elem? plan.conditions k ≡ some s
        → (l : Leaf) × (get_elem? leaves k ≡ some l) × (held l ≡ sat s)
    agreeing held sat leaves agree made k s at =
        let (l, b, x, y, z) = made k s at in
        (l, x, agree k s b l at (subst (λ j. get_elem? initial j ≡ some b) (omega arith) y) z)

-- With the values that conditions have initially, buildConditionTree on a canonical plan returns a root:
-- no kind is unsupported and no index out of range. Whatever occurs then, the root is satisfied by the
-- monitors of its leaves exactly when the command line, as an OR of ANDs, is satisfied by the conditions
-- that held initially or whose duration, deadline, file or signal occurs.
pub build_condition_tree-meaning :
    (env : Env) (groups : List ConditionGroup) (sat : ConditionSpec → Bool) {plan : Plan}
    → WholeLaws env
    → canonical_plan env groups ≡ ok plan
    → (root : Root) × (build_condition_tree plan (map sat plan.conditions) ≡ built root)
      × ((occ : Occurrences)
          → holds (fires occ) root
            ≡ groups_hold (raw_satisfied env (λ spec. sat spec || occurs occ spec)) groups)
build_condition_tree-meaning env groups sat {plan} laws h =
    let (root, e, meaning) =
      IsCanonical-built env groups (map sat plan.conditions)
        (canonical_plan-IsCanonical env groups laws h) (length-map plan.conditions sat) in
    (
      root,
      e,
      λ occ.
          meaning (fires occ) (λ spec. sat spec || occurs occ spec)
            (λ k s b l at state leaf_of.
              leaf_of.emits_when occ
              ∙ ap (λ v. v || occurs occ s)
                  (some-bool (sym state ∙ get_elem?-map sat plan.conditions k at))),
    )
  where
    some-bool : {a b : Bool} → some a ≡ some b → a ≡ b
    some-bool q = cc
