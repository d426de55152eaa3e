-- ===== src/Cmd/Tree.antt =====
-- buildConditionTree of cmd/outage/main.go.
pub mod Leaves
pub mod Meaning
pub mod Runs
pub mod Emits
use outage.Base.{
  ℕ, suc, ◌+◌, Bool, true, false, Option, none, some, List, [], ◌∷◌, ◌++◌, any, all, get_elem?,
  Text, codes,
}
use outage.Time.{Time, Duration}
use outage.Cli.Conditions.{Kind, Signal, ConditionSpec, print_nat}
use outage.Cli.Plans.{Plan}

-- The constructor of internal/condition that a leaf is made by; `latched` is NewDuration with 0.
pub data Monitor : Type 0 where
  latched : Monitor
  duration : Duration → Monitor
  date_time : Time → Monitor
  file : Text → Monitor
  signal : Option Signal → Monitor

pub record Leaf : Type 0 where
  pub id : Text
  pub monitor : Monitor

-- A group: its one leaf, or an And.
pub data Node : Type 0 where
  leaf : Leaf → Node
  and_of : Text → List Leaf → Node

-- The root: its one group, or an Or.
pub data Root : Type 0 where
  group : Node → Root
  or_of : Text → List Node → Root

-- A value, the error of an unsupported kind, or the panic of an index out of range.
pub data Build {ℓ} (A : Type ℓ) : Type ℓ where
  built : A → Build A
  unsupported_kind : Text → Build A
  panic : Build A

infixl 5 ◌>>=◌
abbrev pub ◌>>=◌ : {A B : Type 0} → Build A → (A → Build B) → Build B
built a >>= f = f a
unsupported_kind k >>= f = unsupported_kind k
panic >>= f = panic

-- The leaf of a condition, with what initialSatisfied holds of it.
unfoldable pub build_leaf : Kind → ConditionSpec → Option Bool → Build Leaf
build_leaf (Kind.other k) spec initial = unsupported_kind k
build_leaf Kind.duration spec none = panic
build_leaf Kind.date_time spec none = panic
build_leaf Kind.file spec none = panic
build_leaf Kind.signal spec none = panic
build_leaf Kind.duration spec (some false) =
    built (record { id = spec.id; monitor = duration spec.duration_value })
build_leaf Kind.date_time spec (some false) =
    built (record { id = spec.id; monitor = date_time spec.deadline })
build_leaf Kind.file spec (some false) = built (record { id = spec.id; monitor = file spec.path })
build_leaf Kind.signal spec (some false) =
    built (record { id = spec.id; monitor = signal spec.signal_value })
build_leaf _ spec (some true) = built (record { id = spec.id; monitor = latched })

-- The loop over the conditions, from index `n` on.
unfoldable pub build_leaves : List ConditionSpec → ℕ → List Bool → Build (List Leaf)
build_leaves [] n initial_satisfied = built []
build_leaves (spec ∷ specs) n initial_satisfied =
    build_leaf spec.kind spec (get_elem? initial_satisfied n) >>= λ l.
    build_leaves specs (suc n) initial_satisfied >>= λ ls. built (l ∷ ls)

abbrev pub leaf_at : Option Leaf → Build Leaf
leaf_at none = panic
leaf_at (some l) = built l

-- The children of a group.
unfoldable pub build_children : List Leaf → List ℕ → Build (List Leaf)
build_children leaves [] = built []
build_children leaves (member ∷ members) = leaf_at (get_elem? leaves member) >>= λ l.
    build_children leaves members >>= λ ls. built (l ∷ ls)

abbrev pub node_of : ℕ → List Leaf → Node
node_of index (l ∷ []) = leaf l
node_of index [] = and_of (codes "and:" ++ print_nat index) []
node_of index (l ∷ k ∷ ls) = and_of (codes "and:" ++ print_nat index) (l ∷ k ∷ ls)

-- The loop over the groups, from index `index` on.
unfoldable pub build_groups : List Leaf → ℕ → List (List ℕ) → Build (List Node)
build_groups leaves index [] = built []
build_groups leaves index (members ∷ groups) = build_children leaves members >>= λ ls.
    build_groups leaves (suc index) groups >>= λ nodes. built (node_of index ls ∷ nodes)

abbrev pub root_of : List Node → Root
root_of (n ∷ []) = group n
root_of [] = or_of (codes "or:root") []
root_of (n ∷ m ∷ nodes) = or_of (codes "or:root") (n ∷ m ∷ nodes)

-- buildConditionTree
unfoldable pub build_condition_tree : Plan → List Bool → Build Root
build_condition_tree plan initial_satisfied =
    build_leaves plan.conditions 0 initial_satisfied >>= λ leaves.
    build_groups leaves 0 plan.groups >>= λ nodes. built (root_of nodes)
