-- ===== src/Cmd/Tree/Leaves.antt =====
-- The leaves that buildConditionTree makes, and when they emit.
use outage.Base.{
  ℕ, zero, suc, ◌+◌, ◌≤◌, Bool, true, false, Option, some, List, [], ◌∷◌, get_elem?, length, ◌≡◌,
  ◌≢◌, refl, arith, lt-get_elem?, Text, subst, ◌||◌,
}
use outage.Time.{Time, Duration}
use outage.Cli.Conditions.{Kind, Signal, ConditionSpec}
use outage.Cmd.Tree.{
  Leaf, latched, duration, date_time, file, signal, built, build_leaf, build_leaves,
}

-- The kinds that buildConditionTree accepts.
abbrev pub IsKnown : ConditionSpec → Type 0
IsKnown spec = (k : Text) → spec.kind ≢ Kind.other k

-- What occurs of durations, datetimes, files and signals while the program runs.
pub record Occurrences : Type 0 where
  pub duration_elapses : Duration → Bool
  pub deadline_passes : Time → Bool
  pub file_appears : Text → Bool
  pub signal_arrives : Option Signal → Bool

-- Whether a leaf's monitor emits, by what it monitors: a latched leaf does.
abbrev pub fires : Occurrences → Leaf → Bool
fires occ l = elim l.monitor [
  | latched ↦ true
  | duration d ↦ occ.duration_elapses d
  | date_time t ↦ occ.deadline_passes t
  | file path ↦ occ.file_appears path
  | signal value ↦ occ.signal_arrives value
]

-- Whether what a condition of the command line waits for occurs, by its kind.
abbrev pub occurs_kind : Occurrences → Kind → ConditionSpec → Bool
occurs_kind occ Kind.duration spec = occ.duration_elapses spec.duration_value
occurs_kind occ Kind.date_time spec = occ.deadline_passes spec.deadline
occurs_kind occ Kind.file spec = occ.file_appears spec.path
occurs_kind occ Kind.signal spec = occ.signal_arrives spec.signal_value
occurs_kind occ (Kind.other k) spec = false

abbrev pub occurs : Occurrences → ConditionSpec → Bool
occurs occ spec = occurs_kind occ spec.kind spec

-- A leaf for a condition that held initially or not: of its id, and it emits if the condition held or
-- what it waits for occurs.
pub record IsLeafOf (initially : Bool) (spec : ConditionSpec) (l : Leaf) : Type 0 where
  pub same_id : l.id ≡ spec.id
  pub emits_when : (occ : Occurrences) → fires occ l ≡ (initially || occurs occ spec)

build_leaf-built :
    (spec : ConditionSpec) (b : Bool)
    → IsKnown spec
    → (l : Leaf) × (build_leaf spec.kind spec (some b) ≡ built l) × IsLeafOf b spec l
unfolding build_leaf
build_leaf-built spec b h = go spec.kind b refl
  where
    go :
        (kind : Kind) (b : Bool)
        → spec.kind ≡ kind
        → (l : Leaf) × (build_leaf kind spec (some b) ≡ built l) × IsLeafOf b spec l
    go (Kind.other k) b e = absurd (h k e)
    go Kind.duration true e = (_, refl, record { same_id = refl; emits_when = λ occ. refl })
    go Kind.date_time true e = (_, refl, record { same_id = refl; emits_when = λ occ. refl })
    go Kind.file true e = (_, refl, record { same_id = refl; emits_when = λ occ. refl })
    go Kind.signal true e = (_, refl, record { same_id = refl; emits_when = λ occ. refl })
    go Kind.duration false e = (_, refl, record { same_id = refl; emits_when = λ occ. rw e refl })
    go Kind.date_time false e = (_, refl, record { same_id = refl; emits_when = λ occ. rw e refl })
    go Kind.file false e = (_, refl, record { same_id = refl; emits_when = λ occ. rw e refl })
    go Kind.signal false e = (_, refl, record { same_id = refl; emits_when = λ occ. rw e refl })

-- Every condition has its leaf at its index, by the states from an index on.
abbrev pub Leaves : List ConditionSpec → ℕ → List Bool → List Leaf → Type 0
Leaves specs n initial leaves =
    (k : ℕ) (s : ConditionSpec)
    → get_elem? specs k ≡ some s
    → (l : Leaf) × (b : Bool) × (get_elem? leaves k ≡ some l)
      × (get_elem? initial (n + k) ≡ some b)
      × IsLeafOf b s l

Leaves-cons :
    (spec : ConditionSpec) (specs : List ConditionSpec) (n : ℕ) (initial : List Bool) (b : Bool)
    (l : Leaf) (leaves : List Leaf)
    → get_elem? initial n ≡ some b
    → IsLeafOf b spec l
    → Leaves specs (suc n) initial leaves
    → Leaves (spec ∷ specs) n initial (l ∷ leaves)
Leaves-cons spec specs n initial b l leaves state e h zero s at = (
  l,
  b,
  refl,
  subst (λ k. get_elem? initial k ≡ some b) (omega arith) state,
  subst (λ t. IsLeafOf b t l) (some-spec at) e,
)
  where
    some-spec : {a b : ConditionSpec} → some a ≡ some b → a ≡ b
    some-spec q = cc
Leaves-cons spec specs n initial b l leaves state e h (suc k) s at =
    let (l', b', x, y, z) = h k s at in
    (l', b', x, subst (λ j. get_elem? initial j ≡ some b') (omega arith) y, z)

pub build_leaves-built :
    (specs : List ConditionSpec) (n : ℕ) (initial : List Bool)
    → ((k : ℕ) (s : ConditionSpec) → get_elem? specs k ≡ some s → IsKnown s)
    → n + length specs ≤ length initial
    → (leaves : List Leaf) × (build_leaves specs n initial ≡ built leaves)
      × Leaves specs n initial leaves
unfolding build_leaves
build_leaves-built [] n initial known h = ([], refl, λ k s at. cc)
build_leaves-built (spec ∷ specs) n initial known h =
    let (b, at) = lt-get_elem? initial n (omega arith) in
    let (l, e, same) = build_leaf-built spec b (known 0 spec refl) in
    let (ls, q, r) =
      build_leaves-built specs (suc n) initial (λ k s x. known (suc k) s x) (omega arith) in
    (l ∷ ls, rw (at, e) (rw q refl), Leaves-cons spec specs n initial b l ls at same r)
