-- ===== src/Cli/Plans/Canonical.antt =====
-- canonicalPlan: its groups stand for the groups of the command line.
use outage.Base.{
  ℕ, true, false, some, List, [], ◌∷◌, ◌++◌, In, here, there, IsNodup, ◌≡◌, inl, inr, refl, sym, ap,
  ◌∙◌, subst, Text, In-append_left, In-append_right, In-append_cases, IsNodup-concat, get_elem?,
}
use outage.Cli.Result.{ok}
use outage.Cli.Conditions.Identities.{WholeLaws, identity_equal_refl, parsed-determined}
use outage.Cli.Conditions.{Env, ConditionSpec, Identity, parse_condition_spec}
use outage.Cli.Plans.Lookup.{is_seen-In, is_seen-false}
use outage.Cli.Plans.Interning.{Stands, Holds, Stands-append, Holds-append, Holds-injective}
use outage.Cli.Plans.{is_seen, Group}

-- The indexes of a group stand for its members, each index once.
pub record Represents (env : Env) (conditions : List ConditionSpec) (indexes : List ℕ)
    (members : List Text) : Type 0 where
  pub sound : (n : ℕ) → In n indexes → (raw : Text) × In raw members × Stands env conditions raw n
  pub complete :
      (raw : Text) → In raw members → (n : ℕ) × In n indexes × Stands env conditions raw n
  pub nodup : IsNodup indexes

-- The set `seen` holds the identities of the indexes.
pub record GroupOk (env : Env) (conditions : List ConditionSpec) (g : Group) (members : List Text)
    : Type 0 where
  pub represents : Represents env conditions g.group_indexes members
  pub seen_index :
      (i : Identity) → In i g.seen → (n : ℕ) × In n g.group_indexes × Holds env conditions i n
  pub index_seen :
      (n : ℕ) → In n g.group_indexes → (i : Identity) × In i g.seen × Holds env conditions i n

module _ (env : Env) {conditions : List ConditionSpec} (more : List ConditionSpec) where
  pub Represents-append :
      {indexes : List ℕ} {members : List Text}
      → Represents env conditions indexes members
      → Represents env (conditions ++ more) indexes members
  Represents-append r = record {
    sound = λ n p. let (raw, q, s) = r.sound n p in (raw, q, Stands-append env more s);
    complete = λ raw p. let (n, q, s) = r.complete raw p in (n, q, Stands-append env more s);
    nodup = r.nodup;
  }

  pub GroupOk-append :
      {g : Group} {members : List Text}
      → GroupOk env conditions g members
      → GroupOk env (conditions ++ more) g members
  GroupOk-append r = record {
    represents = Represents-append r.represents;
    seen_index = λ i p. let (n, q, s) = r.seen_index i p in (n, q, Holds-append env more s);
    index_seen = λ n p. let (i, q, s) = r.index_seen n p in (i, q, Holds-append env more s);
  }

Holds-Stands :
    (env : Env) {conditions : List ConditionSpec} {i : Identity} {n : ℕ} (raw : Text)
    (spec : ConditionSpec)
    → parse_condition_spec env raw ≡ ok (spec, i)
    → get_elem? conditions n ≡ some spec
    → Stands env conditions raw n
Holds-Stands env {i = i} raw spec parsed at = record {
  spec = spec;
  identity = i;
  parsed = parsed;
  at = at;
}

In-concat-last : {A : Type 0} {a b : A} → In a (b ∷ []) → a ≡ b
In-concat-last (here e) = e
In-concat-last (there p) = elim p [ ]

-- A member is put behind those that were read.
module _ (env : Env) (laws : WholeLaws env) (members : List Text) (raw : Text)
    (spec : ConditionSpec) (i : Identity)
    (parsed : parse_condition_spec env raw ≡ ok (spec, i)) where
  -- It was seen: some index stands for it already.
  pub GroupOk-seen :
      {conditions : List ConditionSpec} {g : Group}
      → GroupOk env conditions g members
      → is_seen i g.seen ≡ true
      → GroupOk env conditions g (members ++ raw ∷ [])
  GroupOk-seen {conditions} {g} r s = record {
    represents = record {
      sound = λ n p. let (m, q, t) = r.represents.sound n p in (m, In-append_left (raw ∷ []) q, t);
      complete = complete;
      nodup = r.represents.nodup;
    };
    seen_index = r.seen_index;
    index_seen = r.index_seen;
  }
    where
      complete :
          (m : Text)
          → In m (members ++ raw ∷ [])
          → (n : ℕ) × In n g.group_indexes × Stands env conditions m n
      complete m p = elim (In-append_cases members p) [
        | inl old ↦ r.represents.complete m old
        | inr new ↦
            let (j, q, e) = is_seen-In i g.seen s in
            let (n, k, h) = r.seen_index j q in
            let eq = parsed-determined env laws h.raw raw h.parsed parsed e in
            let st = Holds-Stands env raw spec parsed (h.at ∙ ap (λ x. some x.0) eq) in
            (n, k, subst (λ x. Stands env conditions x n) (sym (In-concat-last new)) st)
      ]

  -- It was not: its index is put behind the others.
  pub GroupOk-added :
      {conditions : List ConditionSpec} {g : Group} {n : ℕ}
      → GroupOk env conditions g members
      → is_seen i g.seen ≡ false
      → Holds env conditions i n
      → GroupOk env conditions
          (record { group_indexes = g.group_indexes ++ n ∷ []; seen = i ∷ g.seen })
          (members ++ raw ∷ [])
  GroupOk-added {conditions} {g} {n} r s h = record {
    represents = record {
      sound = sound;
      complete = complete;
      nodup = IsNodup-concat g.group_indexes n r.represents.nodup fresh;
    };
    seen_index = seen_index;
    index_seen = index_seen;
  }
    where
      new_index : In n (g.group_indexes ++ n ∷ [])
      new_index = In-append_right g.group_indexes (here refl)

      stands : Stands env conditions raw n
      stands =
          let eq =
            parsed-determined env laws h.raw raw h.parsed parsed (identity_equal_refl i i refl) in
          Holds-Stands env raw spec parsed (h.at ∙ ap (λ x. some x.0) eq)

      sound :
          (m : ℕ)
          → In m (g.group_indexes ++ n ∷ [])
          → (x : Text) × In x (members ++ raw ∷ []) × Stands env conditions x m
      sound m p = elim (In-append_cases g.group_indexes p) [
        | inl old ↦ let (x, q, t) = r.represents.sound m old in (x, In-append_left (raw ∷ []) q, t)
        | inr new ↦ (
          raw,
          In-append_right members (here refl),
          subst (Stands env conditions raw) (sym (In-concat-last new)) stands,
        )
      ]

      complete :
          (x : Text)
          → In x (members ++ raw ∷ [])
          → (m : ℕ) × In m (g.group_indexes ++ n ∷ []) × Stands env conditions x m
      complete x p = elim (In-append_cases members p) [
        | inl old ↦ let (m, q, t) = r.represents.complete x old in (m, In-append_left (n ∷ []) q, t)
        | inr new ↦
            (n, new_index, subst (λ y. Stands env conditions y n) (sym (In-concat-last new)) stands)
      ]

      seen_index :
          (j : Identity)
          → In j (i ∷ g.seen)
          → (m : ℕ) × In m (g.group_indexes ++ n ∷ []) × Holds env conditions j m
      seen_index j (here e) = (n, new_index, subst (λ y. Holds env conditions y n) (sym e) h)
      seen_index j (there p) = let (m, q, t) = r.seen_index j p in (m, In-append_left (n ∷ []) q, t)

      index_seen :
          (m : ℕ)
          → In m (g.group_indexes ++ n ∷ [])
          → (j : Identity) × In j (i ∷ g.seen) × Holds env conditions j m
      index_seen m p = elim (In-append_cases g.group_indexes p) [
        | inl old ↦ let (j, q, t) = r.index_seen m old in (j, there q, t)
        | inr new ↦ (i, here refl, subst (Holds env conditions i) (sym (In-concat-last new)) h)
      ]

      fresh : ¬ (In n g.group_indexes)
      fresh p =
          let (j, q, t) = r.index_seen n p in
          let e = Holds-injective env laws t h in
          let a = sym (identity_equal_refl j i e) ∙ is_seen-false i g.seen s j q in cc
