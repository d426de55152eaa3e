-- ===== src/Cli/Plans/Interning.antt =====
-- The conditions of a plan and the map of their identities.
use outage.Base.{
  ℕ, suc, true, false, none, some, List, [], ◌∷◌, ◌++◌, map, length, get_elem?, In, here, there,
  IsNodup, ◌≡◌, ◌≢◌, inl, inr, refl, sym, ap, ◌∙◌, subst, append-nil, Option-cases, Text,
  get_elem?-append_left, get_elem?-append_length, get_elem?-concat_cases, IsNodup-concat,
}
use outage.Cli.Result.{ok}
use outage.Cli.Conditions.Identities.{
  WholeLaws, identity_equal_refl, parsed-determined, parsed-determined_by_id,
}
use outage.Cli.Conditions.{Env, ConditionSpec, Identity, parse_condition_spec}
use outage.Cli.Plans.Lookup.{find_index-In, find_index-none}
use outage.Cli.Plans.{find_index, Builder, intern}

module _ (env : Env) where
  -- The condition at an index is the one that a member of the command line parses to.
  pub record Stands (conditions : List ConditionSpec) (raw : Text) (n : ℕ) : Type 0 where
    pub spec : ConditionSpec
    pub identity : Identity
    pub parsed : parse_condition_spec env raw ≡ ok (spec, identity)
    pub at : get_elem? conditions n ≡ some spec

  -- The same, by its identity.
  pub record Holds (conditions : List ConditionSpec) (i : Identity) (n : ℕ) : Type 0 where
    pub raw : Text
    pub spec : ConditionSpec
    pub parsed : parse_condition_spec env raw ≡ ok (spec, i)
    pub at : get_elem? conditions n ≡ some spec

  pub Holds-append :
      {conditions : List ConditionSpec} (more : List ConditionSpec) {i : Identity} {n : ℕ}
      → Holds conditions i n
      → Holds (conditions ++ more) i n
  Holds-append {conditions} more {n = n} h = record {
    raw = h.raw;
    spec = h.spec;
    parsed = h.parsed;
    at = get_elem?-append_left conditions more n h.at;
  }

  pub Stands-append :
      {conditions : List ConditionSpec} (more : List ConditionSpec) {raw : Text} {n : ℕ}
      → Stands conditions raw n
      → Stands (conditions ++ more) raw n
  Stands-append {conditions} more {n = n} h = record {
    spec = h.spec;
    identity = h.identity;
    parsed = h.parsed;
    at = get_elem?-append_left conditions more n h.at;
  }

abbrev pub ids : List ConditionSpec → List Text
ids = map (λ s. s.id)

-- The map and the list of conditions agree, and the ids of the conditions are distinct.
pub record BuilderOk (env : Env) (b : Builder) : Type 0 where
  pub entries : (i : Identity) (n : ℕ) → In (i, n) b.indexes → Holds env b.conditions i n
  pub covered :
      (n : ℕ) (s : ConditionSpec)
      → get_elem? b.conditions n ≡ some s
      → (i : Identity) × In (i, n) b.indexes
  pub distinct : IsNodup (ids b.conditions)

-- An id of the list stands at some index.
In-ids :
    (conditions : List ConditionSpec) {id : Text}
    → In id (ids conditions)
    → (n : ℕ) × (s : ConditionSpec) × (get_elem? conditions n ≡ some s) × (s.id ≡ id)
In-ids [] p = elim p [ ]
In-ids (s ∷ rest) (here e) = (0, s, refl, sym e)
In-ids (s ∷ rest) (there p) = let (n, t, q, e) = In-ids rest p in (suc n, t, q, e)

ids-concat :
    (conditions : List ConditionSpec) (s : ConditionSpec)
    → ids (conditions ++ s ∷ []) ≡ ids conditions ++ s.id ∷ []
ids-concat [] s = refl
ids-concat (t ∷ rest) s = ap (λ l. t.id ∷ l) (ids-concat rest s)

-- What interning a parsed member gives: the map agrees, the identity stands at the index, and no
-- earlier condition has moved.
pub record Interned (env : Env) (b b' : Builder) (i : Identity) (n : ℕ) : Type 0 where
  pub builder_ok : BuilderOk env b'
  pub holds : Holds env b'.conditions i n
  pub more : List ConditionSpec
  pub extends : b'.conditions ≡ b.conditions ++ more

module _ (env : Env) (laws : WholeLaws env) where
  -- Two identities that stand at one index are equal.
  pub Holds-injective :
      {conditions : List ConditionSpec} {i j : Identity} {n : ℕ}
      → Holds env conditions i n
      → Holds env conditions j n
      → i ≡ j
  Holds-injective {i = i} {j = j} h k =
      let same : h.spec ≡ k.spec = some-spec (sym h.at ∙ k.at) in
      ap (λ p. p.1)
        (parsed-determined_by_id env laws h.raw k.raw h.parsed k.parsed (ap (λ s. s.id) same))
    where
      some-spec : {s t : ConditionSpec} → some s ≡ some t → s ≡ t
      some-spec e = cc

  intern-new :
      (b : Builder) (raw : Text) (spec : ConditionSpec) (i : Identity)
      → BuilderOk env b
      → parse_condition_spec env raw ≡ ok (spec, i)
      → find_index i b.indexes ≡ none
      → ¬ (In spec.id (ids b.conditions))
  intern-new b raw spec i v p f m =
      let (n, s, at, e) = In-ids b.conditions m in
      let (j, in_map) = v.covered n s at in
      let h = v.entries j n in_map in
      let same : h.spec ≡ s = some-spec (sym h.at ∙ at) in
      let eq = parsed-determined_by_id env laws h.raw raw h.parsed p (ap (λ t. t.id) same ∙ e) in
      apart (
        sym (identity_equal_refl j i (ap (λ q. q.1) eq)) ∙ find_index-none i b.indexes f j n in_map)
    where
      some-spec : {s t : ConditionSpec} → some s ≡ some t → s ≡ t
      some-spec e = cc

      apart : true ≢ false
      apart e = cc

  module _ (b : Builder) (raw : Text) (spec : ConditionSpec) (i : Identity) (v : BuilderOk env b)
      (parsed : parse_condition_spec env raw ≡ ok (spec, i)) where
    intern-found : (n : ℕ) → find_index i b.indexes ≡ some n → Interned env b b i n
    intern-found n f =
        let (j, in_map, e) = find_index-In i b.indexes f in
        let h = v.entries j n in_map in
        let eq = parsed-determined env laws h.raw raw h.parsed parsed e in
        record {
          builder_ok = v;
          holds = subst (λ k. Holds env b.conditions k n) (ap (λ q. q.1) eq) h;
          more = [];
          extends = sym (append-nil b.conditions);
        }

    abbrev added : Builder
    added = record {
      conditions = b.conditions ++ spec ∷ [];
      indexes = (i, length b.conditions) ∷ b.indexes;
    }

    added-Holds : Holds env added.conditions i (length b.conditions)
    added-Holds = record {
      raw = raw;
      spec = spec;
      parsed = parsed;
      at = get_elem?-append_length b.conditions spec [];
    }

    intern-added : find_index i b.indexes ≡ none → Interned env b added i (length b.conditions)
    intern-added f = record {
      builder_ok = record {
        entries = entries;
        covered = covered;
        distinct = rw (ids-concat b.conditions spec) (
            IsNodup-concat (ids b.conditions) spec.id v.distinct
              (intern-new b raw spec i v parsed f));
      };
      holds = added-Holds;
      more = spec ∷ [];
      extends = refl;
    }
      where
        entries : (j : Identity) (n : ℕ) → In (j, n) added.indexes → Holds env added.conditions j n
        entries j n (here e) = subst (λ q. Holds env added.conditions q.0 q.1) (sym e) added-Holds
        entries j n (there p) = Holds-append env (spec ∷ []) (v.entries j n p)

        covered :
            (n : ℕ) (s : ConditionSpec)
            → get_elem? added.conditions n ≡ some s
            → (j : Identity) × In (j, n) added.indexes
        covered n s at = elim (get_elem?-concat_cases b.conditions spec n at) [
          | inl old ↦ let (j, p) = v.covered n s old in (j, there p)
          | inr (e, _) ↦ (i, here (ap (λ k. (i, k)) e))
        ]

    pub intern-Interned : Interned env b (intern spec i b).0 i (intern spec i b).1
    unfolding intern
    intern-Interned = elim (Option-cases (find_index i b.indexes)) [
      | inl f ↦ rw (f, intern) (intern-added f)
      | inr (n, f) ↦ rw (f, intern) (intern-found n f)
    ]
