-- ===== src/Cli/Plans/Lookup.antt =====
-- The map conditionIndexes and the set `seen` of canonicalPlan.
use outage.Base.{
  ℕ, true, false, none, some, List, [], ◌∷◌, In, here, there, ◌≡◌, ◌≢◌, inl, inr, refl, sym, ap,
  ◌∙◌, arith, Bool-cases,
}
use outage.Cli.Conditions.{Identity, identity_equal}
use outage.Cli.Plans.{Indexes, find_index, is_seen}

module _ (i j : Identity) (m : ℕ) (rest : Indexes) where
  find_index-miss : identity_equal j i ≡ false → find_index i ((j, m) ∷ rest) ≡ find_index i rest
  unfolding find_index
  find_index-miss e = rw e

  find_index-hit :
      {n : ℕ} → identity_equal j i ≡ true → find_index i ((j, m) ∷ rest) ≡ some n → n ≡ m
  unfolding find_index
  find_index-hit e h = ground arith

  find_index-some : identity_equal j i ≡ true → find_index i ((j, m) ∷ rest) ≢ none
  unfolding find_index
  find_index-some e h = ground arith

find_index-nil : (i : Identity) {n : ℕ} → find_index i [] ≢ some n
unfolding find_index
find_index-nil i h = cc

pub find_index-In :
    (i : Identity) (idx : Indexes) {n : ℕ}
    → find_index i idx ≡ some n
    → (j : Identity) × In (j, n) idx × (identity_equal j i ≡ true)
find_index-In i [] h = absurd (find_index-nil i h)
find_index-In i ((j, m) ∷ rest) {n} h = elim (Bool-cases (identity_equal j i)) [
  | inl e ↦ (j, here (λ k. (j, find_index-hit i j m rest e h k)), e)
  | inr e ↦
      let (k, p, q) = find_index-In i rest (sym (find_index-miss i j m rest e) ∙ h) in
      (k, there p, q)
]

pub find_index-none :
    (i : Identity) (idx : Indexes)
    → find_index i idx ≡ none
    → (j : Identity) (n : ℕ) → In (j, n) idx
    → identity_equal j i ≡ false
find_index-none i [] h j n p = elim p [ ]
find_index-none i ((j', m) ∷ rest) h j n (here e) = elim (Bool-cases (identity_equal j' i)) [
  | inl t ↦ absurd (find_index-some i j' m rest t h)
  | inr f ↦ rw (ap (λ p. p.0) e) f
]
find_index-none i ((j', m) ∷ rest) h j n (there p) = elim (Bool-cases (identity_equal j' i)) [
  | inl t ↦ absurd (find_index-some i j' m rest t h)
  | inr f ↦ find_index-none i rest (sym (find_index-miss i j' m rest f) ∙ h) j n p
]

module _ (i j : Identity) (rest : List Identity) where
  is_seen-miss : identity_equal j i ≡ false → is_seen i (j ∷ rest) ≡ is_seen i rest
  unfolding is_seen
  is_seen-miss e = rw e

  is_seen-hit : identity_equal j i ≡ true → is_seen i (j ∷ rest) ≢ false
  unfolding is_seen
  is_seen-hit e h = ground arith

is_seen-nil : (i : Identity) → is_seen i [] ≢ true
unfolding is_seen
is_seen-nil i h = cc

pub is_seen-In :
    (i : Identity) (seen : List Identity)
    → is_seen i seen ≡ true
    → (j : Identity) × In j seen × (identity_equal j i ≡ true)
is_seen-In i [] h = absurd (is_seen-nil i h)
is_seen-In i (j ∷ rest) h = elim (Bool-cases (identity_equal j i)) [
  | inl e ↦ (j, here refl, e)
  | inr e ↦ let (k, p, q) = is_seen-In i rest (sym (is_seen-miss i j rest e) ∙ h) in (k, there p, q)
]

pub is_seen-false :
    (i : Identity) (seen : List Identity)
    → is_seen i seen ≡ false
    → (j : Identity) → In j seen
    → identity_equal j i ≡ false
is_seen-false i [] h j p = elim p [ ]
is_seen-false i (k ∷ rest) h j (here e) = elim (Bool-cases (identity_equal k i)) [
  | inl t ↦ absurd (is_seen-hit i k rest t h)
  | inr f ↦ rw e f
]
is_seen-false i (k ∷ rest) h j (there p) = elim (Bool-cases (identity_equal k i)) [
  | inl t ↦ absurd (is_seen-hit i k rest t h)
  | inr f ↦ is_seen-false i rest (sym (is_seen-miss i k rest f) ∙ h) j p
]
