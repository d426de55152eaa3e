-- ===== src/Cli/Groups/Split.antt =====
-- strings.Split against strings.Join and the occurrences of the separator.
use outage.Base.{
  ℕ, zero, suc, ◌-◌, Bool, true, false, List, [], ◌∷◌, ◌++◌, ◌≡◌, ◌≢◌, ap, refl, sym, ◌∙◌, inl, inr,
  if◌then◌else◌, length, drop, arith, Bool-cases, All, append-nil, subst, Text, has_prefix,
  has_prefix-drop, map,
}
use outage.Cli.Result.{ok, bind-eq-ok, ok-injective}
use outage.Cli.Groups.{
  ConditionGroup, and_separator, parse_condition_arguments, parse_condition_groups, push_front,
  split_from, split,
}

-- strings.Join
unfoldable pub join : Text → List Text → Text
join sep [] = []
join sep (m ∷ []) = m
join sep (m ∷ n ∷ ms) = m ++ (sep ++ join sep (n ∷ ms))

-- The separator stands nowhere in the text.
abbrev pub Lacks : Text → Text → Type 0
Lacks sep [] = has_prefix [] sep ≡ false
Lacks sep (c ∷ s) = (has_prefix (c ∷ s) sep ≡ false) × Lacks sep s

push_front-ne-nil : (c : ℕ) (ms : List Text) → push_front c ms ≢ []
push_front-ne-nil c [] h = cc
push_front-ne-nil c (m ∷ ms) h = cc

first-ne-nil :
    (b : Bool) (ms : List Text) (c : ℕ) (ns : List Text)
    → (if b then [] ∷ ms else push_front c ns) ≢ []
first-ne-nil true ms c ns h = cc
first-ne-nil false ms c ns h = push_front-ne-nil c ns h

split_from-ne-nil : (sep : Text) (skip : ℕ) (s : Text) → split_from sep skip s ≢ []
unfolding split_from
split_from-ne-nil sep skip [] h = cc
split_from-ne-nil sep (suc skip) (c ∷ s) h = split_from-ne-nil sep skip s h
split_from-ne-nil sep zero (c ∷ s) h =
    first-ne-nil (has_prefix (c ∷ s) sep) (split_from sep (length sep - 1) s) c
      (split_from sep zero s) h

join-cons :
    (sep m : Text) (ms : List Text) → ms ≢ [] → join sep (m ∷ ms) ≡ m ++ (sep ++ join sep ms)
unfolding join
join-cons sep m [] h = absurd (h refl)
join-cons sep m (n ∷ ms) h = refl

join-push_front :
    (sep : Text) (c : ℕ) (ms : List Text) → ms ≢ [] → join sep (push_front c ms) ≡ c ∷ join sep ms
unfolding join
join-push_front sep c [] h = absurd (h refl)
join-push_front sep c (m ∷ []) h = refl
join-push_front sep c (m ∷ n ∷ ms) h = refl

module _ (p : ℕ) (ps : Text) where
  abbrev sep : Text
  sep = p ∷ ps

  split_from-hit :
      (c : ℕ) (s : Text)
      → has_prefix (c ∷ s) sep ≡ true
      → split_from sep zero (c ∷ s) ≡ [] ∷ split_from sep (length ps) s
  unfolding split_from
  split_from-hit c s h = rw h (ap (λ n. [] ∷ split_from sep n s) (omega arith))

  split_from-miss :
      (c : ℕ) (s : Text)
      → has_prefix (c ∷ s) sep ≡ false
      → split_from sep zero (c ∷ s) ≡ push_front c (split_from sep zero s)
  unfolding split_from
  split_from-miss c s h = rw h

  split_from-skip :
      (skip c : ℕ) (s : Text) → split_from sep (suc skip) (c ∷ s) ≡ split_from sep skip s
  unfolding split_from
  split_from-skip skip c s = refl

  -- With `skip` bytes of a separator to come, the members joined are what follows those bytes.
  join-split_from : (skip : ℕ) (s : Text) → join sep (split_from sep skip s) ≡ drop skip s
  join-split_from zero [] = unfold join split_from in refl
  join-split_from (suc skip) [] = unfold join split_from in refl
  join-split_from (suc skip) (c ∷ s) = rw (split_from-skip skip c s) (join-split_from skip s)
  join-split_from zero (c ∷ s) = elim (Bool-cases (has_prefix (c ∷ s) sep)) [
    | inl h ↦ rw (split_from-hit c s h) (
        join-cons sep [] (split_from sep (length ps) s) (split_from-ne-nil sep (length ps) s)
        ∙ ap (λ t. sep ++ t) (join-split_from (length ps) s)
        ∙ has_prefix-drop (c ∷ s) sep h)
    | inr h ↦ rw (split_from-miss c s h) (
        join-push_front sep c (split_from sep zero s) (split_from-ne-nil sep zero s)
        ∙ ap (λ t. c ∷ t) (join-split_from zero s))
  ]

  -- The first member is a prefix of the text.
  first-prefix :
      (s : Text) {m : Text} {ms : List Text}
      → split_from sep zero s ≡ m ∷ ms
      → (rest : Text) × (m ++ rest ≡ s)
  first-prefix s {m} {ms} e = from_join m ms (ap (join sep) (sym e) ∙ join-split_from zero s)
    where
      from_join :
          (m : Text) (ms : List Text) → join sep (m ∷ ms) ≡ s → (rest : Text) × (m ++ rest ≡ s)
      from_join m [] q = ([], append-nil m ∙ unfold join in q)
      from_join m (n ∷ ms) q = (sep ++ join sep (n ∷ ms), unfold join in q)

has_prefix-extend :
    (m rest sep : Text) → has_prefix m sep ≡ true → has_prefix (m ++ rest) sep ≡ true
unfolding has_prefix
has_prefix-extend m rest [] h = refl
has_prefix-extend [] rest (p ∷ ps) h = cc
has_prefix-extend (c ∷ m) rest (p ∷ ps) h = ground (arith, has_prefix-extend m rest ps)

has_prefix-shrink :
    (m rest sep : Text) → has_prefix (m ++ rest) sep ≡ false → has_prefix m sep ≡ false
has_prefix-shrink m rest sep h = elim (Bool-cases (has_prefix m sep)) [
  | inl y ↦ absurd (true≢false' (sym (has_prefix-extend m rest sep y) ∙ h))
  | inr n ↦ n
]
  where
    true≢false' : true ≢ false
    true≢false' e = cc

module _ (p : ℕ) (ps : Text) where
  Lacks-push_front :
      (c : ℕ) (s : Text) (ms : List Text)
      → split_from (sep p ps) zero s ≡ ms
      → has_prefix (c ∷ s) (sep p ps) ≡ false
      → All (Lacks (sep p ps)) ms
      → All (Lacks (sep p ps)) (push_front c ms)
  Lacks-push_front c s [] e h a = absurd (split_from-ne-nil (sep p ps) zero s e)
  Lacks-push_front c s (m ∷ ms) e h a =
      let (rest, q) = first-prefix p ps s e in
      (
        (
          has_prefix-shrink (c ∷ m) rest (sep p ps)
              (subst (λ t. has_prefix (c ∷ t) (sep p ps) ≡ false) (sym q) h),
          a.0,
        ),
        a.1,
      )

  Lacks-nil : Lacks (sep p ps) []
  unfolding has_prefix
  Lacks-nil = refl

  split_from-nil : (skip : ℕ) → split_from (sep p ps) skip [] ≡ [] ∷ []
  unfolding split_from
  split_from-nil zero = refl
  split_from-nil (suc skip) = refl

  split_from-Lacks : (skip : ℕ) (s : Text) → All (Lacks (sep p ps)) (split_from (sep p ps) skip s)
  split_from-Lacks skip [] = rw (split_from-nil skip) (Lacks-nil, tt)
  split_from-Lacks (suc skip) (c ∷ s) = rw (split_from-skip p ps skip c s) (split_from-Lacks skip s)
  split_from-Lacks zero (c ∷ s) = elim (Bool-cases (has_prefix (c ∷ s) (sep p ps))) [
    | inl h ↦ rw (split_from-hit p ps c s h) (Lacks-nil, split_from-Lacks (length ps) s)
    | inr h ↦
        rw (split_from-miss p ps c s h)
          (Lacks-push_front c s (split_from (sep p ps) zero s) refl h (split_from-Lacks zero s))
  ]

join-split :
    (s separator : Text)
    → separator ≢ []
    → (join separator (split s separator) ≡ s) × All (Lacks separator) (split s separator)
unfolding split
join-split s [] h = absurd (h refl)
join-split s (p ∷ ps) h = (join-split_from p ps zero s, split_from-Lacks p ps zero s)

-- The members of each group, joined by " && ", are its argument, byte by byte, and " && " stands in no
-- member.
pub parse_condition_groups-join :
    (args : List Text) {groups : List ConditionGroup}
    → parse_condition_groups args ≡ ok groups
    → (parse_condition_arguments args
        ≡ ok (map (λ (g : ConditionGroup). join and_separator g.members) groups))
      × All (λ (g : ConditionGroup). All (Lacks and_separator) g.members) groups
unfolding parse_condition_groups
parse_condition_groups-join args {groups} h =
    let (values, e, q) = bind-eq-ok (parse_condition_arguments args) _ h in
    let same = ok-injective q in
    let (joined, lacks) = go values in
    (
      e
          ∙ ap (λ vs. ok vs) (sym joined)
          ∙ ap
              (λ (gs : List ConditionGroup).
                ok (map (λ (g : ConditionGroup). join and_separator g.members) gs))
              same,
      subst
          (λ (gs : List ConditionGroup).
            All (λ (g : ConditionGroup). All (Lacks and_separator) g.members) gs)
          same lacks,
    )
  where
    split_group : Text → ConditionGroup
    split_group value = record { members = split value and_separator }

    go :
        (values : List Text)
        → (map (λ (g : ConditionGroup). join and_separator g.members) (map split_group values)
            ≡ values)
          × All
              (λ (g : ConditionGroup). All (Lacks and_separator) g.members)
              (map split_group values)
    go [] = (refl, tt)
    go (value ∷ values) =
        let (e, l) = join-split value and_separator (λ n. cc) in
        let (e', l') = go values in
        (
          ap
                (λ v.
                  v
                  ∷ map (λ (g : ConditionGroup). join and_separator g.members)
                      (map split_group values))
                e
              ∙ ap (λ vs. value ∷ vs) e',
          (l, l'),
        )

-- A text has at least one member.
pub split-ne-nil : (s separator : Text) → split s separator ≢ []
unfolding split
split-ne-nil s separator = split_from-ne-nil separator zero s
