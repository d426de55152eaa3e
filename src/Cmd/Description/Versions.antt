-- ===== src/Cmd/Description/Versions.antt =====
-- No arguments that Parse accepts have --version among them.
use outage.Base.{
  Bool, true, false, List, [], ◌∷◌, ◌++◌, In, here, there, In-append_left, In-append_right, Text,
  codes, equal, equal_iff, has_prefix, trim_prefix, ◌≡◌, ◌≢◌, ◌⊎◌, inl, inr, refl, sym, subst, ap,
  ◌∙◌, arith, Bool-cases,
}
use outage.Cli.Result.{ok, bind-eq-ok, ok-injective, ◌>>=◌}
use outage.Cli.Conditions.{Env}
use outage.Cli.Options.{
  Options, events_flag, events_flag_equals, read_separate, read_joined, parse_events_fd,
  with_events_fd, options_loop, parse_events_fd_options,
}
use outage.Cli.Options.Laws.{loop-skip, loop-separate, loop-joined, loop-other}
use outage.Cli.Groups.{
  ConditionGroup, parse_condition_arguments, parse_condition_groups, or_flag, or_flag_equals,
}
use outage.Cli.Groups.Grammar.{
  Alternatives, separate, operand, joined, finish, Accepts, first, IsOperand,
  parse_condition_arguments_iff,
}
use outage.Cli.Plans.{Plan, parse, parse_with_signal_support}

abbrev pub version_flag : Text
version_flag = codes "--version"

-- `--version` is no operand, no `--or` and no `--events-fd`, in either spelling.
version-not_operand : IsOperand version_flag → ⊥
unfolding has_prefix
version-not_operand h = cc

version-not_equal : {arg : Text} → equal version_flag arg ≡ false → version_flag ≢ arg
version-not_equal {arg} h e = let t = (equal_iff version_flag arg).1 e in cc

version-ne-or_flag : version_flag ≢ or_flag
unfolding equal
version-ne-or_flag = version-not_equal refl

version-not_joined : (value : Text) → version_flag ≢ or_flag_equals ++ value
unfolding equal
version-not_joined value = version-not_equal refl

version-ne-events_flag : version_flag ≢ events_flag
unfolding equal
version-ne-events_flag = version-not_equal refl

version-not_prefixed : has_prefix version_flag events_flag_equals ≡ false
unfolding has_prefix
version-not_prefixed = refl

-- No argument that the grammar accepts is `--version`.
version-not_alternative :
    {pending : Bool} {args values : List Text}
    → Alternatives pending args values
    → ¬ (In version_flag args)
version-not_alternative finish p = elim p [ ]
version-not_alternative (separate e a) (here q) = version-ne-or_flag (q ∙ e)
version-not_alternative (separate e a) (there p) = version-not_alternative a p
version-not_alternative (operand o a) (here q) =
    version-not_operand (subst (λ x. IsOperand x) (sym q) o)
version-not_alternative (operand o a) (there p) = version-not_alternative a p
version-not_alternative (joined value e n a) (here q) = version-not_joined value (q ∙ e)
version-not_alternative (joined value e n a) (there p) = version-not_alternative a p

version-not_accepted : {args values : List Text} → Accepts args values → ¬ (In version_flag args)
version-not_accepted (first o a) (here q) = version-not_operand (subst (λ x. IsOperand x) (sym q) o)
version-not_accepted (first o a) (there p) = version-not_alternative a p

-- `--version` cannot be the value of --events-fd.
read_separate-version :
    (rest : List Text) (o : Options) {o' : Options} → read_separate (version_flag ∷ rest) o ≢ ok o'
unfolding read_separate has_prefix
read_separate-version rest o h = ground arith

-- Reading the descriptor leaves the condition arguments.
with_parsed-keeps :
    (value : Text) (o : Options) {o' : Options}
    → (parse_events_fd value >>= λ fd. ok (with_events_fd o fd)) ≡ ok o'
    → o.condition_args ≡ o'.condition_args
with_parsed-keeps value o {o'} h =
    let (fd, p, q) = bind-eq-ok (parse_events_fd value) (λ fd. ok (with_events_fd o fd)) h in
    let e : with_events_fd o fd ≡ o' = ok-injective q in ap (λ r. r.condition_args) e

read_separate-keeps :
    (rest : List Text) (o : Options) {o' : Options}
    → read_separate rest o ≡ ok o'
    → o.condition_args ≡ o'.condition_args
unfolding read_separate
read_separate-keeps [] o h = ground arith
read_separate-keeps (value ∷ rest) o {o'} h = ground (arith, with_parsed-keeps value o {o' = o'})

read_joined-keeps :
    (arg : Text) (o : Options) {o' : Options}
    → read_joined arg o ≡ ok o'
    → o.condition_args ≡ o'.condition_args
unfolding read_joined
read_joined-keeps arg o {o'} h =
    ground (arith, with_parsed-keeps (trim_prefix arg events_flag_equals) o {o' = o'})

abbrev Holds : List Text → List Text → Type 0
Holds kept args = In version_flag kept ⊎ In version_flag args

Holds-passed :
    {kept kept' args : List Text} {arg : Text}
    → version_flag ≢ arg
    → kept ≡ kept'
    → Holds kept (arg ∷ args)
    → Holds kept' args
Holds-passed n e (inl p) = inl (subst (In version_flag) e p)
Holds-passed n e (inr (here q)) = absurd (n q)
Holds-passed n e (inr (there p)) = inr p

Holds-added :
    {args : List Text} (kept : List Text) (arg : Text)
    → Holds kept (arg ∷ args)
    → Holds (kept ++ arg ∷ []) args
Holds-added kept arg (inl q) = inl (In-append_left (arg ∷ []) q)
Holds-added kept arg (inr (here q)) = inl (In-append_right kept (here q))
Holds-added kept arg (inr (there q)) = inr q

-- The arguments that the loop still reads.
abbrev remaining : Bool → List Text → List Text
remaining false args = args
remaining true [] = []
remaining true (value ∷ args) = args

read_separate-Holds :
    (rest : List Text) (o : Options) {o' : Options}
    → read_separate rest o ≡ ok o'
    → Holds o.condition_args rest
    → Holds o'.condition_args (remaining true rest)
read_separate-Holds [] o h (inl p) = inl (subst (In version_flag) (read_separate-keeps [] o h) p)
read_separate-Holds [] o h (inr p) = elim p [ ]
read_separate-Holds (value ∷ rest) o {o'} h p =
    Holds-passed
      (λ e.
        read_separate-version rest o (subst (λ v. read_separate (v ∷ rest) o ≡ ok o') (sym e) h))
      (read_separate-keeps (value ∷ rest) o h) p

prefixed-ne-version : {arg : Text} → has_prefix arg events_flag_equals ≡ true → version_flag ≢ arg
prefixed-ne-version j e =
    let f = subst (λ a. has_prefix a events_flag_equals ≡ false) e version-not_prefixed in cc

options_loop-nil : (skip : Bool) (o : Options) → options_loop skip [] o ≡ ok o
unfolding options_loop
options_loop-nil skip o = refl

-- The options leave `--version` among the condition arguments.
options_loop-keeps :
    (skip : Bool) (args : List Text) (o : Options) {o' : Options}
    → options_loop skip args o ≡ ok o'
    → Holds o.condition_args (remaining skip args)
    → In version_flag o'.condition_args
options_loop-keeps true [] o h (inr p) = elim p [ ]
options_loop-keeps false [] o h (inr p) = elim p [ ]
options_loop-keeps skip [] o h (inl p) =
    subst (λ r. In version_flag r.condition_args) (ok-injective (sym (options_loop-nil skip o) ∙ h))
      p
options_loop-keeps true (value ∷ rest) o h p =
    options_loop-keeps false rest o (sym (loop-skip value rest o) ∙ h) p
options_loop-keeps false (arg ∷ args) o h p = elim (Bool-cases (equal arg events_flag)) [
  | inl e ↦
      let (o₁, q, r) =
        bind-eq-ok (read_separate args o) (λ x. options_loop true args x)
          (sym (loop-separate arg args o e) ∙ h) in
      let n : version_flag ≢ arg =
        λ x. version-ne-events_flag (x ∙ (equal_iff arg events_flag).0 e) in
      options_loop-keeps true args o₁ r (read_separate-Holds args o q (Holds-passed n refl p))
  | inr e ↦ elim (Bool-cases (has_prefix arg events_flag_equals)) [
    | inl j ↦
        let (o₁, q, r) =
          bind-eq-ok (read_joined arg o) (λ x. options_loop false args x)
            (sym (loop-joined arg args o e j) ∙ h) in
        options_loop-keeps false args o₁ r
          (Holds-passed (prefixed-ne-version j) (read_joined-keeps arg o q) p)
    | inr j ↦
        options_loop-keeps false args (record o { condition_args = o.condition_args ++ arg ∷ [] })
          (sym (loop-other arg args o (e, j)) ∙ h) (Holds-added o.condition_args arg p)
  ]
]

groups-no_version :
    (args : List Text) {groups : List ConditionGroup}
    → parse_condition_groups args ≡ ok groups
    → ¬ (In version_flag args)
unfolding parse_condition_groups
groups-no_version args h p =
    let (values, q, r) = bind-eq-ok (parse_condition_arguments args) _ h in
    version-not_accepted ((parse_condition_arguments_iff args values).0 q) p

pub parsed-no_version :
    (env : Env) (args : List Text) {plan : Plan}
    → parse env args ≡ ok plan
    → ¬ (In version_flag args)
unfolding parse parse_with_signal_support parse_events_fd_options
parsed-no_version env args h p =
    let (o, a, h₁) = bind-eq-ok (parse_events_fd_options args) _ h in
    let (groups, b, h₂) = bind-eq-ok (parse_condition_groups o.condition_args) _ h₁ in
    groups-no_version o.condition_args b (options_loop-keeps false args _ a (inr p))
