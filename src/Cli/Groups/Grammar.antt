-- ===== src/Cli/Groups/Grammar.antt =====
-- The grammar that parseConditionArguments accepts, as a relation between the arguments and the
-- values of the groups.
use outage.Base.{
  Bool, true, false, List, [], ◌∷◌, ◌++◌, ◌≡◌, ◌≢◌, ◌↔◌, inl, inr, refl, sym, ap, subst, ◌∙◌, arith,
  Bool-cases, append-nil, append_assoc, Text, codes, equal, equal_iff, has_prefix, has_prefix-drop,
  has_prefix-append, trim_prefix, trim_prefix-append,
}
use outage.Cli.Result.{ok}
use outage.Cli.Groups.{or_flag, or_flag_equals, arguments_loop, parse_condition_arguments}

-- An argument that is no option.
abbrev pub IsOperand : Text → Type 0
IsOperand arg = has_prefix arg (codes "-") ≡ false

-- What may follow the first condition; the flag is set right behind an `--or`.
pub data Alternatives : Bool → List Text → List Text → Type 0 where
  finish : Alternatives false [] []
  separate :
      {arg : Text} {args values : List Text}
      → arg ≡ or_flag
      → Alternatives true args values
      → Alternatives false (arg ∷ args) values
  operand :
      {arg : Text} {args values : List Text}
      → IsOperand arg
      → Alternatives false args values
      → Alternatives true (arg ∷ args) (arg ∷ values)
  joined :
      {arg : Text} {args values : List Text} (value : Text)
      → arg ≡ or_flag_equals ++ value
      → value ≢ []
      → Alternatives false args values
      → Alternatives false (arg ∷ args) (value ∷ values)

-- One condition, then alternatives.
pub data Accepts : List Text → List Text → Type 0 where
  first :
      {arg : Text} {args values : List Text}
      → IsOperand arg
      → Alternatives false args values
      → Accepts (arg ∷ args) (arg ∷ values)

operand-ne-or_flag : (arg : Text) → IsOperand arg → equal arg or_flag ≡ false
unfolding equal has_prefix
operand-ne-or_flag [] h = refl
operand-ne-or_flag (c ∷ s) h = ground arith

operand-not-joined : (arg : Text) → IsOperand arg → has_prefix arg or_flag_equals ≡ false
unfolding has_prefix
operand-not-joined [] h = refl
operand-not-joined (c ∷ s) h = ground arith

joined-ne-or_flag : (value : Text) → equal (or_flag_equals ++ value) or_flag ≡ false
unfolding equal
joined-ne-or_flag value = refl

joined-value : (value : Text) → trim_prefix (or_flag_equals ++ value) or_flag_equals ≡ value
joined-value value = trim_prefix-append or_flag_equals value

-- What the prefix test says of an argument.
joined-split :
    (arg : Text)
    → has_prefix arg or_flag_equals ≡ true
    → arg ≡ or_flag_equals ++ trim_prefix arg or_flag_equals
unfolding trim_prefix
joined-split arg h = rw h (sym (has_prefix-drop arg or_flag_equals h))

equal-nil : (value : Text) → value ≢ [] → equal value [] ≡ false
unfolding equal
equal-nil [] h = absurd (h refl)
equal-nil (c ∷ s) h = refl

module _ (args : List Text) (pending : Bool) (values : List Text) where
  loop-or_flag :
      (arg : Text)
      → arg ≡ or_flag
      → arguments_loop (arg ∷ args) true false values ≡ arguments_loop args true true values
  unfolding arguments_loop
  loop-or_flag arg e = ground (arith, (equal_iff arg or_flag).1 e)

  loop-joined :
      (value : Text)
      → value ≢ []
      → arguments_loop ((or_flag_equals ++ value) ∷ args) true false values
        ≡ arguments_loop args true false (values ++ value ∷ [])
  unfolding arguments_loop
  loop-joined value h =
      rw
        (
          joined-ne-or_flag value,
          has_prefix-append or_flag_equals value,
          joined-value value,
          equal-nil value h,
        )
        refl

  loop-operand :
      (arg : Text)
      → IsOperand arg
      → arguments_loop (arg ∷ args) true true values
        ≡ arguments_loop args true false (values ++ arg ∷ [])
  unfolding arguments_loop
  loop-operand arg h = rw (operand-ne-or_flag arg h, operand-not-joined arg h, h) refl

  -- An argument of no other form ends the parse.
  loop_refused :
      (arg : Text) {vs : List Text}
      → equal arg or_flag ≡ false
      → has_prefix arg or_flag_equals ≡ false
      → arguments_loop (arg ∷ args) true false values ≢ ok vs
  unfolding arguments_loop
  loop_refused arg e j h = ground arith

  -- So does anything but an operand behind an `--or`.
  loop_pending-IsOperand :
      (arg : Text) {vs : List Text}
      → arguments_loop (arg ∷ args) true true values ≡ ok vs
      → IsOperand arg
  unfolding arguments_loop
  loop_pending-IsOperand arg h = ground arith

  loop_joined_value :
      (arg : Text) {vs : List Text}
      → equal arg or_flag ≡ false
      → has_prefix arg or_flag_equals ≡ true
      → arguments_loop (arg ∷ args) true false values ≡ ok vs
      → trim_prefix arg or_flag_equals ≢ []
  unfolding arguments_loop
  loop_joined_value arg e j h n =
      ground (arith, (equal_iff (trim_prefix arg or_flag_equals) []).1 n)

-- What the loop returns behind the values that it has.
abbrev Extends : Bool → List Text → List Text → List Text → Type 0
Extends pending args values vs =
    (ws : List Text) × (vs ≡ values ++ ws) × Alternatives pending args ws

Extends-cons :
    {args args' vs : List Text} (values : List Text) (pending : Bool) (value : Text)
    → ((ws : List Text) → Alternatives false args' ws → Alternatives pending args (value ∷ ws))
    → Extends false args' (values ++ value ∷ []) vs
    → Extends pending args values vs
Extends-cons values pending value rule (ws, e, a) =
    (value ∷ ws, e ∙ append_assoc values (value ∷ []) ws, rule ws a)

loop_sound :
    (args : List Text) (pending : Bool) (values : List Text) {vs : List Text}
    → arguments_loop args true pending values ≡ ok vs
    → Extends pending args values vs
unfolding arguments_loop
loop_sound [] false values h = ([], ground (arith, append-nil values), finish)
loop_sound [] true values h = cc
loop_sound (arg ∷ args) true values h =
    let o = loop_pending-IsOperand args true values arg h in
    Extends-cons values true arg (λ ws a. operand o a)
      (loop_sound args false (values ++ arg ∷ []) (sym (loop-operand args true values arg o) ∙ h))
loop_sound (arg ∷ args) false values {vs} h = elim (Bool-cases (equal arg or_flag)) [
  | inl e ↦
      let e' = (equal_iff arg or_flag).0 e in
      let (ws, q, a) =
        loop_sound args true values (sym (loop-or_flag args true values arg e') ∙ h) in
      (ws, q, separate e' a)
  | inr e ↦ elim (Bool-cases (has_prefix arg or_flag_equals)) [
    | inr j ↦ absurd (loop_refused args true values arg e j h)
    | inl j ↦
        let v = trim_prefix arg or_flag_equals in
        let n = loop_joined_value args true values arg e j h in
        let s = joined-split arg j in
        let h' = subst (λ a. arguments_loop (a ∷ args) true false values ≡ ok vs) s h in
        Extends-cons values false v (λ ws a. joined v s n a)
          (loop_sound args false (values ++ v ∷ []) (sym (loop-joined args true values v n) ∙ h'))
  ]
]

loop_complete :
    {pending : Bool} {args ws : List Text} (values : List Text)
    → Alternatives pending args ws
    → arguments_loop args true pending values ≡ ok (values ++ ws)
loop_complete values finish = unfold arguments_loop in ap ok (sym (append-nil values))
loop_complete values (separate {arg} {args} e a) =
    loop-or_flag args true values arg e ∙ loop_complete values a
loop_complete values (operand {arg} {args} {values = ws} o a) =
    loop-operand args true values arg o
    ∙ loop_complete (values ++ arg ∷ []) a
    ∙ ap ok (append_assoc values (arg ∷ []) ws)
loop_complete values (joined {arg} {args} {values = ws} v e n a) = rw e (
    loop-joined args true values v n
    ∙ loop_complete (values ++ v ∷ []) a
    ∙ ap ok (append_assoc values (v ∷ []) ws))

parse-first :
    (arg : Text) (args : List Text)
    → IsOperand arg
    → parse_condition_arguments (arg ∷ args) ≡ arguments_loop args true false (arg ∷ [])
unfolding parse_condition_arguments arguments_loop
parse-first arg args o = rw (operand-ne-or_flag arg o, operand-not-joined arg o, o) refl

first-IsOperand :
    (arg : Text) (args : List Text) {vs : List Text}
    → parse_condition_arguments (arg ∷ args) ≡ ok vs
    → IsOperand arg
unfolding parse_condition_arguments arguments_loop
first-IsOperand arg args h = ground arith

parse-nil : {values : List Text} → parse_condition_arguments [] ≢ ok values
unfolding parse_condition_arguments
parse-nil h = cc

parse_sound :
    (args : List Text) {values : List Text}
    → parse_condition_arguments args ≡ ok values
    → Accepts args values
parse_sound [] h = absurd (parse-nil h)
parse_sound (arg ∷ args) h =
    let o = first-IsOperand arg args h in
    let (ws, e, a) = loop_sound args false (arg ∷ []) (sym (parse-first arg args o) ∙ h) in
    subst (Accepts (arg ∷ args)) (sym e) (first o a)

parse_complete :
    {args values : List Text} → Accepts args values → parse_condition_arguments args ≡ ok values
parse_complete (first {arg} {args} o a) = parse-first arg args o ∙ loop_complete (arg ∷ []) a

-- parseConditionArguments succeeds on the sentences of the grammar and on nothing else, and its
-- values are those that the grammar reads off.
pub parse_condition_arguments_iff :
    (args values : List Text) → (parse_condition_arguments args ≡ ok values) ↔ Accepts args values
parse_condition_arguments_iff args values = (parse_sound args, parse_complete)
