-- ===== src/Cmd/Description/Standalone.antt =====
-- An option that --describe lists as standalone is refused with any other argument.
use outage.Base.{
  true, false, none, List, [], ◌∷◌, length, ◌==◌, ==_iff, In, here, there, Text, codes, equal_iff,
  ◌≡◌, ◌≢◌, inl, inr, refl, sym, subst, ap, arith, Bool-cases,
}
use outage.Cli.Result.{Result, ok, err}
use outage.Cli.Conditions.{Env}
use outage.Cli.Options.{help_requested, describe_requested, version_requested}
use outage.Cli.Plans.{Plan, parse}
use outage.Cmd.Run.{
  Run, System, Diagnostic, ended, nothing, rejected, describe_combined, exit_arg_error,
  run_conditions, run_with_clock,
}
use outage.Cmd.Description.Types.{CliOptionDescription}
use outage.Cmd.Description.Options.{options}
use outage.Cmd.Description.Versions.{version_flag, parsed-no_version}

describe_requested-In :
    (args : List Text) → In (codes "--describe") args → describe_requested args ≡ true
unfolding describe_requested
describe_requested-In [] p = elim p [ ]
describe_requested-In (arg ∷ args) (here e) =
    let same = (equal_iff arg (codes "--describe")).1 (sym e) in rw same refl
describe_requested-In (arg ∷ args) (there p) =
    let rest = describe_requested-In args p in ground arith

version_requested-ne : (args : List Text) → length args ≢ 1 → version_requested args ≡ false
unfolding version_requested
version_requested-ne [] n = refl
version_requested-ne (arg ∷ []) n = absurd (n refl)
version_requested-ne (arg ∷ next ∷ args) n = refl

-- A run that is refused at once, for its arguments.
abbrev pub IsRefused : Run → Type 0
IsRefused run = (d : Diagnostic) × (run ≡ ended exit_arg_error nothing (d ∷ []) none)

run_conditions-IsRefused :
    (env : Env) (system : System) (args : List Text)
    → In version_flag args
    → IsRefused (run_conditions env system args)
unfolding run_conditions
run_conditions-IsRefused env system args p = go (parse env args) refl
  where
    go : (r : Result Plan) → parse env args ≡ r → IsRefused (run_conditions env system args)
    go (err e) h = (rejected e, rw (h, run_conditions) refl)
    go (ok plan) h = absurd (parsed-no_version env args h p)

module _ (env : Env) (system : System) (args : List Text) (several : length args ≢ 1)
    (no_help : help_requested args ≡ false) where
  not_one : (length args == 1) ≡ false
  not_one = elim (Bool-cases (length args == 1)) [
    | inl e ↦ absurd (several ((==_iff (length args) 1).0 e))
    | inr n ↦ n
  ]

  describe-IsRefused : describe_requested args ≡ true → IsRefused (run_with_clock env system args)
  unfolding run_with_clock
  describe-IsRefused d = (describe_combined, rw (no_help, d, not_one, run_with_clock) refl)

  version-IsRefused : In version_flag args → IsRefused (run_with_clock env system args)
  unfolding run_with_clock
  version-IsRefused p = elim (Bool-cases (describe_requested args)) [
    | inl d ↦ describe-IsRefused d
    | inr d ↦
        let (e, q) = run_conditions-IsRefused env system args p in
        (e, rw (no_help, d, version_requested-ne args several, run_with_clock) q)
  ]

not_standalone :
    {o listed : CliOptionDescription}
    → listed.standalone ≡ false
    → o ≡ listed
    → o.standalone ≡ true
    → ⊥
not_standalone f e s = let g = ap (λ x. x.standalone) e in cc

-- An option that --describe lists as standalone, together with any other argument, ends the run
-- with exit code 2, one diagnostic and nothing on stdout, unless help is requested.
pub run_with_clock-standalone :
    (env : Env) (system : System) (args : List Text) (o : CliOptionDescription)
    → In o options
    → o.standalone ≡ true
    → In o.name args
    → length args ≢ 1
    → help_requested args ≡ false
    → IsRefused (run_with_clock env system args)
run_with_clock-standalone env system args o (here e) s p several no_help =
    describe-IsRefused env system args several no_help
      (describe_requested-In args (subst (λ x. In x.name args) e p))
run_with_clock-standalone env system args o (there (there (here e))) s p several no_help =
    version-IsRefused env system args several no_help (subst (λ x. In x.name args) e p)
run_with_clock-standalone env system args o (there (here e)) s p several no_help =
    absurd (not_standalone refl e s)
run_with_clock-standalone env system args o (there (there (there (here e)))) s p several no_help =
    absurd (not_standalone refl e s)
run_with_clock-standalone env system args o (there (there (there (there (here e))))) s p several
      no_help =
    absurd (not_standalone refl e s)
run_with_clock-standalone env system args o (there (there (there (there (there q))))) s p several
      no_help =
    elim q [ ]
