-- ===== src/Cli/Options/Laws.antt =====
-- What `--events-fd` does to the other arguments.
use outage.Base.{
  Bool, true, false, List, [], ◌∷◌, ◌++◌, ◌≡◌, inl, inr, refl, sym, ap, ◌∙◌, arith, Bool-cases,
  append-nil, subst, append_assoc, All, Text, codes, equal, has_prefix, has_prefix-append,
  trim_prefix, trim_prefix-append,
}
use outage.Base.Int.{ℤ, pos, ◌≤ℤ◌}
use outage.Cli.Result.{ok, err, ◌>>=◌, bind-eq-ok, ok-injective, events_fd_repeated}
use outage.Cli.Options.{
  Options, events_flag, events_flag_equals, with_events_fd, parse_events_fd, read_separate,
  read_joined, options_loop, parse_events_fd_options,
}

-- An argument that is not the option, in either spelling.
abbrev pub IsOther : Text → Type 0
IsOther arg = (equal arg events_flag ≡ false) × (has_prefix arg events_flag_equals ≡ false)

-- The option with a value, in either spelling: `--events-fd VALUE` or `--events-fd=VALUE`.
pub data Spells (value : Text) : List Text → Type 0 where
  separate :
      {arg : Text}
      → arg ≡ events_flag
      → has_prefix value (codes "--") ≡ false
      → Spells value (arg ∷ value ∷ [])
  joined : {arg : Text} → arg ≡ events_flag_equals ++ value → Spells value (arg ∷ [])

parse_events_fd-min : (value : Text) {fd : ℤ} → parse_events_fd value ≡ ok fd → pos 3 ≤ℤ fd
unfolding parse_events_fd
parse_events_fd-min value h = ground arith

loop-nil : (o : Options) → options_loop false [] o ≡ ok o
unfolding options_loop
loop-nil o = refl

pub loop-other :
    (arg : Text) (rest : List Text) (o : Options)
    → IsOther arg
    → options_loop false (arg ∷ rest) o
      ≡ options_loop false rest (record o { condition_args = o.condition_args ++ arg ∷ [] })
unfolding options_loop
loop-other arg rest o (e, j) = rw (e, j) refl

loop-others :
    (args rest : List Text) (o : Options)
    → All IsOther args
    → options_loop false (args ++ rest) o
      ≡ options_loop false rest (record o { condition_args = o.condition_args ++ args })
loop-others [] rest o h =
    ap (λ c. options_loop false rest (record o { condition_args = c }))
      (sym (append-nil o.condition_args))
loop-others (arg ∷ args) rest o h =
    loop-other arg (args ++ rest) o h.0
    ∙ loop-others args rest (record o { condition_args = o.condition_args ++ arg ∷ [] }) h.1
    ∙ ap (λ c. options_loop false rest (record o { condition_args = c }))
        (append_assoc o.condition_args (arg ∷ []) args)

joined-ne-flag : (value : Text) → equal (events_flag_equals ++ value) events_flag ≡ false
unfolding equal
joined-ne-flag value = refl

flag-equal : equal events_flag events_flag ≡ true
unfolding equal
flag-equal = refl

-- Where the option is not set yet, it sets the descriptor, and adds no argument.
loop-Spells :
    {value : Text} {args : List Text} (rest : List Text) (o : Options) (fd : ℤ)
    → Spells value args
    → o.events_fd_set ≡ false
    → parse_events_fd value ≡ ok fd
    → options_loop false (args ++ rest) o ≡ options_loop false rest (with_events_fd o fd)
unfolding options_loop read_separate read_joined
loop-Spells {value} rest o fd (separate e p) u h = rw (e, flag-equal, u, p, h) refl
loop-Spells {value} rest o fd (joined e) u h =
    rw
      (
        e,
        joined-ne-flag value,
        has_prefix-append events_flag_equals value,
        u,
        trim_prefix-append events_flag_equals value,
        h,
      )
      refl

-- Where it is set, a second one ends the parse.
loop-Spells-repeated :
    {value : Text} {args : List Text} (rest : List Text) (o : Options)
    → Spells value args
    → o.events_fd_set ≡ true
    → options_loop false (args ++ rest) o ≡ err events_fd_repeated
unfolding options_loop read_separate read_joined
loop-Spells-repeated rest o (separate e p) u = rw (e, flag-equal, u) refl
loop-Spells-repeated {value} rest o (joined e) u =
    rw (e, joined-ne-flag value, has_prefix-append events_flag_equals value, u) refl

abbrev start : Options
start = record { condition_args = []; events_fd = pos 0; events_fd_set = false }

-- `--events-fd VALUE` or `--events-fd=VALUE`, wherever it stands among other arguments, sets the
-- descriptor that VALUE reads as, and the condition arguments are the others in their order.
pub parse_events_fd_options-Spells :
    (before after : List Text) {value : Text} {option : List Text} {fd : ℤ}
    → All IsOther before
    → All IsOther after
    → Spells value option
    → parse_events_fd value ≡ ok fd
    → parse_events_fd_options (before ++ (option ++ after))
      ≡ ok (record { condition_args = before ++ after; events_fd = fd; events_fd_set = true })
unfolding parse_events_fd_options
parse_events_fd_options-Spells before after {value} {option} {fd} hb ha s h =
    let o = record start { condition_args = before } in
    let o' = with_events_fd o fd in
    loop-others before (option ++ after) start hb
    ∙ loop-Spells after o fd s refl h
    ∙ ap (λ l. options_loop false l o') (sym (append-nil after))
    ∙ loop-others after [] o' ha
    ∙ loop-nil (record o' { condition_args = before ++ after })

-- A second option, in either spelling and with any value, is an error once the first has been read.
pub parse_events_fd_options-repeated :
    (before middle after : List Text) {value value' : Text} {option option' : List Text} {fd : ℤ}
    → All IsOther before
    → All IsOther middle
    → Spells value option
    → Spells value' option'
    → parse_events_fd value ≡ ok fd
    → parse_events_fd_options (before ++ (option ++ (middle ++ (option' ++ after))))
      ≡ err events_fd_repeated
unfolding parse_events_fd_options
parse_events_fd_options-repeated before middle after {fd = fd} hb hm s s' h =
    let o = record start { condition_args = before } in
    loop-others before _ start hb
    ∙ loop-Spells _ o fd s refl h
    ∙ loop-others middle _ (with_events_fd o fd) hm
    ∙ loop-Spells-repeated after _ s' refl

-- The descriptor is at least 3 if it is set, and 0 if it is not.
pub record IsValid (o : Options) : Type 0 where
  pub min_if_set : o.events_fd_set ≡ true → pos 3 ≤ℤ o.events_fd
  pub zero_if_unset : o.events_fd_set ≡ false → o.events_fd ≡ pos 0

with_parsed-IsValid :
    (value : Text) (o : Options) {o' : Options}
    → (parse_events_fd value >>= λ fd. ok (with_events_fd o fd)) ≡ ok o'
    → IsValid o'
with_parsed-IsValid value o {o'} h =
    let (fd, p, q) = bind-eq-ok (parse_events_fd value) (λ fd. ok (with_events_fd o fd)) h in
    let e : with_events_fd o fd ≡ o' = ok-injective q in
    subst IsValid e
      (record { min_if_set = λ _. parse_events_fd-min value p; zero_if_unset = λ x. cc })

read_separate-IsValid :
    (rest : List Text) (o : Options) {o' : Options} → read_separate rest o ≡ ok o' → IsValid o'
unfolding read_separate
read_separate-IsValid [] o h = ground arith
read_separate-IsValid (value ∷ rest) o {o'} h =
    ground (arith, with_parsed-IsValid value o {o' = o'})

read_joined-IsValid :
    (arg : Text) (o : Options) {o' : Options} → read_joined arg o ≡ ok o' → IsValid o'
unfolding read_joined
read_joined-IsValid arg o {o'} h =
    ground (arith, with_parsed-IsValid (trim_prefix arg events_flag_equals) o {o' = o'})

pub loop-skip :
    (arg : Text) (rest : List Text) (o : Options)
    → options_loop true (arg ∷ rest) o ≡ options_loop false rest o
unfolding options_loop
loop-skip arg rest o = refl

pub loop-separate :
    (arg : Text) (rest : List Text) (o : Options)
    → equal arg events_flag ≡ true
    → options_loop false (arg ∷ rest) o ≡ (read_separate rest o >>= λ o'. options_loop true rest o')
unfolding options_loop
loop-separate arg rest o e = rw e

pub loop-joined :
    (arg : Text) (rest : List Text) (o : Options)
    → equal arg events_flag ≡ false
    → has_prefix arg events_flag_equals ≡ true
    → options_loop false (arg ∷ rest) o ≡ (read_joined arg o >>= λ o'. options_loop false rest o')
unfolding options_loop
loop-joined arg rest o e j = rw (e, j) refl

options_loop-IsValid :
    (skip : Bool) (args : List Text) (o : Options) {o' : Options}
    → IsValid o
    → options_loop skip args o ≡ ok o'
    → IsValid o'
options_loop-IsValid skip [] o v h = unfold options_loop in subst IsValid (ok-injective h) v
options_loop-IsValid true (arg ∷ rest) o v h =
    options_loop-IsValid false rest o v (sym (loop-skip arg rest o) ∙ h)
options_loop-IsValid false (arg ∷ rest) o v h = elim (Bool-cases (equal arg events_flag)) [
  | inl e ↦
      let (p, q, r) =
        bind-eq-ok (read_separate rest o) (λ x. options_loop true rest x)
          (sym (loop-separate arg rest o e) ∙ h) in
      options_loop-IsValid true rest p (read_separate-IsValid rest o q) r
  | inr e ↦ elim (Bool-cases (has_prefix arg events_flag_equals)) [
    | inl j ↦
        let (p, q, r) =
          bind-eq-ok (read_joined arg o) (λ x. options_loop false rest x)
            (sym (loop-joined arg rest o e j) ∙ h) in
        options_loop-IsValid false rest p (read_joined-IsValid arg o q) r
    | inr j ↦
        let o₁ = record o { condition_args = o.condition_args ++ arg ∷ [] } in
        let v₁ : IsValid o₁ = record {
          min_if_set = v.min_if_set;
          zero_if_unset = v.zero_if_unset;
        } in
        options_loop-IsValid false rest o₁ v₁ (sym (loop-other arg rest o (e, j)) ∙ h)
  ]
]

-- Whatever the arguments, the descriptor that the parse returns is at least 3 if it is set, and 0 if
-- it is not.
pub parse_events_fd_options-IsValid :
    (args : List Text) {o : Options} → parse_events_fd_options args ≡ ok o → IsValid o
unfolding parse_events_fd_options
parse_events_fd_options-IsValid args h =
    options_loop-IsValid false args start
      (record { min_if_set = λ x. cc; zero_if_unset = λ _. refl }) h
