-- ===== src/Cli/Conditions/Identities.antt =====
-- A condition is determined by its identity, and an identity by the id made of it.
use outage.Base.{
  true, false, Option, none, some, ◌++◌, ◌≡◌, ◌≢◌, refl, sym, ap, ◌∙◌, inl, inr, arith, Bool-cases,
  Option-cases, and_left, and_right, Text, codes, equal, equal_iff, has_prefix, trim_prefix,
}
use outage.Time.{Time, Duration}
use outage.Cli.Result.{ok, ◌>>=◌, bind-eq-ok}
use outage.Cli.Datetime.Whole.{TimeLaws, parse_datetime_event-IsWhole}
use outage.Cli.Datetime.{datetime_prefix, normalize_location, parse_datetime_event}
use outage.Cli.Conditions.Printing.{print_int-injective}
use outage.Cli.Conditions.{
  Env, Platform, Kind, Signal, ConditionSpec, Identity, kind_text, identity_equal, identity_id,
  resolve_signal, canonical_signal_name, duration_prefix, file_prefix, parse_duration_event,
  duration_spec, datetime_spec, file_spec, signal_spec, parse_condition_spec,
}

-- What parseConditionSpec returns: a form for each kind.
pub data Form (env : Env) (raw : Text) (p : ConditionSpec × Identity) : Type 0 where
  duration : (d : Duration) → p ≡ duration_spec d → Form env raw p
  date_time :
      (t : Time)
      → parse_datetime_event env.time raw env.location ≡ ok t
      → p ≡ datetime_spec env.time t
      → Form env raw p
  file : (path : Text) → p ≡ file_spec path → Form env raw p
  signal :
      (name : Text) (s : Signal)
      → resolve_signal env.platform name ≡ some s
      → p ≡ signal_spec name s
      → Form env raw p

module _ (env : Env) (raw : Text) where
  signal-Form :
      (n : Option Text) {p : ConditionSpec × Identity}
      → canonical_signal_name raw ≡ n
      → has_prefix raw duration_prefix ≡ false
      → has_prefix raw datetime_prefix ≡ false
      → has_prefix raw file_prefix ≡ false
      → parse_condition_spec env raw ≡ ok p
      → Form env raw p
  unfolding parse_condition_spec
  signal-Form none c d t f h = ground arith
  signal-Form (some name) {p} c d t f h = elim (Option-cases (resolve_signal env.platform name)) [
    | inl n ↦ ground arith
    | inr (s, r) ↦ signal name s r (ground arith)
  ]

  duration-Form :
      {p : ConditionSpec × Identity}
      → has_prefix raw duration_prefix ≡ true
      → parse_condition_spec env raw ≡ ok p
      → Form env raw p
  unfolding parse_condition_spec
  duration-Form {p} d h =
      let h' : (parse_duration_event env.time raw >>= λ x. ok (duration_spec x)) ≡ ok p =
        ground arith in
      let (x, _, e) =
        bind-eq-ok (parse_duration_event env.time raw) (λ x. ok (duration_spec x)) h' in
      duration x (cc)

  datetime-Form :
      {p : ConditionSpec × Identity}
      → has_prefix raw duration_prefix ≡ false
      → has_prefix raw datetime_prefix ≡ true
      → parse_condition_spec env raw ≡ ok p
      → Form env raw p
  unfolding parse_condition_spec
  datetime-Form {p} d t h =
      let m = parse_datetime_event env.time raw env.location in
      let h' : (m >>= λ x. ok (datetime_spec env.time x)) ≡ ok p = ground arith in
      let (x, q, e) = bind-eq-ok m (λ x. ok (datetime_spec env.time x)) h' in date_time x q (cc)

  file-Form :
      {p : ConditionSpec × Identity}
      → has_prefix raw duration_prefix ≡ false
      → has_prefix raw datetime_prefix ≡ false
      → has_prefix raw file_prefix ≡ true
      → parse_condition_spec env raw ≡ ok p
      → Form env raw p
  unfolding parse_condition_spec
  file-Form d t f h = file (trim_prefix raw file_prefix) (ground arith)

  pub parse_condition_spec-Form :
      {p : ConditionSpec × Identity} → parse_condition_spec env raw ≡ ok p → Form env raw p
  parse_condition_spec-Form h = elim (Bool-cases (has_prefix raw duration_prefix)) [
    | inl d ↦ duration-Form d h
    | inr d ↦ elim (Bool-cases (has_prefix raw datetime_prefix)) [
      | inl t ↦ datetime-Form d t h
      | inr t ↦ elim (Bool-cases (has_prefix raw file_prefix)) [
        | inl f ↦ file-Form d t f h
        | inr f ↦ signal-Form (canonical_signal_name raw) refl d t f h
      ]
    ]
  ]

abbrev pub WholeLaws : Env → Type 0
WholeLaws env = TimeLaws env.time (normalize_location env.time env.location)

identity_equal-parts :
    (i j : Identity)
    → identity_equal i j ≡ true
    → (equal (kind_text i.kind) (kind_text j.kind) ≡ true) × (i.value ≡ j.value)
unfolding identity_equal
identity_equal-parts i j h = (
  and_left _ _ h,
  (equal_iff i.value j.value).0 (and_right (equal (kind_text i.kind) (kind_text j.kind)) _ h),
)

resolve_signal-injective :
    (platform : Platform) (name : Text) {s t : Signal}
    → resolve_signal platform name ≡ some s
    → resolve_signal platform name ≡ some t
    → s ≡ t
resolve_signal-injective platform name a b = cc

abbrev form_kind : {env : Env} {raw : Text} {p : ConditionSpec × Identity} → Form env raw p → Kind
form_kind (duration d e) = Kind.duration
form_kind (date_time t x e) = Kind.date_time
form_kind (file path e) = Kind.file
form_kind (signal name s r e) = Kind.signal

Form-kind :
    {env : Env} {raw : Text} {p : ConditionSpec × Identity} (f : Form env raw p)
    → p.1.kind ≡ form_kind f
Form-kind (duration d e) = rw e
Form-kind (date_time t x e) = rw e
Form-kind (file path e) = rw e
Form-kind (signal name s r e) = rw e

-- Conditions with equal identities are equal.
Form-determined :
    {env : Env} {raw raw' : Text} {p q : ConditionSpec × Identity}
    → WholeLaws env
    → Form env raw p
    → Form env raw' q
    → identity_equal p.1 q.1 ≡ true
    → p ≡ q
unfolding kind_text equal
Form-determined laws (duration d e) (duration d' e') h =
    let v = (identity_equal-parts _ _ (rw (e, e') at h)).1 in
    e ∙ ap duration_spec (print_int-injective v) ∙ sym e'
Form-determined {env} laws (date_time t x e) (date_time u y e') h =
    let v = (identity_equal-parts _ _ (rw (e, e') at h)).1 in
    let w = parse_datetime_event-IsWhole env.time _ env.location laws x in
    let w' = parse_datetime_event-IsWhole env.time _ env.location laws y in
    e ∙ ap (datetime_spec env.time) (laws.format_injective t u w w' v) ∙ sym e'
Form-determined laws (file p e) (file q e') h =
    let v = (identity_equal-parts _ _ (rw (e, e') at h)).1 in e ∙ ap file_spec v ∙ sym e'
Form-determined {env} laws (signal n s r e) (signal n' s' r' e') h =
    let v = (identity_equal-parts _ _ (rw (e, e') at h)).1 in
    let k : s ≡ s' = resolve_signal-injective env.platform n' (rw v at r) r' in cc
Form-determined {p = p} {q = q} laws f g h =
    let k = (identity_equal-parts p.1 q.1 h).0 in let k' = rw (Form-kind f, Form-kind g) at k in cc

Form-id :
    {env : Env} {raw : Text} {p : ConditionSpec × Identity} (f : Form env raw p)
    → p.0.id ≡ kind_text (form_kind f) ++ (codes ":" ++ p.1.value)
unfolding identity_id
Form-id (duration d e) = rw e
Form-id (date_time t x e) = rw e
Form-id (file path e) = rw e
Form-id (signal name s r e) = rw e

-- The kinds and the values of two forms whose ids are spelled alike.
kinds-values :
    (k l : Kind) (v w : Text)
    → ((c : Text) → (k ≡ Kind.other c) → ⊥)
    → ((c : Text) → (l ≡ Kind.other c) → ⊥)
    → kind_text k ++ (codes ":" ++ v) ≡ kind_text l ++ (codes ":" ++ w)
    → (k ≡ l) × (v ≡ w)
unfolding kind_text
kinds-values (Kind.other c) l v w a b h = absurd (a c refl)
kinds-values k (Kind.other c) v w a b h = absurd (b c refl)
kinds-values k l v w a b h = ground arith

form_kind-known :
    {env : Env} {raw : Text} {p : ConditionSpec × Identity} (f : Form env raw p) (c : Text)
    → form_kind f ≢ Kind.other c
form_kind-known (duration d e) c h = cc
form_kind-known (date_time t x e) c h = cc
form_kind-known (file path e) c h = cc
form_kind-known (signal name s r e) c h = cc

Form-id-value :
    {env : Env} {raw raw' : Text} {p q : ConditionSpec × Identity}
    → Form env raw p
    → Form env raw' q
    → p.0.id ≡ q.0.id
    → (p.1.kind ≡ q.1.kind) × (p.1.value ≡ q.1.value)
Form-id-value {p = p} {q = q} f g h =
    let (k, v) =
      kinds-values (form_kind f) (form_kind g) p.1.value q.1.value (form_kind-known f)
        (form_kind-known g) (sym (Form-id f) ∙ h ∙ Form-id g) in
    (Form-kind f ∙ k ∙ sym (Form-kind g), v)

pub identity_equal_refl : (i j : Identity) → i ≡ j → identity_equal i j ≡ true
unfolding identity_equal
identity_equal_refl i j e = rw (
  e,
  (equal_iff (kind_text j.kind) (kind_text j.kind)).1 refl,
  (equal_iff j.value j.value).1 refl,
)

module _ (env : Env) (laws : WholeLaws env) (raw raw' : Text) {p q : ConditionSpec × Identity}
    (parsed : parse_condition_spec env raw ≡ ok p)
    (parsed' : parse_condition_spec env raw' ≡ ok q) where
  -- Two members with equal identities have the same condition.
  pub parsed-determined : identity_equal p.1 q.1 ≡ true → p ≡ q
  parsed-determined =
      Form-determined laws (parse_condition_spec-Form env raw parsed)
        (parse_condition_spec-Form env raw' parsed')

  -- So have two members whose conditions have equal ids.
  pub parsed-determined_by_id : p.0.id ≡ q.0.id → p ≡ q
  parsed-determined_by_id h =
      let (k, v) =
        Form-id-value (parse_condition_spec-Form env raw parsed)
          (parse_condition_spec-Form env raw' parsed') h in
      parsed-determined (identity_equal_refl p.1 q.1 (λ i. record { kind = k i; value = v i }))

Form-spec-kind :
    {env : Env} {raw : Text} {p : ConditionSpec × Identity} (f : Form env raw p)
    → p.0.kind ≡ form_kind f
Form-spec-kind (duration d e) = rw e
Form-spec-kind (date_time t x e) = rw e
Form-spec-kind (file path e) = rw e
Form-spec-kind (signal name s r e) = rw e

-- A parsed condition is of one of the four kinds.
pub parsed_known :
    (env : Env) (raw : Text) {p : ConditionSpec × Identity}
    → parse_condition_spec env raw ≡ ok p
    → (c : Text) → p.0.kind ≢ Kind.other c
parsed_known env raw parsed c e =
    let f = parse_condition_spec-Form env raw parsed in
    form_kind-known f c (sym (Form-spec-kind f) ∙ e)
