-- ===== src/Cli/Result.antt =====
-- The errors of internal/cli as values. A message's text is not modelled: a constructor stands for
-- its format string, with the arguments that are formatted.
use outage.Base.{Text, ◌≡◌, refl}

-- The errors of parseAbsoluteDeadline.
pub data DatetimeError : Type 0 where
  offset_syntax offset_range rfc3339_syntax year_range layout layout_seconds : DatetimeError
  non_numeric not_local : DatetimeError

pub data Error : Type 0 where
  events_fd_repeated events_fd_missing_value events_fd_invalid events_fd_too_small : Error
  missing_condition or_without_preceding or_without_condition : Error
  unexpected_argument : Text → Error
  unsupported_event : Text → Error
  unsupported_on_platform : Text → Error
  invalid_file_event : Text → Error
  negative_duration : Text → Error
  invalid_duration : Text → Error
  missing_datetime_prefix : Text → Error
  invalid_datetime : Text → DatetimeError → Error

pub data Result {ℓ} (A : Type ℓ) : Type ℓ where
  ok : A → Result A
  err : Error → Result A

module _ {ℓ κ} {A : Type ℓ} {B : Type κ} where
  infixl 5 ◌>>=◌
  abbrev pub ◌>>=◌ : Result A → (A → Result B) → Result B
  err why >>= continue = err why
  ok value >>= continue = continue value

  -- A successful chain has a successful first step.
  pub bind-eq-ok :
      (step : Result A) (continue : A → Result B) {result : B}
      → step >>= continue ≡ ok result
      → (value : A) × (step ≡ ok value) × (continue value ≡ ok result)
  bind-eq-ok (err why) continue chain = cc
  bind-eq-ok (ok value) continue chain = (value, refl, chain)

pub ok-injective {ℓ} : {A : Type ℓ} {a b : A} → ok a ≡ ok b → a ≡ b
ok-injective h = cc
