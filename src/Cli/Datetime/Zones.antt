-- ===== src/Cli/Datetime/Zones.antt =====
-- What package time documents of a location, and what considering its offset at an instant does.
use outage.Base.{
  ℕ, ◌*◌, ◌-◌, ◌/◌, ◌^◌, ◌<◌, Bool, true, false, ◌&&◌, ◌||◌, none, some, ◌≡◌, inl, inr, refl, sym,
  ap, ◌∙◌, arith, subst, Bool-cases,
}
use outage.Base.Int.{
  ℤ, pos, negsuc, pos_part, neg_part, ◌-ℤ◌, ◌+ℤ◌, ltb_ℤ, ◌<ℤ◌, ◌≤ℤ◌, int_laws, +ℤ_parts, -ℤ_parts,
  eq_of_parts,
}
use outage.Time.Laws.{ltb_ℤ-le, le_ltb_ℤ}
use outage.Time.{
  Time, Civil, Location, TimePackage, second, seconds, of_unix, unix, unix_to_internal,
  whole_seconds, max_int64, min_int64,
}
use outage.Cli.Datetime.Considered.{consider_offset-cases}
use outage.Cli.Datetime.{same_local_date_time, consider_offset, is_unbounded}

-- More than the seconds of ten thousand years.
abbrev pub last_year_end : ℕ
last_year_end = 316_224_000_000

module _ (time : TimePackage) (location : Location) (c : Civil) where
  abbrev pub Shows : Time → Type 0
  Shows t = same_local_date_time (location.civil t) c ≡ true

  -- The clocks show in a location the fields of UTC at the offset. An interval without an end or a start
  -- is the last or the first one, an end is after the instant, and the offset is the same within an
  -- interval. In a location with transitions the offsets are those of a TZif file. Fields that a clock
  -- shows, of the years 1 to 9999, are a whole second in UTC.
  pub record ZoneLaws : Type 0 where
    pub shown_at : (t : Time) → Shows t → t +ℤ seconds (location.offset t) ≡ time.utc.date c
    pub utc_seconds :
        (t : Time)
        → pos 1 ≤ℤ c.year
        → c.year ≤ℤ pos 9999
        → Shows t
        → (n : ℕ) × (time.utc.date c ≡ seconds (pos n)) × (n < last_year_end)
    pub last_zone :
        (t : Time)
        → location.zone_end t ≡ none
        → (u : Time) → t ≤ℤ u
        → location.offset u ≡ location.offset t
    pub first_zone :
        (t : Time)
        → location.zone_start t ≡ none
        → (u : Time) → u ≤ℤ t
        → location.offset u ≡ location.offset t
    pub zone_after : (t end : Time) → location.zone_end t ≡ some end → t <ℤ end
    pub within_zone :
        (t end : Time)
        → location.zone_end t ≡ some end
        → (u : Time) → t ≤ℤ u
        → u <ℤ end
        → location.offset u ≡ location.offset t
    pub tzif_offset :
        (t : Time)
        → is_unbounded (location.zone_start t) (location.zone_end t) ≡ false
        → (u : Time)
        → (negsuc (2 ^ 31 - 1) ≤ℤ location.offset u) × (location.offset u ≤ℤ pos (2 ^ 31 - 1))

pub seconds_parts :
    (s : ℤ)
    → (pos_part (seconds s) ≡ pos_part s * second) × (neg_part (seconds s) ≡ neg_part s * second)
unfolding seconds
seconds_parts (pos n) = (refl, refl)
seconds_parts (negsuc n) = (ground arith, ground arith)

unix-seconds : (n : ℕ) → unix (seconds (pos n)) ≡ pos n -ℤ unix_to_internal
unfolding unix seconds whole_seconds
unix-seconds n = let q : n * second / second ≡ n = omega arith in rw q refl

-- The candidate of an offset is that many seconds before the fields in UTC.
of_unix-seconds : (s : ℤ) → of_unix s ≡ seconds (s +ℤ unix_to_internal)
unfolding of_unix
of_unix-seconds s = refl

of_unix-candidate :
    (n : ℕ) (offset t : ℤ)
    → t +ℤ seconds offset ≡ seconds (pos n)
    → of_unix (unix (seconds (pos n)) -ℤ offset) ≡ t
of_unix-candidate n offset t h =
    let same : pos n -ℤ unix_to_internal -ℤ offset +ℤ unix_to_internal ≡ pos n -ℤ offset =
      omega int_laws in
    let (a, b) = seconds_parts (pos n -ℤ offset) in
    let (a', b') = seconds_parts offset in
    let (a'', b'') = seconds_parts (pos n) in
    let q = -ℤ_parts (pos n) offset in
    let w = +ℤ_parts t (seconds offset) in
    let h₀ = ap pos_part h in
    let h₁ = ap neg_part h in
    of_unix-seconds (unix (seconds (pos n)) -ℤ offset)
    ∙ ap (λ s. seconds (s -ℤ offset +ℤ unix_to_internal)) (unix-seconds n)
    ∙ ap seconds same
    ∙ eq_of_parts (seconds (pos n -ℤ offset)) t (omega arith)

abbrev IsTzif : ℤ → Type 0
IsTzif offset = (negsuc (2 ^ 31 - 1) ≤ℤ offset) × (offset ≤ℤ pos (2 ^ 31 - 1))

-- In the years 1 to 9999 no guard against overflow holds.
guards-false :
    (n : ℕ) (offset : ℤ)
    → n < last_year_end
    → IsTzif offset
    → let wall_unix = unix (seconds (pos n)) in
      (((ltb_ℤ (pos 0) offset && ltb_ℤ wall_unix (min_int64 +ℤ offset))
          || (ltb_ℤ offset (pos 0) && ltb_ℤ (max_int64 +ℤ offset) wall_unix))
        ≡ false)
      × (ltb_ℤ (max_int64 -ℤ unix_to_internal) (wall_unix -ℤ offset) ≡ false)
guards-false n offset l (from, to) =
    let e = unix-seconds n in
    let a : ltb_ℤ (pos n -ℤ unix_to_internal) (min_int64 +ℤ offset) ≡ false =
      le_ltb_ℤ (min_int64 +ℤ offset) (pos n -ℤ unix_to_internal) (omega int_laws) in
    let b : ltb_ℤ (max_int64 +ℤ offset) (pos n -ℤ unix_to_internal) ≡ false =
      le_ltb_ℤ (pos n -ℤ unix_to_internal) (max_int64 +ℤ offset) (omega int_laws) in
    let d : ltb_ℤ (max_int64 -ℤ unix_to_internal) (pos n -ℤ unix_to_internal -ℤ offset) ≡ false =
      le_ltb_ℤ (pos n -ℤ unix_to_internal -ℤ offset) (max_int64 -ℤ unix_to_internal)
        (omega int_laws) in
    (rw e (rw (a, b) (both (ltb_ℤ (pos 0) offset) (ltb_ℤ offset (pos 0)))), rw e d)
  where
    both : (x y : Bool) → ((x && false) || (y && false)) ≡ false
    both x y = ground arith

consider_offset-shown :
    (location : Location) (c : Civil) (n : ℕ) (offset best t : ℤ)
    → n < last_year_end
    → IsTzif offset
    → t +ℤ seconds offset ≡ seconds (pos n)
    → same_local_date_time (location.civil t) c ≡ true
    → consider_offset location c (seconds (pos n)) offset best ≤ℤ t
unfolding consider_offset
consider_offset-shown location c n offset best t l z h s =
    let (a, b) = guards-false n offset l z in
    let e = of_unix-candidate n offset t h in
    elim (Bool-cases (ltb_ℤ t best)) [
      | inl y ↦ rw (a, b, e, s, y) (omega arith)
      | inr y ↦ rw (a, b, e, s, y) (ltb_ℤ-le t best y)
    ]

pub consider_offset_le :
    (location : Location) (c : Civil) (wall : Time) (offset best : ℤ)
    → consider_offset location c wall offset best ≤ℤ best
consider_offset_le location c wall offset best =
    elim (consider_offset-cases location c wall offset best) [
      | inl e ↦ subst (λ x. x ≤ℤ best) (sym e) (omega arith)
      | inr (e, _, y) ↦ subst (λ x. x ≤ℤ best) (sym e) (omega arith)
    ]

around :
    (t offset : ℤ)
    → IsTzif offset
    → (t +ℤ seconds offset -ℤ seconds (pos (2 ^ 31 - 1)) ≤ℤ t)
      × (t ≤ℤ t +ℤ seconds offset +ℤ seconds (pos (2 ^ 31)))
around t offset (lo, hi) =
    let (a, a') = seconds_parts offset in
    let (d, d') = seconds_parts (pos (2 ^ 31 - 1)) in
    let (f, f') = seconds_parts (pos (2 ^ 31)) in
    let w = +ℤ_parts t (seconds offset) in
    let x = -ℤ_parts (t +ℤ seconds offset) (seconds (pos (2 ^ 31 - 1))) in
    let y = +ℤ_parts (t +ℤ seconds offset) (seconds (pos (2 ^ 31))) in (omega arith, omega arith)

module _ (time : TimePackage) (location : Location) (c : Civil) (laws : ZoneLaws time location c)
    (from : pos 1 ≤ℤ c.year) (to : c.year ≤ℤ pos 9999) (t : Time)
    (s : Shows time location c t) where
  -- The offset at an instant that shows the fields finds it.
  pub consider_offset_finds :
      (bounded : Time)
      → is_unbounded (location.zone_start bounded) (location.zone_end bounded) ≡ false
      → (best : Time) → consider_offset location c (time.utc.date c) (location.offset t) best ≤ℤ t
  consider_offset_finds bounded b best =
      let (n, e, l) = laws.utc_seconds t from to s in
      subst (λ w. consider_offset location c w (location.offset t) best ≤ℤ t) (sym e)
        (consider_offset-shown location c n (location.offset t) best t l
          (laws.tzif_offset bounded b t) (laws.shown_at t s ∙ e) s)

  -- The window of the scan has the instant.
  pub in_window :
      (bounded : Time)
      → is_unbounded (location.zone_start bounded) (location.zone_end bounded) ≡ false
      → (time.utc.date c -ℤ seconds (pos (2 ^ 31 - 1)) ≤ℤ t)
        × (t ≤ℤ time.utc.date c +ℤ seconds (pos (2 ^ 31)))
  in_window bounded b =
      subst (λ w. (w -ℤ seconds (pos (2 ^ 31 - 1)) ≤ℤ t) × (t ≤ℤ w +ℤ seconds (pos (2 ^ 31))))
        (laws.shown_at t s) (around t (location.offset t) (laws.tzif_offset bounded b t))
