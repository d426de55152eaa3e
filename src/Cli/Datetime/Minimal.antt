-- ===== src/Cli/Datetime/Minimal.antt =====
-- A local deadline is the earliest occurrence of the fields that are written.
use outage.Base.{
  ℕ, zero, suc, ◌-◌, ◌^◌, Bool, true, false, not, ◌||◌, Option, none, some, ◌≡◌, ◌⊎◌, inl, inr,
  refl, sym, ap, ◌∙◌, arith, subst, Bool-cases, Text,
}
use outage.Base.Int.{ℤ, pos, pos_part, neg_part, ◌-ℤ◌, ◌+ℤ◌, ltb_ℤ, ◌<ℤ◌, ◌≤ℤ◌, +ℤ_parts}
use outage.Time.Laws.{ltb_ℤ-le, ltb_ℤ-lt, le_trans_ℤ}
use outage.Time.{Time, Civil, Location, TimePackage, seconds}
use outage.Cli.Datetime.Earliest.{IsOccurrence, parse_absolute_deadline-IsOccurrence}
use outage.Cli.Datetime.Fuel.{IsEnough, scan_fuel-IsEnough}
use outage.Cli.Datetime.Zones.{
  ZoneLaws, Shows, consider_offset_le, consider_offset_finds, in_window,
}
use outage.Cli.Datetime.{
  same_local_date_time, consider_offset, scan_intervals, scan_fuel, earliest_local_instant,
  is_unbounded, is_qualified, parse_local, resolve_local, local_fields, normalize_location,
  parse_absolute_deadline,
}

module _ (time : TimePackage) (location : Location) (c : Civil) (laws : ZoneLaws time location c)
    (from : pos 1 ≤ℤ c.year) (to : c.year ≤ℤ pos 9999) (t : Time) (s : Shows time location c t)
    (bounded : Time)
    (b : is_unbounded (location.zone_start bounded) (location.zone_end bounded) ≡ false) where
  abbrev wall : Time
  wall = time.utc.date c

  abbrev considered : Time → Time → Time
  considered current best = consider_offset location c wall (location.offset current) best

  -- The instant is still to come, or has been found.
  abbrev Ahead : Time → Time → Type 0
  Ahead current best = (current ≤ℤ t) ⊎ (best ≤ℤ t)

  same_zone :
      (current best : Time)
      → location.offset t ≡ location.offset current
      → considered current best ≤ℤ t
  same_zone current best e =
      subst (λ o. consider_offset location c wall o best ≤ℤ t) e
        (consider_offset_finds time location c laws from to t s bounded b best)

  kept : (current best : Time) → best ≤ℤ t → considered current best ≤ℤ t
  kept current best h =
      le_trans_ℤ (considered current best) best t
        (consider_offset_le location c wall (location.offset current) best) h

  scan_intervals_finds :
      (fuel : ℕ) (last current best : Time)
      → IsEnough fuel last current
      → t ≤ℤ last
      → Ahead current best
      → scan_intervals fuel location c wall last current best ≤ℤ t
  scan_intervals_finds zero last current best h l (inl a) = absurd (omega arith)
  scan_intervals_finds zero last current best h l (inr a) = unfold scan_intervals in a
  scan_intervals_finds (suc fuel) last current best h l ahead =
      go (ltb_ℤ last current) (location.zone_end current) refl refl
        (λ end lt a. scan_intervals_finds fuel last end (considered current best) (omega arith) l a)
    where
      past : ltb_ℤ last current ≡ true → Ahead current best → best ≤ℤ t
      past e (inl a) = let lt = ltb_ℤ-lt last current e in absurd (omega arith)
      past e (inr a) = a

      in_last : location.zone_end current ≡ none → Ahead current best → considered current best ≤ℤ t
      in_last e (inl a) = same_zone current best (laws.last_zone current e t a)
      in_last e (inr a) = kept current best a

      step :
          (end : Time)
          → location.zone_end current ≡ some end
          → Ahead current best
          → Ahead end (considered current best)
      step end e (inr a) = inr (kept current best a)
      step end e (inl a) = elim (Bool-cases (ltb_ℤ t end)) [
        | inl y ↦
            inr (same_zone current best (laws.within_zone current end e t a (ltb_ℤ-lt t end y)))
        | inr y ↦ inl (ltb_ℤ-le t end y)
      ]

      stop :
          (end : Time)
          → location.zone_end current ≡ some end
          → (ltb_ℤ last end || not (ltb_ℤ current end)) ≡ true
          → Ahead end (considered current best)
          → considered current best ≤ℤ t
      stop end e y (inr a) = a
      stop end e y (inl a) = let lt = laws.zone_after current end e in absurd (ground arith)

      go :
          (x : Bool) (e : Option Time)
          → ltb_ℤ last current ≡ x
          → location.zone_end current ≡ e
          → ((end : Time)
              → current <ℤ end
              → Ahead end (considered current best)
              → scan_intervals fuel location c wall last end (considered current best) ≤ℤ t)
          → scan_intervals (suc fuel) location c wall last current best ≤ℤ t
      go true e hx he ih = unfold scan_intervals in rw hx (past hx ahead)
      go false none hx he ih = unfold scan_intervals in rw (hx, he) (in_last he ahead)
      go false (some end) hx he ih = elim (Bool-cases (ltb_ℤ last end || not (ltb_ℤ current end))) [
        | inl y ↦ unfold scan_intervals in rw (hx, he) (rw y (stop end he y (step end he ahead)))
        | inr y ↦
            unfold scan_intervals in
            rw (hx, he) (rw y (ih end (laws.zone_after current end he) (step end he ahead)))
      ]

module _ (time : TimePackage) (location : Location) (c : Civil) (laws : ZoneLaws time location c)
    (from : pos 1 ≤ℤ c.year) (to : c.year ≤ℤ pos 9999) where
  -- In an unbounded interval the fields occur once.
  unbounded-once :
      (t parsed : Time)
      → Shows time location c t
      → Shows time location c parsed
      → location.zone_start parsed ≡ none
      → location.zone_end parsed ≡ none
      → parsed ≤ℤ t
  unbounded-once t parsed s s' no_start no_end = elim (Bool-cases (ltb_ℤ t parsed)) [
    | inr y ↦ ltb_ℤ-le t parsed y
    | inl y ↦
        let e = laws.first_zone parsed no_start t (before t parsed (ltb_ℤ-lt t parsed y)) in
        let h : t +ℤ seconds (location.offset t) ≡ parsed +ℤ seconds (location.offset t) =
          laws.shown_at t s
          ∙ sym (laws.shown_at parsed s')
          ∙ ap (λ o. parsed +ℤ seconds o) (sym e) in
        same t parsed (seconds (location.offset t)) h
  ]
    where
      before : (a b : ℤ) → a <ℤ b → a ≤ℤ b
      before a b h = omega arith

      same : (a b o : ℤ) → a +ℤ o ≡ b +ℤ o → b ≤ℤ a
      same a b o h =
          let p = +ℤ_parts a o in
          let q = +ℤ_parts b o in let h₀ = ap pos_part h in let h₁ = ap neg_part h in omega arith

  earliest_local_instant_finds :
      (t parsed : Time)
      → Shows time location c t
      → Shows time location c parsed
      → earliest_local_instant time parsed c location ≤ℤ t
  unfolding earliest_local_instant
  earliest_local_instant_finds t parsed s s' =
      go (location.zone_start parsed) (location.zone_end parsed) refl refl
    where
      scan :
          (best : Time)
          → is_unbounded (location.zone_start parsed) (location.zone_end parsed) ≡ false
          → scan_intervals scan_fuel location c
              (time.utc.date c)
              (time.utc.date c +ℤ seconds (pos (2 ^ 31)))
              (time.utc.date c -ℤ seconds (pos (2 ^ 31 - 1)))
              best
            ≤ℤ t
      scan best b =
          let (lo, hi) = in_window time location c laws from to t s parsed b in
          scan_intervals_finds time location c laws from to t s parsed b scan_fuel
            (time.utc.date c +ℤ seconds (pos (2 ^ 31)))
            (time.utc.date c -ℤ seconds (pos (2 ^ 31 - 1))) best
            (scan_fuel-IsEnough (time.utc.date c)) hi (inl lo)

      bounded :
          is_unbounded (location.zone_start parsed) (location.zone_end parsed) ≡ false
          → earliest_local_instant time parsed c location ≤ℤ t
      bounded b = rw b (scan _ b)

      go :
          (start end : Option Time)
          → location.zone_start parsed ≡ start
          → location.zone_end parsed ≡ end
          → earliest_local_instant time parsed c location ≤ℤ t
      go none none a b =
          let unbounded : is_unbounded (location.zone_start parsed) (location.zone_end parsed)
              ≡ true =
            rw (a, b) refl in
          rw unbounded (unbounded-once t parsed s s' a b)
      go (some x) end a b = bounded (rw a refl)
      go none (some x) a b = bounded (rw (a, b) refl)

  resolve_local-finds :
      {t : Time}
      → resolve_local time location c ≡ inr t
      → (u : Time) → Shows time location c u
      → t ≤ℤ u
  unfolding resolve_local
  resolve_local-finds {t} h u s =
      let parsed = location.date c in
      let s' : Shows time location c parsed = ground arith in
      let e : earliest_local_instant time parsed c location ≡ t = ground arith in
      subst (λ x. x ≤ℤ u) e (earliest_local_instant_finds u parsed s s')

-- A value without an offset, in a location whose clocks and zone tables are those of package time, is read,
-- if at all, as the earliest instant at which the clocks of the location show the written fields: where
-- they are turned back and show them twice, as the first of the two.
pub parse_absolute_deadline_earliest :
    (time : TimePackage) (value : Text) (location : Option Location) {t : Time}
    → ZoneLaws time (normalize_location time location) (local_fields value)
    → is_qualified value ≡ false
    → parse_absolute_deadline time value location ≡ inr t
    → IsOccurrence (normalize_location time location) (local_fields value) t
      × ((u : Time)
          → same_local_date_time ((normalize_location time location).civil u) (local_fields value)
            ≡ true
          → t ≤ℤ u)
parse_absolute_deadline_earliest time value location {t} laws q h =
    let o = parse_absolute_deadline-IsOccurrence time value location {t = t} q h in
    (
      o,
      resolve_local-finds time (normalize_location time location) (local_fields value) laws
          o.year_from o.year_to {t = t} (resolved h),
    )
  where
    resolved :
        parse_absolute_deadline time value location ≡ inr t
        → resolve_local time (normalize_location time location) (local_fields value) ≡ inr t
    resolved = unfold parse_absolute_deadline parse_local in λ p. ground arith
