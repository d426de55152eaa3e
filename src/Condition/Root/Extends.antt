-- ===== src/Condition/Root/Extends.antt =====
-- What a subscription does to the streams of a registry that is not started.
use outage.Base.{
  ℕ, suc, ◌<◌, ◌≤◌, ◌==◌, ==_iff, ltb, Bool, true, false, Option, none, some, ◌≡◌, ◌≢◌, ◌⊎◌, inl,
  inr, refl, ◌∙◌, arith, Bool-cases,
}
use outage.Condition.Registry.{
  Registry, Stream, made, waiting, attach, create, join, start_stream, subscribe, subscribe_to,
}
use outage.Condition.Registry.Sound.{update-all}

-- The new streams wait, the old ones are where they were, and the registry is started as it was.
pub record Extends (r s : Registry) : Type 0 where
  pub started : s.started ≡ r.started
  pub more : r.stream_count ≤ s.stream_count
  pub kept : (i : ℕ) → i < r.stream_count → (s.stream_at i).phase ≡ (r.stream_at i).phase
  pub waits : (i : ℕ) → r.stream_count ≤ i → i < s.stream_count → (s.stream_at i).phase ≡ waiting

pub Extends-refl : (r : Registry) → Extends r r
Extends-refl r = record {
  started = refl;
  more = omega arith;
  kept = λ i l. refl;
  waits = λ i l l'. absurd (omega arith);
}

pub Extends-trans : {r s t : Registry} → Extends r s → Extends s t → Extends r t
Extends-trans {r} {s} {t} p q = record {
  started = q.started ∙ p.started;
  more = let a = p.more in let b = q.more in omega arith;
  kept = λ i l. let a = p.more in q.kept i (omega arith) ∙ p.kept i l;
  waits = λ i l l'. elim (lt_or_ge i s.stream_count) [
    | inl below ↦ q.kept i below ∙ p.waits i l below
    | inr above ↦ q.waits i above l'
  ];
}
  where
    lt_or_ge : (a b : ℕ) → (a < b) ⊎ (b ≤ a)
    lt_or_ge a b = elim (Bool-cases (ltb a b)) [
      | inl e ↦ inl (ground arith)
      | inr e ↦ inr (ground arith)
    ]

-- A subscription moves no stream, beside the one that it may make.
attach-phase :
    (closed : Bool) (i : ℕ) (r : Registry) (j : ℕ)
    → ((attach closed i r).stream_at j).phase ≡ (r.stream_at j).phase
unfolding attach
attach-phase true i r j = refl
attach-phase false i r j =
    update-all (λ k (s : Stream). s.phase ≡ (r.stream_at k).phase) r.stream_at i _ refl j
      (λ n. refl)

-- subscribe: it extends the streams, the new one aside, which is made.
abbrev pub Made : Bool → Registry → Registry → Type 0
Made false r s = Extends r s
Made true r s =
    (s.started ≡ r.started)
    × (s.stream_count ≡ suc r.stream_count)
    × ((s.stream_at r.stream_count).phase ≡ made)
    × ((i : ℕ) → i < r.stream_count → (s.stream_at i).phase ≡ (r.stream_at i).phase)

attach-fields :
    (closed : Bool) (i : ℕ) (r : Registry)
    → ((attach closed i r).started ≡ r.started)
      × ((attach closed i r).stream_count ≡ r.stream_count)
unfolding attach
attach-fields true i r = (refl, refl)
attach-fields false i r = (refl, refl)

join-Extends : (i : ℕ) (r : Registry) → Extends r (join i r)
join-Extends i r =
    let (s, c) = attach-fields (r.stream_at i).closed i r in
    record {
      started = s;
      more = omega arith;
      kept = λ j l. attach-phase (r.stream_at i).closed i r j;
      waits = λ j l l'. absurd (omega arith);
    }

create-Made : (key : ℕ) (r : Registry) → Made true r (create key r)
unfolding create
create-Made key r = (
  refl,
  refl,
  update-all (λ k (s : Stream). k ≡ r.stream_count → s.phase ≡ made) r.stream_at r.stream_count _
      (λ e. refl) r.stream_count (λ n. absurd (n refl)) refl,
  λ i l.
      update-all (λ k (s : Stream). k ≢ r.stream_count → s.phase ≡ (r.stream_at k).phase)
        r.stream_at r.stream_count _ (λ n. absurd (n refl)) i (λ n m. refl) (λ e. omega arith),
)

pub subscribe-Made : (key : ℕ) (r : Registry) → Made (subscribe key r).1 r (subscribe key r).0
unfolding subscribe
subscribe-Made key r = go (r.streams key)
  where
    go : (o : Option ℕ) → Made (subscribe_to o key r).1 r (subscribe_to o key r).0
    go (some i) = join-Extends i r
    go none =
        let (a, b, c, d) = create-Made key r in
        let s = create key r in
        let x = join-Extends r.stream_count s in
        (
          x.started ∙ a,
          (attach-fields (s.stream_at r.stream_count).closed r.stream_count s).1 ∙ b,
          x.kept r.stream_count (omega arith) ∙ c,
          λ i l. x.kept i (omega arith) ∙ d i l,
        )

-- The start of the new stream, once its own children have subscribed.
pub start_stream-Extends :
    (r s t : Registry)
    → r.started ≡ false
    → Made true r s
    → Extends s t
    → Extends r (start_stream r.stream_count t)
unfolding start_stream
start_stream-Extends r s t quiet (a, b, c, d) x =
    let n = x.more in
    let off : t.started ≡ false = x.started ∙ a ∙ quiet in
    record {
      started = x.started ∙ a;
      more = omega arith;
      kept = λ i l.
          update-all (λ k (u : Stream). k < r.stream_count → u.phase ≡ (r.stream_at k).phase)
            t.stream_at r.stream_count _ (λ l'. absurd (omega arith)) i
            (λ ne l'. x.kept i (omega arith) ∙ d i l') l;
      waits = λ i l l'.
          update-all (λ k (u : Stream). r.stream_count ≤ k → k < t.stream_count → u.phase ≡ waiting)
            t.stream_at r.stream_count _ (λ m m'. rw off refl) i
            (λ ne m m'. x.waits i (above ne m) m') l l';
    }
  where
    above : {i : ℕ} → r.stream_count ≢ i → r.stream_count ≤ i → s.stream_count ≤ i
    above {i} ne m = elim (Bool-cases (r.stream_count == i)) [
      | inl e ↦ absurd (ne ((==_iff r.stream_count i).0 e))
      | inr e ↦ ground arith
    ]
