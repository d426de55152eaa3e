-- ===== src/Condition/Registry/Sound.antt =====
-- The invariant of the registry.
use outage.Base.{
  ℕ, ◌<◌, ◌==◌, ==_iff, Bool, true, false, Option, some, List, [], In, IsNodup, ◌≡◌, ◌≢◌, ◌⊎◌, inl,
  inr, subst, Bool-cases,
}
use outage.Condition.Registry.{
  Phase, Registry, Stream, Subscription, made, waiting, receiving, finishing, closing, finished,
  sending, update,
}

-- A phase after the lock of finish.
abbrev pub is_over : Phase → Bool
is_over closing = true
is_over finished = true
is_over made = false
is_over waiting = false
is_over receiving = false
is_over finishing = false
is_over (sending e ns) = false

-- The subscriptions that dispatch has still to serve.
abbrev pub to_serve : Phase → List ℕ
to_serve closing = []
to_serve finished = []
to_serve made = []
to_serve waiting = []
to_serve receiving = []
to_serve finishing = []
to_serve (sending e ns) = ns

-- Subscription n belongs to stream i, and its channel is open.
pub record Holds (sub_at : ℕ → Subscription) (sub_count i n : ℕ) : Type 0 where
  pub exists : n < sub_count
  pub of_stream : (sub_at n).stream ≡ i
  pub is_open : (sub_at n).ch_closed ≡ false

-- What holds of stream i. A stream that is not closed and has subscribers is the one in the map under
-- its key; one that has none is cancelled, or about to be.
pub record IsSound (sub_at : ℕ → Subscription) (sub_count : ℕ) (streams : ℕ → Option ℕ) (i : ℕ)
    (s : Stream) : Type 0 where
  pub subs_hold : (n : ℕ) → In n s.subs → Holds sub_at sub_count i n
  pub served_hold : (n : ℕ) → In n (to_serve s.phase) → Holds sub_at sub_count i n
  pub nodup : IsNodup s.subs
  pub closed_over : s.closed ≡ is_over s.phase
  pub closed_empty : s.closed ≡ true → s.subs ≡ []
  pub registered : s.closed ≡ false → s.subs ≢ [] → streams s.key ≡ some i
  pub released : s.closed ≡ false → s.subs ≡ [] → (s.to_cancel ≡ true) ⊎ (s.cancelled ≡ true)

-- What holds of the stream that the map has under a key: it is closed, or it runs and has a subscriber.
pub record IsEntry (key : ℕ) (s : Stream) : Type 0 where
  pub of_key : s.key ≡ key
  pub runs : (s.closed ≡ true) ⊎ (s.to_cancel ≡ false) × (s.cancelled ≡ false) × (s.subs ≢ [])

pub record Inv (r : Registry) : Type 0 where
  pub sound :
      (i : ℕ) → i < r.stream_count → IsSound r.sub_at r.sub_count r.streams i (r.stream_at i)
  pub entry_lt : (key i : ℕ) → r.streams key ≡ some i → i < r.stream_count
  pub entry : (key i : ℕ) → r.streams key ≡ some i → IsEntry key (r.stream_at i)

pub split_at {κ} : (P : ℕ → Type κ) (i : ℕ) → P i → ((j : ℕ) → i ≢ j → P j) → (j : ℕ) → P j
split_at P i p q j = elim (Bool-cases (i == j)) [
  | inl e ↦ subst P ((==_iff i j).0 e) p
  | inr n ↦ q j (λ e. cc ((==_iff i j).1 e))
]

-- A property of all values of an updated function.
pub update-all {ℓ κ} :
    {A : Type ℓ} (P : ℕ → A → Type κ) (f : ℕ → A) (i : ℕ) (v : A)
    → P i v
    → (j : ℕ) → (i ≢ j → P j (f j))
    → P j (update f i v j)
update-all P f i v p j q = elim (Bool-cases (i == j)) [
  | inl e ↦ rw e (subst (λ k. P k v) ((==_iff i j).0 e) p)
  | inr n ↦ rw n (q (λ e. cc ((==_iff i j).1 e)))
]

pub update_everywhere {ℓ κ} :
    {A : Type ℓ} (P : ℕ → A → Type κ) (f : ℕ → A) (i : ℕ) (v : A)
    → P i v
    → ((j : ℕ) → i ≢ j → P j (f j))
    → (j : ℕ) → P j (update f i v j)
update_everywhere P f i v p q j = update-all P f i v p j (q j)

pub IsSound-mono :
    {sub_at sub_at' : ℕ → Subscription} {sub_count sub_count' : ℕ} {streams streams' : ℕ → Option ℕ}
    {i : ℕ} {s : Stream}
    → ((n : ℕ) → Holds sub_at sub_count i n → Holds sub_at' sub_count' i n)
    → (streams s.key ≡ some i → streams' s.key ≡ some i)
    → IsSound sub_at sub_count streams i s
    → IsSound sub_at' sub_count' streams' i s
IsSound-mono h k p = record {
  subs_hold = λ n x. h n (p.subs_hold n x);
  served_hold = λ n x. h n (p.served_hold n x);
  nodup = p.nodup;
  closed_over = p.closed_over;
  closed_empty = p.closed_empty;
  registered = λ c e. k (p.registered c e);
  released = p.released;
}

-- Changing one stream, and no subscription and no entry.
module _ (r : Registry) (i : ℕ) (s : Stream) where
  abbrev pub changed : Registry
  changed = record r { stream_at = update r.stream_at i s }

  pub changed-Inv :
      Inv r
      → (i < r.stream_count → IsSound r.sub_at r.sub_count r.streams i s)
      → ((key : ℕ) → r.streams key ≡ some i → IsEntry key s)
      → Inv changed
  changed-Inv inv here_sound here_entry = record {
    sound = λ j lt.
        update-all (λ k t. k < r.stream_count → IsSound r.sub_at r.sub_count r.streams k t)
          r.stream_at i s here_sound j (λ n. inv.sound j) lt;
    entry_lt = inv.entry_lt;
    entry = λ key j e.
        update-all (λ k t. r.streams key ≡ some k → IsEntry key t) r.stream_at i s (here_entry key)
          j (λ n. inv.entry key j) e;
  }
