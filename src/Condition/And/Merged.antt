-- ===== src/Condition/And/Merged.antt =====
-- The merged channel of an AND, which takes what its forwarders send in any order.
use outage.Base.{
  ℕ, zero, suc, ◌<◌, Bool, true, false, List, [], ◌∷◌, get_or, set, length, ◌==◌, ==_iff, In, here,
  there, ◌≡◌, ◌≢◌, inl, inr, refl, sym, ap, ◌∙◌, subst, arith, Bool-cases, length-set,
  get_or-set_self, get_or-set_ne, get_or-set_cases,
}
use outage.Condition.Merging.{Merges, done, take}
use outage.Condition.Events.{Event}
use outage.Condition.And.{Message, event, closed}
use outage.Condition.And.Latch.{Messages, Fires, now, later}
use outage.Condition.And.Ordered.{AfterEvents}

-- The child's own messages, where its stream ends only behind an event, or if it was matched before.
abbrev pub IsQueue : ℕ → Bool → List Message → Type 0
IsQueue i matched [] = Unit
IsQueue i matched (event j e ∷ queue) = (j ≡ i) × IsQueue i true queue
IsQueue i matched (closed j ∷ queue) = (j ≡ i) × (matched ≡ true) × IsQueue i matched queue

-- An event of a queue reaches the loop, and the loop has no other events.
pub Merges-Fires :
    {queues : List (List Message)} (ms : Messages) {i : ℕ} {e : Event} (j : ℕ)
    → Merges queues ms
    → In (event i e) (get_or queues j [])
    → Fires i ms
Merges-Fires [] j (done n) p = elim (subst (In _) (n j) p) [ ]
Merges-Fires ((env, m) ∷ ms) {i} {e} j (take {queues} {queue = queue} k g rest) p =
    elim (get_or-set_cases queues k j queue []) [
      | inr q ↦ later (Merges-Fires ms j rest (subst (In (event i e)) (sym q) p))
      | inl (same, q) ↦
          split (subst (In (event i e)) (ap (λ x. get_or queues x []) (sym same) ∙ g) p)
            (λ r. Merges-Fires ms j rest (subst (In (event i e)) (sym q) r))
    ]
  where
    split :
        In (event i e) (m ∷ queue) → (In (event i e) queue → Fires i ms) → Fires i ((env, m) ∷ ms)
    split (here h) rest = now e (sym h)
    split (there r) rest = later (rest r)

pub Merges-In :
    {queues : List (List Message)} (ms : Messages) {i : ℕ}
    → Merges queues ms
    → Fires i ms
    → (j : ℕ) × (e : Event) × In (event i e) (get_or queues j [])
Merges-In [] merges f = elim f [ ]
Merges-In ((env, m) ∷ ms) {i} (take k g rest) (now e h) =
    (k, e, subst (In (event i e)) (sym g) (here (sym h)))
Merges-In ((env, m) ∷ ms) {i} (take {queues} {queue = queue} k g rest) (later f) =
    let (j, e, p) = Merges-In ms rest f in
    elim (get_or-set_cases queues k j queue []) [
      | inr q ↦ (j, e, subst (In (event i e)) q p)
      | inl (same, q) ↦ (k, e, subst (In (event i e)) (sym g) (there (subst (In (event i e)) q p)))
    ]

get_or-lt :
    (queues : List (List Message)) (i : ℕ) {m : Message} {queue : List Message}
    → get_or queues i [] ≡ m ∷ queue
    → i < length queues
get_or-lt [] i h = cc
get_or-lt (q ∷ queues) zero h = omega arith
get_or-lt (q ∷ queues) (suc i) h = let l = get_or-lt queues i h in omega arith

abbrev pub AreQueues : List Bool → List (List Message) → Type 0
AreQueues matched queues = (i : ℕ) → IsQueue i (get_or matched i false) (get_or queues i [])

AreQueues-set :
    (matched matched' : List Bool) (queues : List (List Message)) (k : ℕ) (queue : List Message)
    → k < length queues
    → IsQueue k (get_or matched' k false) queue
    → ((i : ℕ) → k ≢ i → get_or matched' i false ≡ get_or matched i false)
    → AreQueues matched queues
    → AreQueues matched' (set queues k queue)
AreQueues-set matched matched' queues k queue l h kept v i = elim (Bool-cases (k == i)) [
  | inl e ↦
      let same = (==_iff k i).0 e in
      subst (λ x. IsQueue x (get_or matched' x false) (get_or (set queues k queue) x [])) same
        (subst (IsQueue k (get_or matched' k false)) (sym (get_or-set_self queues k queue [] l)) h)
  | inr n ↦
      let ne : k ≢ i = λ e. cc ((==_iff k i).1 e) in
      subst (λ q. IsQueue i (get_or matched' i false) q)
        (sym (get_or-set_ne queues k i queue [] ne))
        (subst (λ b. IsQueue i b (get_or queues i [])) (sym (kept i ne)) (v i))
]

-- A queue in order gives messages in order.
pub Merges-AfterEvents :
    {queues : List (List Message)} (matched : List Bool) (ms : Messages)
    → length matched ≡ length queues
    → AreQueues matched queues
    → Merges queues ms
    → AfterEvents matched ms
Merges-AfterEvents matched [] n v (done h) = tt
Merges-AfterEvents matched ((env, event j e) ∷ ms) n v (take {queues} {queue = queue} k g rest) =
    let (same, tail) = subst (IsQueue k (get_or matched k false)) g (v k) in
    let l = get_or-lt queues k g in
    let l' : j < length matched = omega arith in
    let matched' = set matched j true in
    let hit : get_or matched' k false ≡ true =
      subst (λ x. get_or matched' x false ≡ true) same (get_or-set_self matched j true false l') in
    let n' : length matched' ≡ length (set queues k queue) =
      length-set matched j true ∙ n ∙ sym (length-set queues k queue) in
    (
      l',
      Merges-AfterEvents matched' ms n'
          (AreQueues-set matched matched' queues k queue l
            (subst (λ b. IsQueue k b queue) (sym hit) tail)
            (λ i ne. get_or-set_ne matched j i true false (λ x. ne (sym same ∙ x))) v)
          rest,
    )
Merges-AfterEvents matched ((env, closed j) ∷ ms) n v (take {queues} {queue = queue} k g rest) =
    let (same, hit, tail) = subst (IsQueue k (get_or matched k false)) g (v k) in
    let l = get_or-lt queues k g in
    let n' : length matched ≡ length (set queues k queue) = n ∙ sym (length-set queues k queue) in
    (
      omega arith,
      subst (λ x. get_or matched x false ≡ true) (sym same) hit,
      Merges-AfterEvents matched ms n'
          (AreQueues-set matched matched queues k queue l tail (λ i ne. refl) v) rest,
    )
