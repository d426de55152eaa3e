-- ===== src/Condition/And/Forwarded.antt =====
-- An AND on what the forwarders of its children send, merged in any order.
use outage.Base.{
  ℕ, zero, suc, ◌+◌, ◌<◌, Bool, true, false, none, some, List, [], ◌∷◌, get_or, length, replicate,
  In, here, there, ◌≡◌, ◌≢◌, ◌↔◌, ◌⊎◌, inl, inr, refl, sym, ap, ◌∙◌, subst, arith, length-replicate,
  get_or-replicate, Text,
}
use outage.Time.{Time}
use outage.Condition.Merging.{Readings, Merges}
use outage.Condition.Events.{Mode, Event}
use outage.Condition.And.{event, forward_indexed_child, forwarders, run}
use outage.Condition.And.Latch.{Messages}
use outage.Condition.And.Ordered.{IsDelivering}
use outage.Condition.And.Emission.{run-Fires, run_emits_if}
use outage.Condition.And.Merged.{IsQueue, Merges-Fires, Merges-In, Merges-AfterEvents}

-- The source of a child begins with an event that is forwarded.
pub data Sends : Readings → Type 0 where
  sends : {e : Event} {readings : Readings} → Sends ((some e, true) ∷ readings)

forward-IsQueue : (i : ℕ) (readings : Readings) → IsQueue i true (forward_indexed_child i readings)
unfolding forward_indexed_child
forward-IsQueue i [] = tt
forward-IsQueue i ((none, true) ∷ readings) = (refl, refl, tt)
forward-IsQueue i ((none, false) ∷ readings) = tt
forward-IsQueue i ((some e, true) ∷ readings) = (refl, forward-IsQueue i readings)
forward-IsQueue i ((some e, false) ∷ readings) = tt

Sends-IsQueue :
    (i : ℕ) {readings : Readings}
    → Sends readings
    → IsQueue i false (forward_indexed_child i readings)
unfolding forward_indexed_child
Sends-IsQueue i (sends {e} {readings}) = (refl, forward-IsQueue i readings)

Sends-In :
    (i : ℕ) {readings : Readings}
    → Sends readings
    → (e : Event) × In (event i e) (forward_indexed_child i readings)
unfolding forward_indexed_child
Sends-In i (sends {e} {readings}) = (e, here refl)

forward-In :
    (j : ℕ) (readings : Readings) {i : ℕ} {e : Event}
    → In (event i e) (forward_indexed_child j readings)
    → (i ≡ j) × Sends readings
unfolding forward_indexed_child
forward-In j [] p = elim p [ ]
forward-In j ((none, true) ∷ readings) (here q) = cc
forward-In j ((none, true) ∷ readings) (there p) = elim p [ ]
forward-In j ((none, false) ∷ readings) p = elim p [ ]
forward-In j ((some e, false) ∷ readings) p = elim p [ ]
forward-In j ((some e, true) ∷ readings) (here q) = (index-of q, sends)
  where
    index-of : {a b : ℕ} {x y : Event} → event a x ≡ event b y → a ≡ b
    index-of h = cc
forward-In j ((some e, true) ∷ readings) (there p) = ((forward-In j readings p).0, sends)

forwarders-get :
    (index : ℕ) (children : List Readings) (i : ℕ)
    → get_or (forwarders index children) i []
      ≡ forward_indexed_child (index + i) (get_or children i [])
unfolding forwarders forward_indexed_child
forwarders-get index [] i = refl
forwarders-get index (readings ∷ children) zero =
    ap (λ k. forward_indexed_child k readings) (omega arith)
forwarders-get index (readings ∷ children) (suc i) =
    forwarders-get (suc index) children i
    ∙ ap (λ k. forward_indexed_child k (get_or children i [])) (omega arith)

forwarders-get_start :
    (children : List Readings) (i : ℕ)
    → get_or (forwarders 0 children) i [] ≡ forward_indexed_child i (get_or children i [])
forwarders-get_start children i =
    forwarders-get 0 children i
    ∙ ap (λ k. forward_indexed_child k (get_or children i [])) (omega arith)

length-forwarders :
    (index : ℕ) (children : List Readings) → length (forwarders index children) ≡ length children
unfolding forwarders
length-forwarders index [] = refl
length-forwarders index (readings ∷ children) = ap suc (length-forwarders (suc index) children)

-- Out of range there is nothing.
get_or-ge : (children : List Readings) (i : ℕ) → (i < length children) ⊎ (get_or children i [] ≡ [])
get_or-ge [] i = inr refl
get_or-ge (r ∷ children) zero = inl (omega arith)
get_or-ge (r ∷ children) (suc i) = elim (get_or-ge children i) [
  | inl l ↦ inl (omega arith)
  | inr e ↦ inr e
]

forwarders-AreQueues :
    (n : ℕ) (children : List Readings)
    → ((i : ℕ) → i < length children → Sends (get_or children i []))
    → (i : ℕ) → IsQueue i (get_or (replicate n false) i false) (get_or (forwarders 0 children) i [])
forwarders-AreQueues n children s i =
    subst (λ b. IsQueue i b (get_or (forwarders 0 children) i []))
      (sym (get_or-replicate n i false))
      (subst (IsQueue i false) (sym (forwarders-get_start children i))
        (queue (get_or-ge children i)))
  where
    queue :
        (i < length children) ⊎ (get_or children i [] ≡ [])
        → IsQueue i false (forward_indexed_child i (get_or children i []))
    queue (inl l) = Sends-IsQueue i (s i l)
    queue (inr e) = unfold forward_indexed_child in rw e tt

-- Whatever order the merged channel has, an AND whose children's forwarders have all ended, and whose
-- events are delivered, emits exactly when the source of every child begins with an event that is
-- forwarded; ends of streams do not disturb it. In either mode.
pub run_emits_forwarded :
    (id : Text) (mode : Mode) (k : ℕ) (t : Time) (d : Bool) (children : List Readings)
    (ms : Messages)
    → length children ≡ suc k
    → Merges (forwarders 0 children) ms
    → IsDelivering ms
    → (run id mode (suc k) t d ms ≢ []) ↔ ((i : ℕ) → i < suc k → Sends (get_or children i []))
run_emits_forwarded id mode k t d children ms n merges del = (sound, complete)
  where
    sound : run id mode (suc k) t d ms ≢ [] → (i : ℕ) → i < suc k → Sends (get_or children i [])
    sound h i l =
        let (j, e, p) = Merges-In ms merges (run-Fires id mode k t d ms h i l) in
        let (same, s) =
          forward-In j (get_or children j [])
            (subst (In (event i e)) (forwarders-get_start children j) p) in
        subst (λ x. Sends (get_or children x [])) (sym same) s

    complete :
        ((i : ℕ) → i < suc k → Sends (get_or children i [])) → run id mode (suc k) t d ms ≢ []
    complete s =
        run_emits_if id mode k t d ms del
          (Merges-AfterEvents (replicate (suc k) false) ms
            (length-replicate (suc k) false ∙ sym n ∙ sym (length-forwarders 0 children))
            (forwarders-AreQueues (suc k) children (λ i l. s i (subst (λ m. i < m) n l))) merges)
          (λ i l.
            let (e, p) = Sends-In i (s i l) in
            Merges-Fires ms i merges
              (subst (In (event i e)) (sym (forwarders-get_start children i)) p))
