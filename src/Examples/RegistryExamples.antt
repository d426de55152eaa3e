-- ===== src/Examples/RegistryExamples.antt =====
-- The registry with two subscribers of one condition.
use outage.Base.{
  ℕ, true, false, ◌&&◌, none, some, List, [], ◌∷◌, ◌++◌, ◌≡◌, ◌≢◌, ◌⊎◌, refl, arith, codes,
}
use outage.Base.Int.{pos}
use outage.Condition.Events.{Event}
use outage.Condition.Registry.Steps.{
  Reach, start, next, delivers, receives, subscribes, starts_stream, starts_pending, source_ends,
  finishes, unsubscribes,
}
use outage.Condition.Registry.Safety.{Step-ne-none, Reach-shared, Reach-released}
use outage.Condition.Registry.Observed.{History, Observed, begins, goes_on}
use outage.Condition.Registry.Broadcast.{Observed-sent, unsent}
use outage.Condition.Registry.{
  Registry, attach, create, finish, leave, new_run_registry, start_pending, start_stream, subscribe,
  unsubscribe, at_phase, finishing, deliver, member, receive, send, sending, update, with_sub,
}

-- Both subscribers join before the stream starts.
abbrev subscribed : Registry
subscribed = (subscribe 7 (subscribe 7 new_run_registry).0).0

subscribed-Reach : Reach subscribed
subscribed-Reach = next (next start (subscribes 7) refl) (subscribes 7) refl

subscribed_streams : (subscribed.stream_count ≡ 1) × ((subscribed.stream_at 0).subs ≡ 0 ∷ 1 ∷ [])
unfolding subscribe create attach
subscribed_streams = (refl, refl)

abbrev dispatching : Registry
dispatching = start_pending (start_stream 0 subscribed)

dispatching-Reach : Reach dispatching
unfolding subscribe create attach start_stream
dispatching-Reach =
    next (next subscribed-Reach (starts_stream 0 (omega arith) refl) refl) starts_pending refl

abbrev ending : Registry
ending = at_phase 0 finishing dispatching

ending-Reach : Reach ending
unfolding subscribe create attach start_stream start_pending
ending-Reach = next dispatching-Reach (source_ends 0 (omega arith) refl) refl

-- The source is closed, and finish closes both channels.
Step-ne-none_example : finish 0 ending ≢ none
unfolding subscribe create attach start_stream start_pending
Step-ne-none_example = Step-ne-none ending-Reach (finishes 0 (omega arith) refl)

Reach-shared_example : (◌≡◌ {A = ℕ} 0 0) × (subscribed.streams 7 ≡ some 0)
unfolding subscribe create attach
Reach-shared_example =
    Reach-shared subscribed-Reach 0 0 (omega arith) (omega arith) refl refl (λ e. cc) (λ e. cc) refl

-- Both have left.
abbrev left : Registry
left = unsubscribe 1 (unsubscribe 0 subscribed)

left-Reach : Reach left
unfolding subscribe create attach unsubscribe leave
left-Reach =
    next (next subscribed-Reach (unsubscribes 0 (omega arith)) refl) (unsubscribes 1 (omega arith))
      refl

Reach-released_example :
    ((left.stream_at 0).subs ≡ []
      → (left.stream_at 0).closed ≡ false
      → ((left.stream_at 0).to_cancel ≡ true) ⊎ ((left.stream_at 0).cancelled ≡ true))
    × ((key : ℕ)
        → left.streams key ≡ some 0
        → (left.stream_at 0).closed ≡ false
        → (left.stream_at 0).cancelled ≡ false)
unfolding subscribe create attach unsubscribe leave
Reach-released_example = Reach-released left-Reach 0 (omega arith)

-- An event is taken while both listen: the first subscriber has it, the second has still to get it, and
-- a third joins meanwhile.
abbrev news : Event
news = record { condition_id = codes "news"; source_ids = []; time = pos 5 }

abbrev taken : Registry
taken = receive 0 news dispatching

abbrev halfway : Registry
halfway =
    at_phase 0 (sending news (1 ∷ []))
      (with_sub 0 (record (taken.sub_at 0) { sent = news ∷ [] }) taken)

abbrev joined_late : Registry
joined_late = (subscribe 7 halfway).0

abbrev told : History
told = record {
  taken = update (λ _. []) 0 (news ∷ []);
  before = update (update (update (λ _. []) 0 []) 1 []) 2 (news ∷ []);
}

joined_late-Observed : Observed joined_late told
unfolding subscribe create attach start_stream start_pending receive deliver send
joined_late-Observed =
    let o1 = goes_on (goes_on begins (subscribes 7) refl) (subscribes 7) refl in
    let o2 = goes_on (goes_on o1 (starts_stream 0 (omega arith) refl) refl) starts_pending refl in
    let o3 = goes_on o2 (receives 0 news (omega arith) refl) refl in
    let o4 = goes_on o3 (delivers 0 news 0 (1 ∷ []) (omega arith) refl) refl in
    goes_on o4 (subscribes 7) refl

Observed-sent_example :
    (rest : List Event) × ([] ++ ([] ++ rest) ≡ news ∷ [])
    × ((rest ≡ unsent 1 (sending news (1 ∷ []))) ⊎ (member 1 (0 ∷ 1 ∷ 2 ∷ []) && true ≡ false))
unfolding subscribe create attach start_stream start_pending receive
Observed-sent_example = Observed-sent joined_late-Observed 0 1 (omega arith) (omega arith) refl
