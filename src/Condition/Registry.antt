-- ===== src/Condition/Registry.antt =====
-- The registry of condition.go, which shares one monitor among the subscribers of a condition in a run.
-- Each region under the mutexes is one operation. Streams and subscriptions are numbered in the order
-- in which they are made; `none` is a panic of a channel.
pub mod Steps
pub mod Sound
pub mod Phases
pub mod Channels
pub mod Safety
pub mod Joins
pub mod Leaves
pub mod Subscribes
pub mod Observed
pub mod Heard
pub mod Serving
pub mod Leaving
pub mod Sending
pub mod Finishing
pub mod Joining
pub mod Broadcast
use outage.Base.{
  ℕ, suc, ◌==◌, Bool, true, false, not, ◌&&◌, ◌||◌, Option, none, some, List, [], ◌∷◌, ◌++◌,
  if◌then◌else◌,
}
use outage.Condition.Events.{Event}

-- Where a stream is: made, in registry.pending, or in dispatch: at its select, sending an event to the
-- subscriptions that are left, and in finish before its lock, after it, and at the end.
pub data Phase : Type 0 where
  made waiting receiving finishing closing finished : Phase
  sending : Event → List ℕ → Phase

-- sharedStream; `to_cancel` is set between the lock of an unsubscribe that leaves it empty and cancel().
pub record Stream : Type 0 where
  pub key : ℕ
  pub subs : List ℕ
  pub closed : Bool
  pub cancelled : Bool
  pub to_cancel : Bool
  pub phase : Phase

-- A subscription: its stream, whether its channel is closed, and what was sent on the channel.
pub record Subscription : Type 0 where
  pub stream : ℕ
  pub ch_closed : Bool
  pub sent : List Event

-- runRegistry, with all streams and subscriptions of the run; `streams` is its map.
pub record Registry : Type 0 where
  pub cancelled : Bool
  pub started : Bool
  pub streams : ℕ → Option ℕ
  pub stream_at : ℕ → Stream
  pub stream_count : ℕ
  pub sub_at : ℕ → Subscription
  pub sub_count : ℕ

abbrev pub update {ℓ} : {A : Type ℓ} → (ℕ → A) → ℕ → A → ℕ → A
update f i v j = if i == j then v else f j

abbrev pub member : ℕ → List ℕ → Bool
member n [] = false
member n (m ∷ ms) = (n == m) || member n ms

abbrev pub remove : ℕ → List ℕ → List ℕ
remove n [] = []
remove n (m ∷ ms) = if n == m then remove n ms else m ∷ remove n ms

abbrev pub is_empty : List ℕ → Bool
is_empty [] = true
is_empty (n ∷ ns) = false

-- newRunRegistry
abbrev pub new_run_registry : Registry
new_run_registry = record {
  cancelled = false;
  started = false;
  streams = λ _. none;
  stream_at = λ _. record {
    key = 0;
    subs = [];
    closed = false;
    cancelled = false;
    to_cancel = false;
    phase = made;
  };
  stream_count = 0;
  sub_at = λ _. record { stream = 0; ch_closed = false; sent = [] };
  sub_count = 0;
}

abbrev pub with_stream : ℕ → Stream → Registry → Registry
with_stream i stream r = record r { stream_at = update r.stream_at i stream }

abbrev pub with_sub : ℕ → Subscription → Registry → Registry
with_sub n sub r = record r { sub_at = update r.sub_at n sub }

-- A new stream, entered in the map.
unfoldable pub create : ℕ → Registry → Registry
create key r = record r {
  streams = update r.streams key (some r.stream_count);
  stream_at = update r.stream_at r.stream_count (record {
    key = key;
    subs = [];
    closed = false;
    cancelled = false;
    to_cancel = false;
    phase = made;
  });
  stream_count = suc r.stream_count;
}

-- A new subscription of stream i, by whether the stream is closed: then the channel is closed too, and
-- otherwise it joins the stream.
unfoldable pub attach : Bool → ℕ → Registry → Registry
attach true i r = record r {
  sub_at = update r.sub_at r.sub_count (record { stream = i; ch_closed = true; sent = [] });
  sub_count = suc r.sub_count;
}
attach false i r = record r {
  stream_at =
      update r.stream_at i
        (record (r.stream_at i) { subs = (r.stream_at i).subs ++ r.sub_count ∷ [] });
  sub_at = update r.sub_at r.sub_count (record { stream = i; ch_closed = false; sent = [] });
  sub_count = suc r.sub_count;
}

abbrev pub join : ℕ → Registry → Registry
join i r = attach (r.stream_at i).closed i r

-- subscribe, up to the unlock, by what the map has under the key, with whether it made the stream.
abbrev pub subscribe_to : Option ℕ → ℕ → Registry → Registry × Bool
subscribe_to none key r = (join r.stream_count (create key r), true)
subscribe_to (some i) key r = (join i r, false)

unfoldable pub subscribe : ℕ → Registry → Registry × Bool
subscribe key r = subscribe_to (r.streams key) key r

-- startStream
unfoldable pub start_stream : ℕ → Registry → Registry
start_stream i r =
    with_stream i (record (r.stream_at i) { phase = if r.started then receiving else waiting }) r

abbrev pub launch : Phase → Phase
launch waiting = receiving
launch made = made
launch receiving = receiving
launch finishing = finishing
launch closing = closing
launch finished = finished
launch (sending e ns) = sending e ns

-- startPending
unfoldable pub start_pending : Registry → Registry
start_pending r = if r.started then r else record r {
  started = true;
  stream_at = λ i. record (r.stream_at i) { phase = launch (r.stream_at i).phase };
}

-- An event of the source, and the snapshot of the subscriptions, in the order in which they were made;
-- dispatch goes through a map, in no order of its own.
unfoldable pub receive : ℕ → Event → Registry → Registry
receive i e r = with_stream i (record (r.stream_at i) { phase = sending e (r.stream_at i).subs }) r

-- A send on the channel of subscription n.
unfoldable pub send : ℕ → Event → Registry → Option Registry
send n e r =
    if (r.sub_at n).ch_closed
    then none
    else some (with_sub n (record (r.sub_at n) { sent = (r.sub_at n).sent ++ e ∷ [] }) r)

abbrev pub at_phase : ℕ → Phase → Registry → Registry
at_phase i phase r = with_stream i (record (r.stream_at i) { phase = phase }) r

abbrev pub map_registry : (Registry → Registry) → Option Registry → Option Registry
map_registry f none = none
map_registry f (some r) = some (f r)

-- The loop of dispatch over the subscriptions, one turn in which the send is taken.
unfoldable pub deliver : ℕ → Event → ℕ → List ℕ → Registry → Option Registry
deliver i e n rest r = map_registry (at_phase i (sending e rest)) (send n e r)

abbrev pub points_to : Option ℕ → ℕ → Bool
points_to none i = false
points_to (some j) i = j == i

-- What unsubscribe does for a subscription of stream i that it has, without it.
unfoldable pub leave : ℕ → List ℕ → Registry → Registry
leave i subs r =
    let stream = r.stream_at i in
    let empty = is_empty subs && not stream.closed in
    record r {
      streams =
          if empty && points_to (r.streams stream.key) i
          then update r.streams stream.key none
          else r.streams;
      stream_at =
          update r.stream_at i
            (record stream { subs = subs; to_cancel = stream.to_cancel || empty });
    }

-- unsubscribe, up to the unlock, by whether the stream has the subscription.
abbrev pub leave_if : Bool → ℕ → ℕ → Registry → Registry
leave_if true n i r = leave i (remove n (r.stream_at i).subs) r
leave_if false n i r = r

unfoldable pub unsubscribe : ℕ → Registry → Registry
unsubscribe n r = let i = (r.sub_at n).stream in leave_if (member n (r.stream_at i).subs) n i r

-- The cancel() after it.
unfoldable pub cancel : ℕ → Registry → Registry
cancel i r = with_stream i (record (r.stream_at i) { cancelled = true; to_cancel = false }) r

-- close of each channel.
unfoldable pub close_all : List ℕ → Registry → Option Registry
close_all [] r = some r
close_all (n ∷ ns) r =
    let rest = close_all ns (with_sub n (record (r.sub_at n) { ch_closed = true }) r) in
    if (r.sub_at n).ch_closed then none else rest

-- The lock of finish.
unfoldable pub finish : ℕ → Registry → Option Registry
finish i r =
    map_registry
      (with_stream i (record (r.stream_at i) { closed = true; subs = []; phase = closing }))
      (close_all (r.stream_at i).subs r)

-- The end of finish.
unfoldable pub end_finish : ℕ → Registry → Registry
end_finish i r = with_stream i (record (r.stream_at i) { cancelled = true; phase = finished }) r
