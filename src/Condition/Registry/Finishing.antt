-- ===== src/Condition/Registry/Finishing.antt =====
-- finish keeps what has been heard.
use outage.Base.{ℕ, ◌<◌, true, some, List, [], ◌∷◌, ◌++◌, ◌≡◌, refl, sym, ap, ◌∙◌}
use outage.Condition.Registry.{Registry, Subscription, closing, finish, update, with_stream}
use outage.Condition.Registry.Sound.{Inv, update-all}
use outage.Condition.Registry.Channels.{closed_subs, close_all_lem}
use outage.Condition.Registry.Observed.{History}
use outage.Condition.Registry.Heard.{Hears, Heard, ended-Hears, Hears-mono}

-- Closing a channel does not change whose it is and what was sent on it.
closed_subs_lem :
    (ns : List ℕ) (f : ℕ → Subscription) (m : ℕ)
    → ((closed_subs ns f m).stream ≡ (f m).stream) × ((closed_subs ns f m).sent ≡ (f m).sent)
closed_subs_lem [] f m = (refl, refl)
closed_subs_lem (n ∷ ns) f m =
    let f' = update f n (record (f n) { ch_closed = true }) in
    let (a, b) = closed_subs_lem ns f' m in
    let (c, d) : ((f' m).stream ≡ (f m).stream) × ((f' m).sent ≡ (f m).sent) =
      update-all (λ k t. (t.stream ≡ (f k).stream) × (t.sent ≡ (f k).sent)) f n
        (record (f n) { ch_closed = true }) (refl, refl) m (λ ne. (refl, refl)) in
    (a ∙ c, b ∙ d)

pub finish-Heard :
    (r : Registry) (g : History) (i : ℕ)
    → i < r.stream_count
    → Inv r
    → Heard r g
    → (t : Registry) × (finish i r ≡ some t) × Heard t g
unfolding finish
finish-Heard r g i lt inv heard =
    let q = inv.sound i lt in
    let subs = (r.stream_at i).subs in
    let after = record (r.stream_at i) { closed = true; subs = []; phase = closing } in
    let sub_at' = closed_subs subs r.sub_at in
    (
      with_stream i after (record r { sub_at = sub_at' }),
      rw (close_all_lem subs r q.nodup (λ n x. (q.subs_hold n x).is_open)) refl,
      record {
        hears = λ j jlt.
            update-all (λ k t. k < r.stream_count → Hears sub_at' g.before (g.taken k) t)
              r.stream_at i after (λ _. ended-Hears sub_at' g.before (g.taken i) after refl refl) j
              (λ ne klt.
                Hears-mono (λ m x. (refl, sym (closed_subs_lem subs r.sub_at m).1))
                  (heard.hears j klt))
              jlt;
        no_gap = λ n nlt.
            let (es, h) = heard.no_gap n nlt in
            let (a, b) = closed_subs_lem subs r.sub_at n in
            (es, ap (λ sent. g.before n ++ (sent ++ es)) b ∙ h ∙ ap g.taken (sym a));
      },
    )
