-- ===== src/Main/Pipeline/Order.antt =====
-- The order in which the publisher receives what the watcher has sent, and nothing lost or doubled.
use mathlib.Core.List.{Sublistᴰ}
use mathlib.Core.List.Sublistᴰ.{slnil}
use proxmox_eventbus.Prelude.{
  ◌≡◌, refl, sym, ap, ap₂, subst, ◌∙◌, ℕ, ◌≤◌, ◌<◌, inl, inr, List, [], ◌∷◌, ◌++◌, map, map-append,
  Option, none, some, length, length-append, append_assoc, append-nil, arith,
}
use proxmox_eventbus.Prelude.Merges.{
  Merges, done, Merges-left, Merges-right, Sublist-snoc, Sublist-skip,
}
use proxmox_eventbus.Events.{CloudEvent}
use proxmox_eventbus.Tasks.Watcher.{TaskEvent}
use proxmox_eventbus.Enrich.Lifecycle.{Inputs}
use proxmox_eventbus.Main.{WatchState, watch_step, watch_run}
use proxmox_eventbus.Main.Channel.{
  Outbox, accepted, capacity, enqueue, forward_event, offer_event, take_from,
}
use proxmox_eventbus.Main.Channel.Branches.{
  accepted-enqueue, forward_event-sends, offer_event-cases, take_from-receives,
}
use proxmox_eventbus.Main.Pipeline.{
  Pipeline, History, Reach, new_pipeline, no_history, task_capacity,
}
use proxmox_eventbus.Main.Pipeline.Runs.{start, emit, take, pass, offer, publish}

-- One more event at the end of a run of `runWatcher`.
watch_run-snoc :
    (st : WatchState) (evs : List (TaskEvent × Inputs)) (ev : TaskEvent) (world : Inputs)
    → watch_run st (evs ++ ((ev, world) ∷ [])) ≡ (
      (watch_run st evs).0 ++ ((watch_step ((watch_run st evs).1) ev world).0 ∷ []),
      (watch_step ((watch_run st evs).1) ev world).1,
    )
unfolding watch_run
watch_run-snoc st [] ev world = refl
watch_run-snoc st ((e, w) ∷ evs) ev world =
    ap (λ r. ((watch_step st e w).0 ∷ r.0, r.1))
      (watch_run-snoc ((watch_step st e w).1) evs ev world)

-- What `runWatcher` holds.
abbrev pub held_list : Option CloudEvent → List CloudEvent
held_list none = []
held_list (some ce) = ce ∷ []

-- `sent` are the events that `runWatcher` has put into `out`, and `kept` those of the emitter that
-- found room there.
pub record InOrder (watch : WatchState) (h : History) (s : Pipeline) : Type 0 where
  pub tasks : h.emitted ≡ map (λ p. p.0) h.taken ++ s.task_queue
  pub state : (watch_run watch h.taken).1 ≡ s.watch
  pub sent : List CloudEvent
  pub made : (watch_run watch h.taken).0 ≡ sent ++ held_list s.held
  pub kept : List CloudEvent
  pub merged : Merges sent kept (accepted s.out)
  pub offers : Sublistᴰ kept h.offered
  pub room : length s.task_queue ≤ task_capacity
  pub out_room : length s.out.queue ≤ capacity

start-InOrder : (watch : WatchState) → InOrder watch no_history (new_pipeline watch)
unfolding watch_run
start-InOrder watch = record {
  tasks = refl;
  state = refl;
  sent = [];
  made = refl;
  kept = [];
  merged = done;
  offers = slnil;
  room = omega arith;
  out_room = omega arith;
}

grown-le {ℓ} :
    {A : Type ℓ} (xs : List A) (x : A) (n : ℕ) → length xs < n → length (xs ++ (x ∷ [])) ≤ n
grown-le xs x n h = omega (arith, length-append xs (x ∷ []))

module _ {watch : WatchState} {h : History} {s : Pipeline} (i : InOrder watch h s) where
  emit-InOrder :
      (ev : TaskEvent)
      → length s.task_queue < task_capacity
      → InOrder watch
          (record h { emitted = h.emitted ++ (ev ∷ []) })
          (record s { task_queue = s.task_queue ++ (ev ∷ []) })
  emit-InOrder ev free = record {
    tasks =
        ap (λ xs. xs ++ (ev ∷ [])) i.tasks
        ∙ append_assoc (map (λ p. p.0) h.taken) s.task_queue (ev ∷ []);
    state = i.state;
    sent = i.sent;
    made = i.made;
    kept = i.kept;
    merged = i.merged;
    offers = i.offers;
    room = grown-le s.task_queue ev task_capacity free;
    out_room = i.out_room;
  }

  take-InOrder :
      (ev : TaskEvent) (rest : List TaskEvent) (world : Inputs)
      → s.task_queue ≡ ev ∷ rest
      → s.held ≡ none
      → InOrder watch
          (record h { taken = h.taken ++ ((ev, world) ∷ []) })
          (record s {
            task_queue = rest;
            watch = (watch_step s.watch ev world).1;
            held = some ((watch_step s.watch ev world).0);
          })
  take-InOrder ev rest world e free =
      let run = watch_run-snoc watch h.taken ev world in
      record {
        tasks =
            i.tasks
            ∙ ap (λ q. map (λ p. p.0) h.taken ++ q) e
            ∙ sym (append_assoc (map (λ p. p.0) h.taken) (ev ∷ []) rest)
            ∙ ap (λ xs. xs ++ rest) (sym (map-append (λ p. p.0) h.taken ((ev, world) ∷ [])));
        state = ap (λ r. r.1) run ∙ ap (λ w. (watch_step w ev world).1) i.state;
        sent = i.sent;
        made =
            ap (λ r. r.0) run
            ∙ ap₂ (λ xs w. xs ++ ((watch_step w ev world).0 ∷ []))
                (i.made ∙ ap (λ o. i.sent ++ held_list o) free ∙ append-nil i.sent) i.state;
        kept = i.kept;
        merged = i.merged;
        offers = i.offers;
        room = omega (arith, ap length e, i.room);
        out_room = i.out_room;
      }

  pass-InOrder :
      (ce : CloudEvent) (out : Outbox)
      → s.held ≡ some ce
      → forward_event ce s.out ≡ some out
      → InOrder watch h (record s { held = none; out = out })
  unfolding enqueue
  pass-InOrder ce out e sends =
      let (eq, free) = forward_event-sends ce s.out out sends in
      record {
        tasks = i.tasks;
        state = i.state;
        sent = i.sent ++ (ce ∷ []);
        made = i.made ∙ ap (λ o. i.sent ++ held_list o) e ∙ sym (append-nil (i.sent ++ (ce ∷ [])));
        kept = i.kept;
        merged =
            subst (Merges (i.sent ++ (ce ∷ [])) i.kept)
              (sym (accepted-enqueue ce s.out) ∙ ap accepted eq) (Merges-left ce i.merged);
        offers = i.offers;
        room = i.room;
        out_room =
            subst (λ o. length o.queue ≤ capacity) eq (grown-le s.out.queue ce capacity free);
      }

  offer-InOrder :
      (ev : CloudEvent)
      → InOrder watch
          (record h { offered = h.offered ++ (ev ∷ []) })
          (record s { out = offer_event ev s.out })
  unfolding enqueue
  offer-InOrder ev = elim (offer_event-cases ev s.out) [
    | inl (eq, free) ↦ record {
      tasks = i.tasks;
      state = i.state;
      sent = i.sent;
      made = i.made;
      kept = i.kept ++ (ev ∷ []);
      merged =
          subst (Merges i.sent (i.kept ++ (ev ∷ [])))
            (sym (accepted-enqueue ev s.out) ∙ ap accepted (sym eq)) (Merges-right ev i.merged);
      offers = Sublist-snoc ev i.offers;
      room = i.room;
      out_room =
          subst (λ o. length o.queue ≤ capacity) (sym eq) (grown-le s.out.queue ev capacity free);
    }
    | inr eq ↦ record {
      tasks = i.tasks;
      state = i.state;
      sent = i.sent;
      made = i.made;
      kept = i.kept;
      merged = subst (Merges i.sent i.kept) (ap accepted (sym eq)) i.merged;
      offers = Sublist-skip ev i.offers;
      room = i.room;
      out_room = subst (λ o. length o.queue ≤ capacity) (sym eq) i.out_room;
    }
  ]

  publish-InOrder :
      (out : Outbox)
      → take_from s.out.queue s.out.received ≡ some out
      → InOrder watch h (record s { out = out })
  publish-InOrder out e =
      let (ev, eq, er) = take_from-receives s.out.queue s.out.received out e in
      record {
        tasks = i.tasks;
        state = i.state;
        sent = i.sent;
        made = i.made;
        kept = i.kept;
        merged =
            subst (Merges i.sent i.kept)
              (ap (λ q. s.out.received ++ q) eq
                ∙ sym (append_assoc s.out.received (ev ∷ []) out.queue)
                ∙ ap (λ r. r ++ out.queue) (sym er))
              i.merged;
        offers = i.offers;
        room = i.room;
        out_room = omega (arith, ap length eq, i.out_room);
      }

-- In every state that the goroutines reach, whatever their order: `runWatcher` has taken, and its
-- channel still holds, exactly the events that the watcher has sent, in their order; its variables
-- and the events that it has made are those of `watch_run` over what it has taken; and what the
-- publisher has received and `out` holds is an interleaving of the events so made, less the one
-- that is held, and of some that the emitter has offered, both in their order. The two channels
-- keep within their capacities.
pub Reach-InOrder :
    {watch : WatchState} {h : History} {s : Pipeline} → Reach watch h s → InOrder watch h s
Reach-InOrder {watch} start = start-InOrder watch
Reach-InOrder (emit ev free r) = emit-InOrder (Reach-InOrder r) ev free
Reach-InOrder (take ev rest world e free r) = take-InOrder (Reach-InOrder r) ev rest world e free
Reach-InOrder (pass ce out e sends r) = pass-InOrder (Reach-InOrder r) ce out e sends
Reach-InOrder (offer ev r) = offer-InOrder (Reach-InOrder r) ev
Reach-InOrder (publish out e r) = publish-InOrder (Reach-InOrder r) out e
