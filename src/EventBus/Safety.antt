-- ===== src/EventBus/Safety.antt =====
-- Subscriptions, cancellations and publications in any order: no send on a closed channel, and no
-- channel is closed twice.
use go_cluster.Prelude.{
  ℕ, suc, ◌<◌, nat_eq, ◌==◌, eqb_iff, Bool, true, false, some, List, [], ◌∷◌, ◌≡◌, refl, arith,
  if◌then◌else◌, Bool-cases, inl, inr,
}
use go_cluster.GoMap.{GoMap, lookup, insert, delete, has, lookup-insert, lookup-delete}
use go_cluster.GoMap.Unique.{IsUnique, insert-IsUnique, delete-IsUnique}
use go_cluster.Channel.{Chan, make, close, pushed}
use go_cluster.EventBus.{Event, Bus, subscribe, remove, close_chan, publish}
use go_cluster.EventBus.Delivery.{AllOpen, publish-received, pushed-closed, received}
use go_cluster.EventBus.Interleaving.{
  System, start, Action, step, run, subscribes, cancels, closes, publishes,
}

pub record IsSafe (s : System) : Type 0 where
  pub unique : IsUnique s.bus.subs
  pub registered : AllOpen s.bus.subs s.bus.chans
  pub pending : AllOpen s.closing s.bus.chans
  pub apart : (ch : ℕ) → has ch s.closing ≡ true → has ch s.bus.subs ≡ false
  pub below : (ch : ℕ) → has ch s.bus.subs ≡ true → ch < s.next
  pub fresh : (ch : ℕ) → has ch s.closing ≡ true → ch < s.next

pub start-IsSafe : IsSafe start
unfolding lookup
start-IsSafe = record {
  unique = tt;
  registered = λ ch h. absurd (ground arith);
  pending = λ ch h. absurd (ground arith);
  apart = λ ch h. absurd (ground arith);
  below = λ ch h. absurd (ground arith);
  fresh = λ ch h. absurd (ground arith);
}

-- A channel that stays as it was, or is open and pushed to, stays open.
AllOpen-received :
    (ev : Event) (on : ℕ → Bool) (subs : GoMap ℕ (Unit {0})) (chans chans' : GoMap ℕ (Chan Event))
    → ((ch : ℕ) → lookup ch chans' ≡ received ev (on ch) (lookup ch chans))
    → AllOpen subs chans
    → AllOpen subs chans'
AllOpen-received ev on subs chans chans' each h ch inside =
    let (c, there, opened) = h ch inside in
    (if on ch then pushed ev c else c, ground (arith, each ch), ground (arith, pushed-closed ev c))

-- A new channel is open, and the others are as they were.
AllOpen-insert-make :
    (ch : ℕ) (subs : GoMap ℕ (Unit {0})) (chans : GoMap ℕ (Chan Event))
    → AllOpen subs chans
    → AllOpen subs (insert ch (make 64) chans)
unfolding make
AllOpen-insert-make ch subs chans h j inside =
    let (c, there, opened) = h j inside in
    (
      if ch == j then make 64 else c,
      ground (arith, lookup-insert ch j (make 64) chans),
      ground arith,
    )

subscribe-IsSafe :
    (s : System) → IsSafe s → IsSafe (record s { bus = subscribe s.next s.bus; next = suc s.next })
unfolding subscribe
subscribe-IsSafe s h = record {
  unique = insert-IsUnique s.next tt s.bus.subs h.unique;
  registered = λ j inside. elim (Bool-cases (s.next == j)) [
    | inl e ↦
        (make 64, ground (arith, lookup-insert s.next j (make 64) s.bus.chans), unfold make in refl)
    | inr ne ↦
        AllOpen-insert-make s.next s.bus.subs s.bus.chans h.registered j
          (ground (arith, lookup-insert s.next j tt s.bus.subs))
  ];
  pending = AllOpen-insert-make s.next s.closing s.bus.chans h.pending;
  apart = λ j inside. ground (arith, lookup-insert s.next j tt s.bus.subs, h.apart j, h.fresh j);
  below = λ j inside. ground (arith, lookup-insert s.next j tt s.bus.subs, h.below j);
  fresh = λ j inside. ground (arith, h.fresh j);
}

cancel-IsSafe :
    (ch : ℕ) (s : System)
    → IsSafe s
    → has ch s.bus.subs ≡ true
    → IsSafe (record s { bus = remove ch s.bus; closing = insert ch tt s.closing })
unfolding remove
cancel-IsSafe ch s h on = record {
  unique = delete-IsUnique ch s.bus.subs h.unique;
  registered = λ j inside. h.registered j (ground (arith, lookup-delete ch j s.bus.subs));
  pending = λ j inside. elim (Bool-cases (ch == j)) [
    | inl e ↦ h.registered j (ground (arith, eqb_iff ch j))
    | inr ne ↦ h.pending j (ground (arith, lookup-insert ch j tt s.closing))
  ];
  apart = λ j inside.
      ground (arith, lookup-insert ch j tt s.closing, lookup-delete ch j s.bus.subs, h.apart j);
  below = λ j inside. h.below j (ground (arith, lookup-delete ch j s.bus.subs));
  fresh = λ j inside.
      ground (arith, eqb_iff ch j, lookup-insert ch j tt s.closing, h.fresh j, h.below j);
}

-- Closing a channel leaves the others as they were.
AllOpen-close :
    (ch : ℕ) (subs : GoMap ℕ (Unit {0})) (chans : GoMap ℕ (Chan Event)) (c : Chan Event)
    → has ch subs ≡ false
    → AllOpen subs chans
    → AllOpen subs (insert ch c chans)
AllOpen-close ch subs chans c off h j inside =
    let (d, there, opened) = h j inside in
    (d, ground (arith, eqb_iff ch j, lookup-insert ch j c chans), opened)

close-IsSafe :
    (ch : ℕ) (s : System)
    → IsSafe s
    → has ch s.closing ≡ true
    → (b : Bus) × (close_chan ch s.bus ≡ some b)
      × IsSafe (record s { bus = b; closing = delete ch s.closing })
unfolding close_chan close
close-IsSafe ch s h on =
    let (c, there, opened) = h.pending ch on in
    let shut : Chan Event = record c { closed = true } in
    let off : has ch (delete ch s.closing) ≡ false =
      ground (arith, lookup-delete ch ch s.closing) in
    let others : AllOpen (delete ch s.closing) s.bus.chans =
      λ j inside. h.pending j (ground (arith, lookup-delete ch j s.closing)) in
    (
      record s.bus { chans = insert ch shut s.bus.chans },
      ground arith,
      record {
        unique = h.unique;
        registered = AllOpen-close ch s.bus.subs s.bus.chans shut (h.apart ch on) h.registered;
        pending = AllOpen-close ch (delete ch s.closing) s.bus.chans shut off others;
        apart = λ j inside. h.apart j (ground (arith, lookup-delete ch j s.closing));
        below = h.below;
        fresh = λ j inside. h.fresh j (ground (arith, lookup-delete ch j s.closing));
      },
    )

publish-IsSafe :
    (ev : Event) (s : System)
    → IsSafe s
    → (b : Bus) × (publish ev s.bus ≡ some b) × IsSafe (record s { bus = b })
publish-IsSafe ev s h =
    let (b, ran, same, each) =
      publish-received ev s.bus (record { unique = h.unique; opened = h.registered }) in
    let on : ℕ → Bool = λ ch. has ch s.bus.subs in
    (
      b,
      ran,
      record {
        unique = rw same h.unique;
        registered =
            rw same (AllOpen-received ev on s.bus.subs s.bus.chans b.chans each h.registered);
        pending = AllOpen-received ev on s.closing s.bus.chans b.chans each h.pending;
        apart = rw same h.apart;
        below = rw same h.below;
        fresh = h.fresh;
      },
    )

step-IsSafe :
    (a : Action) (s : System) → IsSafe s → (s' : System) × (step a s ≡ some s') × IsSafe s'
unfolding step
step-IsSafe subscribes s h =
    (record s { bus = subscribe s.next s.bus; next = suc s.next }, refl, subscribe-IsSafe s h)
step-IsSafe (cancels ch) s h = elim (Bool-cases (has ch s.bus.subs)) [
  | inl on ↦ (
    record s { bus = remove ch s.bus; closing = insert ch tt s.closing },
    rw (on, step) refl,
    cancel-IsSafe ch s h on,
  )
  | inr off ↦ (s, rw (off, step) refl, h)
]
step-IsSafe (closes ch) s h = elim (Bool-cases (has ch s.closing)) [
  | inl on ↦
      let (b, ran, safe) = close-IsSafe ch s h on in
      (record s { bus = b; closing = delete ch s.closing }, ground arith, safe)
  | inr off ↦ (s, rw (off, step) refl, h)
]
step-IsSafe (publishes ev) s h =
    let (b, ran, safe) = publish-IsSafe ev s h in (record s { bus = b }, ground arith, safe)

-- From a safe state, as the empty bus is, whatever the order of subscriptions, cancellations and
-- publications of any number of goroutines, there is no panic (nothing is sent on a closed channel,
-- and no channel is closed twice), and the state is safe again.
pub run-IsSafe :
    (l : List Action) (s : System) → IsSafe s → (s' : System) × (run l s ≡ some s') × IsSafe s'
unfolding run
run-IsSafe [] s h = (s, refl, h)
run-IsSafe (a ∷ l) s h =
    let (s1, stepped, h1) = step-IsSafe a s h in
    let (s2, ran, h2) = run-IsSafe l s1 h1 in (s2, rw (stepped, run) ran, h2)
