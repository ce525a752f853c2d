-- ===== src/EventBus/Delivery.antt =====
-- What `publish` does to each channel.
use go_cluster.Prelude.{
  ℕ, nat_eq, ◌==◌, eqb_iff, Bool, true, false, Option, none, some, [], ◌∷◌, ◌≡◌, refl, ◌∙◌, arith,
  if◌then◌else◌,
}
use go_cluster.GoMap.{GoMap, lookup, insert, has, lookup-insert}
use go_cluster.GoMap.Unique.{IsUnique}
use go_cluster.Channel.{Chan, pushed, offer}
use go_cluster.EventBus.{Event, Bus, send, send_all, publish}

-- Every channel of the bus exists and is open.
abbrev pub AllOpen : GoMap ℕ (Unit {0}) → GoMap ℕ (Chan Event) → Type 0
AllOpen subs chans =
    (ch : ℕ)
    → has ch subs ≡ true
    → (c : Chan Event) × (lookup ch chans ≡ some c) × (c.closed ≡ false)

pub record IsOpen (b : Bus) : Type 0 where
  pub unique : IsUnique b.subs
  pub opened : AllOpen b.subs b.chans

-- The channel `ch` after a publication.
abbrev pub received : Event → Bool → Option (Chan Event) → Option (Chan Event)
received ev registered none = none
received ev registered (some c) = some (if registered then pushed ev c else c)

send_lem :
    (ev : Event) (ch : ℕ) (chans : GoMap ℕ (Chan Event)) (c : Chan Event)
    → lookup ch chans ≡ some c
    → c.closed ≡ false
    → send ev ch chans ≡ some (insert ch (pushed ev c) chans)
unfolding send offer pushed
send_lem ev ch chans c found opened = ground arith

pub pushed-closed : (ev : Event) (c : Chan Event) → (pushed ev c).closed ≡ c.closed
unfolding pushed
pushed-closed ev c = ground arith

rest_open :
    (ev : Event) (ch : ℕ) (subs : GoMap ℕ (Unit {0})) (chans : GoMap ℕ (Chan Event))
    (c : Chan Event)
    → lookup ch chans ≡ some c
    → c.closed ≡ false
    → AllOpen ((ch, tt) ∷ subs) chans
    → AllOpen subs (insert ch (pushed ev c) chans)
unfolding lookup
rest_open ev ch subs chans c found shut h j on =
    let (d, there, opened) = h j (ground (arith, eqb_iff ch j)) in
    (
      if ch == j then pushed ev c else d,
      ground (arith, lookup-insert ch j (pushed ev c) chans),
      ground (arith, pushed-closed ev c),
    )

received_step :
    (ev : Event) (ch j : ℕ) (subs : GoMap ℕ (Unit {0})) (chans : GoMap ℕ (Chan Event))
    (c : Chan Event)
    → lookup ch chans ≡ some c
    → lookup ch subs ≡ none
    → received ev (has j subs) (lookup j (insert ch (pushed ev c) chans))
      ≡ received ev (has j ((ch, tt) ∷ subs)) (lookup j chans)
unfolding lookup
received_step ev ch j subs chans c found fresh =
    ground (arith, lookup-insert ch j (pushed ev c) chans, eqb_iff ch j)

received_none : (ev : Event) (o : Option (Chan Event)) → o ≡ received ev false o
received_none ev none = refl
received_none ev (some c) = refl

-- The loop reaches every channel of the bus once, and no other.
send_all_lem :
    (ev : Event) (subs : GoMap ℕ (Unit {0})) (chans : GoMap ℕ (Chan Event))
    → IsUnique subs
    → AllOpen subs chans
    → (chans' : GoMap ℕ (Chan Event)) × (send_all ev subs chans ≡ some chans')
      × ((ch : ℕ) → lookup ch chans' ≡ received ev (has ch subs) (lookup ch chans))
unfolding send_all lookup
send_all_lem ev [] chans u h = (chans, refl, λ ch. received_none ev (lookup ch chans))
send_all_lem ev ((ch, on) ∷ subs) chans (fresh, u) h =
    let (c, found, opened) = h ch (ground (arith, eqb_iff ch ch)) in
    let (chans', ran, each) =
      send_all_lem ev subs (insert ch (pushed ev c) chans) u
        (rest_open ev ch subs chans c found opened h) in
    (
      chans',
      rw (send_lem ev ch chans c found opened, send_all) ran,
      λ j. each j ∙ received_step ev ch j subs chans c found fresh,
    )

-- On a bus whose channels are open, a publication does not panic. Each registered channel with
-- room has the event at the end of its buffer, a full one is left as it is, and a channel that
-- is not registered is not touched.
pub publish-received :
    (ev : Event) (b : Bus)
    → IsOpen b
    → (b' : Bus) × (publish ev b ≡ some b')
      × (b'.subs ≡ b.subs)
      × ((ch : ℕ) → lookup ch b'.chans ≡ received ev (has ch b.subs) (lookup ch b.chans))
unfolding publish
publish-received ev b h =
    let (chans, ran, each) = send_all_lem ev b.subs b.chans h.unique h.opened in
    (record b { chans = chans }, rw (ran, publish) refl, refl, each)
