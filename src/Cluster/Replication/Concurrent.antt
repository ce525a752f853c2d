-- ===== src/Cluster/Replication/Concurrent.antt =====
-- Publishers of one topic that overlap: `Publish` tests the window before it takes the mutex, so
-- several may pass the test before one of them stores its message.
use go_cluster.Prelude.{
  ℕ, zero, suc, ◌+◌, ◌-◌, ◌^◌, ◌≤◌, ◌<◌, Text, ◌==◌, nat_eq, text_is_eq, text_eq_iff, ◌≡◌, refl,
  ◌∙◌, true, ◌&&◌, List, [], ◌∷◌, arith, if◌then◌else◌, Bool-cases, inl, inr, ltb, length,
}
use go_cluster.Prelude.Int.{pos, positive_or, inc_u64}
use go_cluster.Cluster.World.{Rep}
use go_cluster.Cluster.Disk.Restored.{last_seq}
use go_cluster.Cluster.Replication.{has_room, store_message}
use go_cluster.Cluster.Replication.Storing.{has_room_lem, last_seq-store_message}

-- The sequence numbers and the buffer, what `AckedAll` says of the topic, and how many publishers
-- have passed the test and not stored their message.
pub record System : Type 0 where
  pub rep : Rep
  pub acked : ℕ
  pub passed : ℕ

-- A publisher tests the window, a publisher that has passed stores its message, or acknowledgements
-- arrive.
pub data Action : Type 0 where
  tests : Action
  stores : Text → Action
  acknowledges : ℕ → Action

-- `publishers` of the topic run at a time. `AckedAll` may say anything afterwards, also less than
-- before or more than the last number.
unfoldable pub step : ℕ → ℕ → Text → Action → System → System
step window publishers topic tests s =
    if ltb s.passed publishers && has_room (pos window) (last_seq topic s.rep) s.acked
    then record s { passed = suc s.passed }
    else s
step window publishers topic (stores body) s =
    if s.passed == 0
    then s
    else record s { rep = (store_message topic body s.rep).1; passed = s.passed - 1 }
step window publishers topic (acknowledges v) s = record s { acked = v }

unfoldable pub run : ℕ → ℕ → Text → List Action → System → System
unfolding step
run window publishers topic [] s = s
run window publishers topic (a ∷ l) s =
    run window publishers topic l (step window publishers topic a s)

-- An acknowledgement does not go back, and not beyond the last number.
abbrev pub IsForward : Text → Action → System → Type 0
IsForward topic (acknowledges v) s = (s.acked ≤ v) × (v ≤ last_seq topic s.rep)
IsForward topic tests s = Unit
IsForward topic (stores body) s = Unit

-- All acknowledgements of a run go forward.
abbrev pub AllForward : ℕ → ℕ → Text → List Action → System → Type 0
AllForward window publishers topic [] s = Unit
AllForward window publishers topic (a ∷ l) s =
    IsForward topic a s × AllForward window publishers topic l (step window publishers topic a s)

module _ (window publishers : ℕ) (topic : Text) where
  -- The messages that are not acknowledged, with those about to be stored, are fewer than the window
  -- and the publishers together.
  pub record IsBounded (s : System) : Type 0 where
    pub behind : s.acked ≤ last_seq topic s.rep
    pub bounded :
        last_seq topic s.rep + s.passed < s.acked + positive_or 1024 (pos window) + publishers

  room_lem :
      (cur acked : ℕ)
      → acked ≤ cur
      → cur < 2 ^ 63
      → has_room (pos window) cur acked ≡ true
      → cur < acked + positive_or 1024 (pos window)
  room_lem cur acked le small h = go window (has_room_lem window cur acked _ le small refl) h
    where
      go :
          (n : ℕ)
          → has_room (pos window) cur acked ≡ ltb (cur - acked) (if ltb 0 n then n else 1024)
          → has_room (pos window) cur acked ≡ true
          → cur < acked + positive_or 1024 (pos n)
      go zero e h = ground (arith, e, h)
      go (suc n) e h = ground (arith, e, h)

  -- What a step leaves: the bound, and a number that is at most one more.
  abbrev pub IsKept : System → System → Type 0
  IsKept s t = IsBounded t × (last_seq topic t.rep ≤ last_seq topic s.rep + 1)

  same-IsKept : (s : System) → IsBounded s → IsKept s s
  same-IsKept s h = (h, omega arith)

  tests-IsKept :
      (s : System)
      → last_seq topic s.rep + 1 < 2 ^ 63
      → IsBounded s
      → IsKept s (step window publishers topic tests s)
  unfolding step
  tests-IsKept s small h =
      elim (Bool-cases
        (ltb s.passed publishers && has_room (pos window) (last_seq topic s.rep) s.acked)) [
          | inr e ↦ rw (step, e) (same-IsKept s h)
          | inl e ↦
              let has : has_room (pos window) (last_seq topic s.rep) s.acked ≡ true =
                ground (arith, e) in
              let free : s.passed < publishers = ground (arith, e) in
              let few = room_lem (last_seq topic s.rep) s.acked h.behind (omega arith) has in
              rw (step, e)
                (record { behind = h.behind; bounded = omega (arith, few, free) }, omega arith)
        ]

  stores-IsKept :
      (body : Text) (s : System)
      → last_seq topic s.rep + 1 < 2 ^ 63
      → IsBounded s
      → IsKept s (step window publishers topic (stores body) s)
  unfolding step inc_u64
  stores-IsKept body s small h = elim (Bool-cases (s.passed == 0)) [
    | inl e ↦ rw (step, e) (same-IsKept s h)
    | inr e ↦
        let next : last_seq topic (store_message topic body s.rep).1 ≡ last_seq topic s.rep + 1 =
          last_seq-store_message topic topic body s.rep ∙ ground (arith, text_eq_iff topic topic) in
        let some_passed : 0 < s.passed = ground (arith, e) in
        rw (step, e)
          (
            record {
              behind = omega (arith, next, h.behind);
              bounded = omega (arith, next, some_passed, h.bounded);
            },
            omega (arith, next),
          )
  ]

  acknowledges-IsKept :
      (v : ℕ) (s : System)
      → IsForward topic (acknowledges v) s
      → IsBounded s
      → IsKept s (step window publishers topic (acknowledges v) s)
  unfolding step
  acknowledges-IsKept v s (up, low) h =
      (record { behind = low; bounded = omega (arith, up, h.bounded) }, omega arith)

  step-IsKept :
      (a : Action) (s : System)
      → last_seq topic s.rep + 1 < 2 ^ 63
      → IsForward topic a s
      → IsBounded s
      → IsKept s (step window publishers topic a s)
  step-IsKept tests s small forward h = tests-IsKept s small h
  step-IsKept (stores body) s small forward h = stores-IsKept body s small h
  step-IsKept (acknowledges v) s small forward h = acknowledges-IsKept v s forward h

  -- However publishers of a topic overlap, with each other and with acknowledgements, where these
  -- never go back and never go beyond the last number: the messages that are not acknowledged, with
  -- those that a publisher is about to store, stay fewer than the window and the number of publishers
  -- together, if they are so at the start and the sequence number stays below 2^63. A window of zero
  -- stands for 1024.
  pub run-IsBounded :
      (l : List Action) (s : System)
      → last_seq topic s.rep + length l + 1 < 2 ^ 63
      → AllForward window publishers topic l s
      → IsBounded s
      → IsBounded (run window publishers topic l s)
  unfolding run
  run-IsBounded [] s small forward h = h
  run-IsBounded (a ∷ l) s small (here, forward) h =
      let (k, up) = step-IsKept a s (omega arith) here h in
      run-IsBounded l (step window publishers topic a s) (omega (arith, up)) forward k
