-- ===== src/ConnManager/Ownership.antt =====
-- Where the connections are that were dialled: cached, or closed.
use go_cluster.Prelude.{
  ℕ, suc, ◌+◌, ◌-◌, ◌⊎◌, Text, ◌==◌, nat_eq, text_is_eq, none, some, List, [], ◌∷◌, ◌++◌, map, ◌≡◌,
  refl, ap, ◌∙◌, arith, if◌then◌else◌, Option-cases, Bool-cases, inl, inr,
}
use go_cluster.GoMap.{GoMap, lookup, insert}
use go_cluster.ConnManager.{Managed, Manager, reuse, install, release, is_idle, evict, tick, close}

-- The cache, and the connections that the dialer has returned.
pub record System : Type 0 where
  pub manager : Manager
  pub dialled : List ℕ

-- The parts of `Get`, a release, a tick of the janitor, and `Close`, whose second call panics and
-- changes nothing.
pub data Action : Type 0 where
  looks : Text → ℕ → Action
  installs : Text → ℕ → ℕ → Action
  releases : Text → ℕ → Action
  ticks : ℕ → Action
  closes : Action

unfoldable pub step : Action → System → System
step (looks t now) s = elim (reuse t now s.manager) [
  | none ↦ s
  | some (cc, m) ↦ record s { manager = m }
]
step (installs t cc now) s = record {
  manager = (install t cc now s.manager).1;
  dialled = cc ∷ s.dialled;
}
step (releases t now) s = record s { manager = release t now s.manager }
step (ticks now) s = record s { manager = tick now s.manager }
step closes s = elim (close s.manager) [ none ↦ s | some m ↦ record s { manager = m } ]

unfoldable pub run : List Action → System → System
run [] s = s
run (a ∷ l) s = run l (step a s)

-- How often a connection is in a list.
abbrev pub count : ℕ → List ℕ → ℕ
count fd [] = 0
count fd (x ∷ l) = (if x == fd then 1 else 0) + count fd l

abbrev pub cached : GoMap Text Managed → List ℕ
cached m = map (λ e. e.1.cc) m

count-append : (fd : ℕ) (l r : List ℕ) → count fd (l ++ r) ≡ count fd l + count fd r
count-append fd [] r = omega arith
count-append fd (x ∷ l) r = omega (arith, count-append fd l r)

-- A new target adds its connection.
count-insert_new :
    (fd : ℕ) (t : Text) (c : Managed) (m : GoMap Text Managed)
    → lookup t m ≡ none
    → count fd (cached (insert t c m)) ≡ (if c.cc == fd then 1 else 0) + count fd (cached m)
unfolding lookup insert
count-insert_new fd t c [] h = refl
count-insert_new fd t c ((a, d) ∷ m) h = ground (arith, count-insert_new fd t c m)

-- The entry of a target with the same connection as before.
count-insert_same :
    (fd : ℕ) (t : Text) (c d : Managed) (m : GoMap Text Managed)
    → lookup t m ≡ some d
    → c.cc ≡ d.cc
    → count fd (cached (insert t c m)) ≡ count fd (cached m)
unfolding lookup insert
count-insert_same fd t c d [] h e = cc
count-insert_same fd t c d ((a, b) ∷ m) h e = ground (arith, count-insert_same fd t c d m)

count-evict :
    (fd now ttl : ℕ) (m : GoMap Text Managed)
    → count fd (cached (evict now ttl m).0) + count fd (evict now ttl m).1 ≡ count fd (cached m)
unfolding evict
count-evict fd now ttl [] = omega arith
count-evict fd now ttl ((a, c) ∷ m) = elim (Bool-cases (is_idle now ttl c)) [
  | inl idle ↦ rw (evict, idle) (omega (arith, count-evict fd now ttl m))
  | inr kept ↦ rw (evict, kept) (omega (arith, count-evict fd now ttl m))
]

-- Every connection is as often in the cache and closed, together, as it was dialled.
pub record IsOwned (s : System) : Type 0 where
  pub at :
      (fd : ℕ) → count fd (cached s.manager.conns) + count fd s.manager.dropped ≡ count fd s.dialled

looks-IsOwned : (t : Text) (now : ℕ) (s : System) → IsOwned s → IsOwned (step (looks t now) s)
unfolding step reuse
looks-IsOwned t now s h = elim (Option-cases (lookup t s.manager.conns)) [
  | inl none_there ↦ rw (step, reuse, none_there) h
  | inr (c, there) ↦
      rw (step, reuse, there)
        (record {
          at = λ fd.
              ap (λ (n : ℕ). n + count fd s.manager.dropped)
                (count-insert_same fd t (record c { ref = suc c.ref; last_used = now }) c
                  s.manager.conns there refl)
              ∙ h.at fd;
        })
]

installs-IsOwned :
    (t : Text) (new now : ℕ) (s : System) → IsOwned s → IsOwned (step (installs t new now) s)
unfolding step install reuse
installs-IsOwned t new now s h = elim (Option-cases (lookup t s.manager.conns)) [
  | inl none_there ↦
      rw (step, install, reuse, none_there)
        (record {
          at = λ fd. omega (
            arith,
            h.at fd,
            count-insert_new fd t (record { cc = new; last_used = now; ref = 1 }) s.manager.conns
                none_there,
          );
        })
  | inr (c, there) ↦
      rw (step, install, reuse, there)
        (record {
          at = λ fd. omega (
            arith,
            h.at fd,
            count-insert_same fd t (record c { ref = suc c.ref; last_used = now }) c s.manager.conns
                there refl,
          );
        })
]

releases-IsOwned : (t : Text) (now : ℕ) (s : System) → IsOwned s → IsOwned (step (releases t now) s)
unfolding step release
releases-IsOwned t now s h = elim (Option-cases (lookup t s.manager.conns)) [
  | inl none_there ↦ rw (step, release, none_there) h
  | inr (c, there) ↦
      rw (step, release, there)
        (record {
          at = λ fd.
              ap (λ (n : ℕ). n + count fd s.manager.dropped)
                (count-insert_same fd t (record c { ref = c.ref - 1; last_used = now }) c
                  s.manager.conns there refl)
              ∙ h.at fd;
        })
]

step-IsOwned : (a : Action) (s : System) → IsOwned s → IsOwned (step a s)
unfolding step tick close
step-IsOwned (looks t now) s h = looks-IsOwned t now s h
step-IsOwned (installs t new now) s h = installs-IsOwned t new now s h
step-IsOwned (releases t now) s h = releases-IsOwned t now s h
step-IsOwned (ticks now) s h = record {
  at = λ fd. omega (
    arith,
    h.at fd,
    count-evict fd now s.manager.ttl s.manager.conns,
    count-append fd (evict now s.manager.ttl s.manager.conns).1 s.manager.dropped,
  );
}
step-IsOwned closes s h = elim (Bool-cases s.manager.closing) [
  | inl again ↦ rw (step, close, again) h
  | inr first ↦
      rw (step, close, first)
        (record {
          at = λ fd.
              omega (arith, h.at fd, count-append fd (cached s.manager.conns) s.manager.dropped);
        })
]

run-keeps_IsOwned : (l : List Action) (s : System) → IsOwned s → IsOwned (run l s)
unfolding run
run-keeps_IsOwned [] s h = h
run-keeps_IsOwned (a ∷ l) s h = run-keeps_IsOwned l (step a s) (step-IsOwned a s h)

-- However lookups, new connections, releases, ticks of the janitor and `Close` interleave, with any
-- times, also where they come after `Close`: a connection that the dialer returned once is cached
-- once, or was closed once, and never both.
pub run-owned :
    (l : List Action) (s : System) (fd : ℕ)
    → IsOwned s
    → count fd (run l s).dialled ≡ 1
    → ((count fd (cached (run l s).manager.conns) ≡ 1) × (count fd (run l s).manager.dropped ≡ 0))
      ⊎ ((count fd (cached (run l s).manager.conns) ≡ 0) × (count fd (run l s).manager.dropped ≡ 1))
run-owned l s fd h once = ground (arith, (run-keeps_IsOwned l s h).at fd)
