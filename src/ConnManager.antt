-- ===== src/ConnManager.antt =====
-- pkg/transport/grpc/connmgr.go: the cache of client connections. A connection is known by a
-- number, the clock is a number too, and each part under the mutex is one step. Metrics are left
-- out; `dropped` lists the connections that were closed.
pub mod Counting
pub mod Ownership
mod Tests
use go_cluster.Prelude.{
  ℕ, suc, ◌+◌, ◌-◌, Text, ◌==◌, nat_eq, text_is_eq, Bool, true, false, ◌&&◌, Option, none, some,
  List, [], ◌∷◌, ◌++◌, map, if◌then◌else◌, ltb,
}
use go_cluster.Prelude.Int.{ℤ, pos, negsuc, ltb_ℤ}
use go_cluster.Result.{Result, ok, err}
use go_cluster.GoMap.{GoMap, lookup, insert}

pub record Managed : Type 0 where
  pub cc : ℕ
  pub last_used : ℕ
  pub ref : ℕ

pub record Manager : Type 0 where
  pub ttl : ℕ
  pub conns : GoMap Text Managed
  pub closing : Bool
  pub dropped : List ℕ

-- `NewConnManager`: thirty seconds, in nanoseconds, unless the TTL is positive.
unfoldable pub new : ℤ → Manager
new ttl = record {
  ttl = elim ttl [ pos n ↦ (if n == 0 then 30000000000 else n) | negsuc n ↦ 30000000000 ];
  conns = [];
  closing = false;
  dropped = [];
}

-- The first part of `Get`: the cached connection with one more reference.
unfoldable pub reuse : Text → ℕ → Manager → Option (ℕ × Manager)
reuse target now m = elim (lookup target m.conns) [
  | none ↦ none
  | some c ↦ some (
    c.cc,
    record m { conns = insert target (record c { ref = suc c.ref; last_used = now }) m.conns },
  )
]

-- The last part of `Get`, once `cc` is dialled: another goroutine may have stored one since.
unfoldable pub install : Text → ℕ → ℕ → Manager → ℕ × Manager
unfolding reuse
install target cc now m = elim (reuse target now m) [
  | some (old, m') ↦ (old, record m' { dropped = cc ∷ m'.dropped })
  | none ↦ (
    cc,
    record m { conns = insert target (record { cc = cc; last_used = now; ref = 1 }) m.conns },
  )
]

-- `Get`, when nothing comes between its parts; `dialled` is what the dialer returns.
unfoldable pub get : Text → Result ℕ → ℕ → Manager → Result ℕ × Manager
unfolding install
get target dialled now m = elim (reuse target now m) [
  | some (cc, m') ↦ (ok cc, m')
  | none ↦ (elim dialled [
    | err e ↦ (err e, m)
    | ok cc ↦ (let (c, m') = install target cc now m in (ok c, m'))
  ])
]

-- `release`; the subtraction stops at zero, as the source's test does.
unfoldable pub release : Text → ℕ → Manager → Manager
release target now m = elim (lookup target m.conns) [
  | none ↦ m
  | some c ↦ record m {
    conns = insert target (record c { ref = c.ref - 1; last_used = now }) m.conns;
  }
]

-- `mc.ref == 0 && mc.lastUsed.Before(cutoff)`, the cutoff a TTL before now.
unfoldable pub is_idle : ℕ → ℕ → Managed → Bool
is_idle now ttl c = c.ref == 0 && ltb (c.last_used + ttl) now

-- The loop of one tick of `janitor`: what stays, and what it closes.
unfoldable pub evict : ℕ → ℕ → GoMap Text Managed → GoMap Text Managed × List ℕ
unfolding is_idle
evict now ttl [] = ([], [])
evict now ttl ((addr, c) ∷ rest) =
    let (kept, gone) = evict now ttl rest in
    if is_idle now ttl c then (kept, c.cc ∷ gone) else ((addr, c) ∷ kept, gone)

unfoldable pub tick : ℕ → Manager → Manager
unfolding evict
tick now m =
    let (kept, gone) = evict now m.ttl m.conns in
    record m { conns = kept; dropped = gone ++ m.dropped }

-- `Close`; `none` is the panic of a second close.
unfoldable pub close : Manager → Option Manager
close m =
    if m.closing
    then none
    else some
        (record m { closing = true; conns = []; dropped = map (λ e. e.1.cc) m.conns ++ m.dropped })
