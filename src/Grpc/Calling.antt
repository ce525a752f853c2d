-- ===== src/Grpc/Calling.antt =====
-- What calls leave of the connections, and what a failure on the server is for the client.
use go_cluster.Prelude.{
  ℕ, suc, ◌-◌, Text, ◌==◌, nat_eq, text_is_eq, text_eq_iff, is_empty, ◌≡◌, refl, sym, ap, ◌∙◌,
  false, none, some, List, [], ◌∷◌, arith, if◌then◌else◌, Option-cases, inl, inr, ◌⊎◌,
}
use go_cluster.Result.{Result, ok, err, Error, Result-cases}
use go_cluster.Transport.{AppWriteRequest, AppWriteResponse}
use go_cluster.GoMap.{lookup, insert, lookup-insert}
use go_cluster.ConnManager.{Managed, Manager, reuse, install, get, release}
use go_cluster.ConnManager.Counting.{ref_of}
use go_cluster.Grpc.Client.{
  Client, Call, manager, get_conn, call_managed, call_dialled, post_app_write,
}
use go_cluster.Grpc.Management.{Mgmt, app_write, handle, handle_app_write, refused_write}

-- The references to the connection of a target.
abbrev pub refs : Text → Manager → ℕ
refs t m = ref_of (lookup t m.conns)

install_fresh :
    (addr : Text) (fd now : ℕ) (m : Manager)
    → lookup addr m.conns ≡ none
    → install addr fd now m ≡ (
      fd,
      record m { conns = insert addr (record { cc = fd; last_used = now; ref = 1 }) m.conns },
    )
unfolding install reuse
install_fresh addr fd now m e = rw (install, reuse, e) refl

-- `Get` fails and changes nothing, or the connection stands in the cache with one reference more.
get_outcome :
    (addr : Text) (dialled : Result ℕ) (now : ℕ) (m : Manager)
    → ((x : Text) × (get addr dialled now m ≡ (err x, m)))
      ⊎ ((fd : ℕ) × (c : Managed) × (dropped : List ℕ) × (get addr dialled now m
            ≡ (ok fd, record m { conns = insert addr c m.conns; dropped = dropped }))
          × (c.ref ≡ suc (refs addr m)))
unfolding get install reuse
get_outcome addr dialled now m = elim (Option-cases (lookup addr m.conns)) [
  | inr (c, e) ↦ inr (
    c.cc,
    record c { ref = suc c.ref; last_used = now },
    m.dropped,
    rw (get, reuse, e) refl,
    ap suc (sym (ap ref_of e)),
  )
  | inl e ↦ elim (Result-cases dialled) [
    | inr (x, f) ↦ inl (x, rw (get, reuse, e, f) refl)
    | inl (fd, f) ↦ inr (
      fd,
      record { cc = fd; last_used = now; ref = 1 },
      m.dropped,
      rw (get, reuse, e, f) (ap (λ p. (ok p.0, p.1)) (install_fresh addr fd now m e)),
      ap suc (sym (ap ref_of e)),
    )
  ]
]

-- A target that is not cached is dialled.
pub get_dialled :
    (addr : Text) (dialled : Result ℕ) (now fd : ℕ) (m : Manager)
    → lookup addr m.conns ≡ none
    → dialled ≡ ok fd
    → get addr dialled now m ≡ (
      ok fd,
      record m { conns = insert addr (record { cc = fd; last_used = now; ref = 1 }) m.conns },
    )
unfolding get reuse
get_dialled addr dialled now fd m fresh e =
    rw (get, reuse, fresh, e) (ap (λ p. (ok p.0, p.1)) (install_fresh addr fd now m fresh))

refs-release :
    (t addr : Text) (later : ℕ) (m : Manager)
    → refs t (release addr later m) ≡ (if addr == t then refs t m - 1 else refs t m)
unfolding release
refs-release t addr later m = elim (Option-cases (lookup addr m.conns)) [
  | inl e ↦ rw (release, e) (ground (arith, text_eq_iff addr t, ap ref_of e))
  | inr (c, e) ↦
      rw (release, e)
        (ground (
          arith,
          lookup-insert addr t (record c { ref = c.ref - 1; last_used = later }) m.conns,
          text_eq_iff addr t,
          ap ref_of e,
        ))
]

-- What a call does with the result of `Get`.
abbrev pub with_conn :
    {Req R : Type 0}
    → R
    → Call Req R
    → Text
    → Req
    → Client
    → Result ℕ × Manager
    → (R × Error) × Client
with_conn zero_value w addr req c (err e, m) = ((zero_value, some e), record c { cm = some m })
with_conn zero_value w addr req c (ok fd, m) =
    (w.invoke fd req, record c { cm = some (release addr w.later m) })

pub call_managed-get :
    {Req R : Type 0} (zero_value : R) (w : Call Req R) (addr : Text) (req : Req) (c : Client)
    → call_managed zero_value w addr req c
      ≡ with_conn zero_value w addr req c (get addr w.dialled w.now (manager c))
unfolding call_managed get_conn
call_managed-get zero_value w addr req c =
    elim (Result-cases (get addr w.dialled w.now (manager c)).0) [
      | inl (fd, e) ↦ rw (call_managed, get_conn, with_conn, e) refl
      | inr (x, e) ↦ rw (call_managed, get_conn, with_conn, e) refl
    ]

-- A call that gets a connection and releases it at the end leaves the references to the connection of
-- every target as they were, whether the dial or the call fails or both succeed.
pub refs-call_managed :
    {Req R : Type 0} (zero_value : R) (w : Call Req R) (addr : Text) (req : Req) (c : Client)
    (t : Text)
    → refs t (manager (call_managed zero_value w addr req c).1) ≡ refs t (manager c)
refs-call_managed zero_value w addr req c t =
    ap (λ r. refs t (manager r.1)) (call_managed-get zero_value w addr req c)
    ∙ elim (get_outcome addr w.dialled w.now (manager c)) [
      | inl (x, e) ↦ ap (λ g. refs t (manager (with_conn zero_value w addr req c g).1)) e
      | inr (fd, n, dropped, e, one_more) ↦
          let m = record (manager c) {
            conns = insert addr n (manager c).conns;
            dropped = dropped;
          } in
          ap (λ g. refs t (manager (with_conn zero_value w addr req c g).1)) e
          ∙ refs-release t addr w.later m
          ∙ ground (arith, lookup-insert addr t n (manager c).conns, text_eq_iff addr t, one_more)
    ]

-- What the client gets back from a write: the response, and an error where its field is set.
abbrev pub write_result : (Text → Text) → AppWriteResponse → AppWriteResponse × Error
write_result errorf r = if is_empty r.error then (r, none) else (r, some (errorf r.error))

-- `Invoke` of a write on a connection: the handler of the service on a state, the request and the
-- response unchanged on the way; `before` is what the response held.
abbrev pub delivered :
    {S : Type 0} → Mgmt S → S → AppWriteResponse → ℕ → AppWriteRequest → AppWriteResponse × Error
delivered m s before fd req = elim (handle_app_write m (ok req) none s).0 [
  | ok r ↦ (r, none)
  | err e ↦ (before, some e)
]

delivered_outcome :
    {S : Type 0} (m : Mgmt S) (s : S) (before : AppWriteResponse) (fd : ℕ) (req : AppWriteRequest)
    (f : AppWriteRequest → S → Result AppWriteResponse × S)
    → m.app_write ≡ some f
    → delivered m s before fd req
      ≡ (elim (f req s).0 [ ok r ↦ (r, none) | err x ↦ (refused_write x, none) ])
unfolding handle_app_write app_write handle
delivered_outcome m s before fd req f has = elim (Result-cases (f req s).0) [
  | inl (r, e) ↦ rw (delivered, handle_app_write, has, e) refl
  | inr (x, e) ↦ rw (delivered, handle_app_write, has, e) refl
]

post_app_write-invoke :
    (errorf : Text → Text) (w : Call AppWriteRequest AppWriteResponse) (req : AppWriteRequest)
    (fd : ℕ) (r : AppWriteResponse)
    → w.dialled ≡ ok fd
    → w.invoke fd req ≡ (r, none)
    → post_app_write errorf w req ≡ (write_result errorf r, fd ∷ [])
unfolding post_app_write call_dialled
post_app_write-invoke errorf w req fd r dial e =
    rw (post_app_write, call_dialled, dial, ap (λ p. p.1) e, ap (λ p. p.0) e) refl

-- A write over a connection that is dialled and carries the request and the response succeeds where
-- the function on the server succeeds with an empty error field, and its response is the function's.
-- A failure of the function, with a message, is an error with this message for the client. The
-- connection is closed in any case.
pub post_app_write-handle_app_write :
    {S : Type 0} (m : Mgmt S) (s : S) (errorf : Text → Text)
    (w : Call AppWriteRequest AppWriteResponse) (req : AppWriteRequest) (fd : ℕ)
    (before : AppWriteResponse) (f : AppWriteRequest → S → Result AppWriteResponse × S)
    → m.app_write ≡ some f
    → w.dialled ≡ ok fd
    → w.invoke fd req ≡ delivered m s before fd req
    → ((x : Text) → (f req s).0 ≡ err x → is_empty x ≡ false)
    → post_app_write errorf w req ≡ (
      elim (f req s).0 [
        | ok r ↦ write_result errorf r
        | err x ↦ (refused_write x, some (errorf x))
      ],
      fd ∷ [],
    )
post_app_write-handle_app_write m s errorf w req fd before f has dial carried messages =
    let back = carried ∙ delivered_outcome m s before fd req f has in
    elim (Result-cases (f req s).0) [
      | inl (r, e) ↦ rw e (post_app_write-invoke errorf w req fd r dial (back ∙ rw e refl))
      | inr (x, e) ↦ rw e (
          post_app_write-invoke errorf w req fd (refused_write x) dial (back ∙ rw e refl)
          ∙ rw (messages x e) refl)
    ]
