-- ===== src/Grpc/Client.antt =====
-- pkg/transport/grpc/client.go. `Dial`, `Invoke`, the clock and `fmt.Errorf` are parameters; a
-- connection is the number of ConnManager.
use go_cluster.Prelude.{
  ℕ, Text, is_empty, Bool, false, Option, none, some, List, [], ◌∷◌, if◌then◌else◌,
}
use go_cluster.Prelude.Int.{ℤ, pos, positive_or}
use go_cluster.Result.{Result, ok, err, Error}
use go_cluster.Transport.{
  JoinRequest, JoinResponse, LeaveRequest, LeaveResponse, AppWriteRequest, AppWriteResponse,
  AppSyncRequest, AppSyncResponse,
}
use go_cluster.ConnManager.{Manager, get, release}
use go_cluster.ConnManager as ConnManager

-- `Client`. The manager is made at the first use.
pub record Client : Type 0 where
  pub timeout : ℕ
  pub has_tls : Bool
  pub cm : Option Manager

-- What one call meets: the result of a dial, the clock at the start and at the end, and what
-- `Invoke` on a connection leaves in the response, with its error.
pub record Call (Req R : Type 0) : Type 0 where
  pub dialled : Result ℕ
  pub now : ℕ
  pub later : ℕ
  pub invoke : ℕ → Req → R × Error

-- `NewClient`: three seconds, in nanoseconds, unless the timeout is positive.
unfoldable pub new_client : ℤ → Client
new_client timeout = record { timeout = positive_or 3000000000 timeout; has_tls = false; cm = none }

unfoldable pub use_tls : Bool → Client → Client
use_tls has_cfg c = record c { has_tls = has_cfg }

abbrev pub manager : Client → Manager
manager c = elim c.cm [ none ↦ ConnManager.new (pos 30000000000) | some m ↦ m ]

-- `getConn`
unfoldable pub get_conn : Text → Result ℕ → ℕ → Client → Result ℕ × Client
unfolding get ConnManager.new
get_conn addr dialled now c =
    let (r, m) = get addr dialled now (manager c) in (r, record c { cm = some m })

-- `rel()`
abbrev pub release_conn : Text → ℕ → Client → Client
release_conn addr later c = record c { cm = some (release addr later (manager c)) }

-- A call on a managed connection, which is released at the end.
unfoldable pub call_managed :
    {Req R : Type 0} → R → Call Req R → Text → Req → Client → (R × Error) × Client
unfolding get_conn
call_managed zero_value w addr req c =
    let (conn, c') = get_conn addr w.dialled w.now c in
    elim conn [
      | err e ↦ ((zero_value, some e), c')
      | ok cc ↦ (w.invoke cc req, release_conn addr w.later c')
    ]

unfoldable pub get_status : Call (Unit {0}) Text → Text → Client → Result Text × Client
unfolding call_managed
get_status w addr c =
    let ((out, e), c') = call_managed [] w addr tt c in
    (elim e [ none ↦ ok out | some x ↦ err x ], c')

unfoldable pub post_join :
    Call JoinRequest JoinResponse → Text → JoinRequest → Client → (JoinResponse × Error) × Client
unfolding call_managed
post_join = call_managed (record { accepted = false; leader = []; error = [] })

unfoldable pub post_leave :
    Call LeaveRequest LeaveResponse
    → Text
    → LeaveRequest
    → Client
    → (LeaveResponse × Error) × Client
unfolding call_managed
post_leave = call_managed (record { accepted = false; error = [] })

-- A call on a connection of its own, which is closed at the end: the response, its error and the
-- connections that were closed. `error` is the field `Error` of a response.
unfoldable pub call_dialled :
    {Req R : Type 0} → (Text → Text) → (R → Text) → R → Call Req R → Req → (R × Error) × List ℕ
call_dialled errorf error zero_value w req = elim w.dialled [
  | err e ↦ ((zero_value, some e), [])
  | ok cc ↦
      (let (resp, failed) = w.invoke cc req in
        (
          elim failed [
            | some e ↦ (resp, some e)
            | none ↦
                (if is_empty (error resp) then (resp, none) else (resp, some (errorf (error resp))))
          ],
          cc ∷ [],
        ))
]

unfoldable pub post_app_write :
    (Text → Text)
    → Call AppWriteRequest AppWriteResponse
    → AppWriteRequest
    → (AppWriteResponse × Error) × List ℕ
unfolding call_dialled
post_app_write errorf = call_dialled errorf (λ r. r.error) (record { body = []; error = [] })

unfoldable pub post_app_sync :
    (Text → Text)
    → Call AppSyncRequest AppSyncResponse
    → AppSyncRequest
    → (AppSyncResponse × Error) × List ℕ
unfolding call_dialled
post_app_sync errorf = call_dialled errorf (λ r. r.error) (record { error = [] })
