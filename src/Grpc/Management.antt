-- ===== src/Grpc/Management.antt =====
-- pkg/transport/grpc/server.go, the management service. `S` is the state that the injected functions
-- change; gRPC's decoder and its interceptor are parameters. A span of a trace is left out.
use go_cluster.Prelude.{Text, codes, false, Option, none, some, []}
use go_cluster.Result.{Result, ok, err}
use go_cluster.Transport.{
  JoinRequest, JoinResponse, LeaveRequest, LeaveResponse, AppWriteRequest, AppWriteResponse,
  AppSyncRequest, AppSyncResponse,
}

-- `mgmtImpl`. The value of a function that fails is dropped; `none` is nil.
pub record Mgmt (S : Type 0) : Type 0 where
  pub status : S → Result Text × S
  pub join : JoinRequest → S → Result JoinResponse × S
  pub leave : Option (LeaveRequest → S → Result LeaveResponse × S)
  pub app_write : Option (AppWriteRequest → S → Result AppWriteResponse × S)
  pub app_sync : Option (AppSyncRequest → S → Result AppSyncResponse × S)

abbrev pub refused_join : Text → JoinResponse
refused_join e = record { accepted = false; leader = []; error = e }

abbrev pub refused_leave : Text → LeaveResponse
refused_leave e = record { accepted = false; error = e }

abbrev pub refused_write : Text → AppWriteResponse
refused_write e = record { body = []; error = e }

abbrev pub refused_sync : Text → AppSyncResponse
refused_sync e = record { error = e }

-- A failure of the function becomes a response.
abbrev pub answered : {S R : Type 0} → (Text → R) → Result R × S → Result R × S
answered refused (ok out, s) = (ok out, s)
answered refused (err e, s) = (ok (refused e), s)

abbrev pub in_or : {R : Type 0} → R → Option R → R
in_or zero_value none = zero_value
in_or zero_value (some r) = r

module _ {S : Type 0} (m : Mgmt S) where
  unfoldable pub get_status : Unit {0} → S → Result Text × S
  get_status _ s = m.status s

  unfoldable pub join : Option JoinRequest → S → Result JoinResponse × S
  join r s = answered refused_join (m.join (in_or (record { id = []; raft_addr = [] }) r) s)

  unfoldable pub leave : Option LeaveRequest → S → Result LeaveResponse × S
  leave r s = elim m.leave [
    | none ↦ (ok (refused_leave (codes "leave not supported")), s)
    | some f ↦ answered refused_leave (f (in_or (record { id = [] }) r) s)
  ]

  unfoldable pub app_write : Option AppWriteRequest → S → Result AppWriteResponse × S
  app_write r s = elim m.app_write [
    | none ↦ (ok (refused_write (codes "not implemented")), s)
    | some f ↦ answered refused_write (f (in_or (record { op = []; body = [] }) r) s)
  ]

  unfoldable pub app_sync : Option AppSyncRequest → S → Result AppSyncResponse × S
  app_sync r s = elim m.app_sync [
    | none ↦ (ok (refused_sync (codes "not implemented")), s)
    | some f ↦ answered refused_sync (f (in_or (record { topic = []; body = [] }) r) s)
  ]

  -- The handlers of the service: `dec` is the decoded request. An interceptor gets the method.
  abbrev pub Interceptor : Type 0 → Type 0 → Type 0
  Interceptor Req R = (Req → S → Result R × S) → Req → S → Result R × S

  unfoldable pub handle :
      {Req R : Type 0}
      → (Req → S → Result R × S)
      → Result Req
      → Option (Interceptor Req R)
      → S
      → Result R × S
  handle method dec interceptor s = elim dec [
    | err e ↦ (err e, s)
    | ok r ↦ (elim interceptor [ none ↦ method r s | some i ↦ i method r s ])
  ]

  unfoldable pub handle_get_status :
      Result (Unit {0}) → Option (Interceptor (Unit {0}) Text) → S → Result Text × S
  unfolding handle get_status
  handle_get_status = handle get_status

  unfoldable pub handle_join :
      Result JoinRequest
      → Option (Interceptor JoinRequest JoinResponse)
      → S
      → Result JoinResponse × S
  unfolding handle join
  handle_join = handle (λ r. join (some r))

  unfoldable pub handle_leave :
      Result LeaveRequest
      → Option (Interceptor LeaveRequest LeaveResponse)
      → S
      → Result LeaveResponse × S
  unfolding handle leave
  handle_leave = handle (λ r. leave (some r))

  unfoldable pub handle_app_write :
      Result AppWriteRequest
      → Option (Interceptor AppWriteRequest AppWriteResponse)
      → S
      → Result AppWriteResponse × S
  unfolding handle app_write
  handle_app_write = handle (λ r. app_write (some r))

  unfoldable pub handle_app_sync :
      Result AppSyncRequest
      → Option (Interceptor AppSyncRequest AppSyncResponse)
      → S
      → Result AppSyncResponse × S
  unfolding handle app_sync
  handle_app_sync = handle (λ r. app_sync (some r))
