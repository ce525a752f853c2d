-- ===== src/Cluster/Serving.antt =====
-- The functions that `Start` gives to the management server, as gRPC and as HTTP serve them.
pub mod Forwarding
pub mod Scenario
mod Tests
use go_cluster.Prelude.{Text, none, some}
use go_cluster.Result.{Result, ok, err, Error}
use go_cluster.Transport.{
  JoinRequest, JoinResponse, LeaveRequest, LeaveResponse, AppWriteRequest, AppWriteResponse,
  AppSyncRequest, AppSyncResponse,
}
use go_cluster.Cluster.World.{Setup, Cluster, M}
use go_cluster.Cluster.Requests.{
  handle_join, handle_leave, handle_app_write, handle_app_sync, status_local_json,
}
use go_cluster.Grpc.Management.{Mgmt}
use go_cluster.HttpServer.{Handlers, Codec}

-- A handler that returns a nil error.
abbrev pub succeeds : {A : Type 0} → A × Cluster → Result A × Cluster
succeeds (a, s) = (ok a, s)

abbrev pub without_error : {A : Type 0} → A × Cluster → (A × Error) × Cluster
without_error (a, s) = ((a, none), s)

unfoldable pub grpc_service : Setup → Mgmt Cluster
unfolding handle_join handle_leave handle_app_write handle_app_sync status_local_json
grpc_service w = record {
  status = status_local_json w;
  join = λ r s. succeeds (handle_join w r s);
  leave = some (λ r s. succeeds (handle_leave w r s));
  app_write = some (λ r s. succeeds (handle_app_write w r s));
  app_sync = some (λ r s. succeeds (handle_app_sync w r s));
}

-- The codecs of the four messages.
pub record Codecs : Type 0 where
  pub join : Codec JoinRequest JoinResponse
  pub leave : Codec LeaveRequest LeaveResponse
  pub app_write : Codec AppWriteRequest AppWriteResponse
  pub app_sync : Codec AppSyncRequest AppSyncResponse

unfoldable pub http_handlers : Setup → Codecs → Handlers Cluster
unfolding handle_join handle_leave handle_app_write handle_app_sync status_local_json
http_handlers w c = record {
  status = status_local_json w;
  join = some (λ r s. without_error (handle_join w r s));
  leave = some (λ r s. without_error (handle_leave w r s));
  app_write = some (λ r s. without_error (handle_app_write w r s));
  app_sync = some (λ r s. without_error (handle_app_sync w r s));
  join_codec = c.join;
  leave_codec = c.leave;
  app_write_codec = c.app_write;
  app_sync_codec = c.app_sync;
}
