-- ===== src/HttpServer.antt =====
-- pkg/transport/httpjson/server.go: the management endpoint over HTTP. `net/http`, `encoding/json`,
-- `fmt`, `net` and the metrics handler are parameters. `S` is the state that the injected functions
-- change.
pub mod Exchange
pub mod Draining
pub mod Posting
pub mod AppWrite
mod Tests
use go_cluster.Prelude.{
  ℕ, Text, codes, is_empty, ◌==◌, text_is_eq, ◌++◌, Bool, true, false, Option, none, some, List, [],
  if◌then◌else◌,
}
use go_cluster.Result.{Result, ok, err, Error}
use go_cluster.Transport.{
  JoinRequest, JoinResponse, LeaveRequest, LeaveResponse, AppWriteRequest, AppWriteResponse,
  AppSyncRequest, AppSyncResponse,
}

pub record Request : Type 0 where
  pub method : Text
  pub path : Text
  pub body : Text

-- What a handler wrote: the status code, whether it set the content type to JSON, and the body.
pub record Answer : Type 0 where
  pub code : ℕ
  pub is_json : Bool
  pub body : Text

-- `json.NewDecoder(r.Body).Decode`, and what `json.NewEncoder(w).Encode` writes.
pub record Codec (Req R : Type 0) : Type 0 where
  pub decode : Text → Result Req
  pub encode : R → Text

-- The injected functions return a value and an error, and change the state. `none` is nil.
abbrev pub Handler : Type 0 → Type 0 → Type 0 → Type 0
Handler S Req R = Option (Req → S → (R × Error) × S)

-- What the server uses of the libraries: `http.Error` of a message, the metrics handler and the
-- answer of the mux to another path.
pub record Web (S : Type 0) : Type 0 where
  pub error_body : Text → Text
  pub metrics : Request → S → Answer × S
  pub not_found : Request → Answer

-- The arguments of `Start`, and the codecs of their messages.
pub record Handlers (S : Type 0) : Type 0 where
  pub status : S → Result Text × S
  pub join : Handler S JoinRequest JoinResponse
  pub leave : Handler S LeaveRequest LeaveResponse
  pub app_write : Handler S AppWriteRequest AppWriteResponse
  pub app_sync : Handler S AppSyncRequest AppSyncResponse
  pub join_codec : Codec JoinRequest JoinResponse
  pub leave_codec : Codec LeaveRequest LeaveResponse
  pub app_write_codec : Codec AppWriteRequest AppWriteResponse
  pub app_sync_codec : Codec AppSyncRequest AppSyncResponse

-- `json.NewEncoder(w).Encode(resp)` under a status code.
abbrev pub json_answer : ℕ → Text → Answer
json_answer code body = record { code = code; is_json = true; body = body }

-- `if resp.Error == "" { resp.Error = err.Error() }`
abbrev pub write_error : AppWriteResponse → Text → AppWriteResponse
write_error resp e = record resp { error = if is_empty resp.error then e else resp.error }

abbrev pub sync_error : AppSyncResponse → Text → AppSyncResponse
sync_error resp e = record resp { error = if is_empty resp.error then e else resp.error }

module _ {S : Type 0} (web : Web S) where
  -- `http.Error`
  abbrev pub http_error : Text → ℕ → Answer
  http_error msg code = record { code = code; is_json = false; body = web.error_body msg }

  -- The handler of a POST, up to the four differences between the source's: the name in the
  -- messages, the function, the codec, and what is encoded where the function failed.
  unfoldable pub serve_post :
      {Req R : Type 0}
      → Text
      → Codec Req R
      → (R → Text → R)
      → Handler S Req R
      → Request
      → S
      → Answer × S
  serve_post name codec on_error handler r s =
      if r.method == codes "POST"
      then (elim handler [
        | none ↦ (http_error (name ++ codes " not supported") 501, s)
        | some f ↦ (elim (codec.decode r.body) [
          | err e ↦ (http_error (codes "bad request: " ++ e) 400, s)
          | ok req ↦
              (let ((resp, e), s') = f req s in
                elim e [
                  | some msg ↦ (json_answer 500 (codec.encode (on_error resp msg)), s')
                  | none ↦ (json_answer 200 (codec.encode resp), s')
                ])
        ])
      ])
      else (http_error (codes "method not allowed") 405, s)

  unfoldable pub serve_status : Handlers S → Request → S → Answer × S
  serve_status h r s =
      if r.method == codes "GET"
      then (let (answer, s') = h.status s in
          elim answer [
            | err e ↦ (http_error (codes "status error: " ++ e) 500, s')
            | ok b ↦ (json_answer 200 b, s')
          ])
      else (http_error (codes "method not allowed") 405, s)

  unfoldable pub serve_healthz : Request → Answer
  serve_healthz r =
      if r.method == codes "GET"
      then record { code = 200; is_json = false; body = codes "ok" }
      else http_error (codes "method not allowed") 405

  unfoldable pub serve_join : Handlers S → Request → S → Answer × S
  unfolding serve_post
  serve_join h = serve_post (codes "join") h.join_codec (λ resp e. resp) h.join

  unfoldable pub serve_leave : Handlers S → Request → S → Answer × S
  unfolding serve_post
  serve_leave h = serve_post (codes "leave") h.leave_codec (λ resp e. resp) h.leave

  unfoldable pub serve_app_write : Handlers S → Request → S → Answer × S
  unfolding serve_post
  serve_app_write h = serve_post (codes "appwrite") h.app_write_codec write_error h.app_write

  unfoldable pub serve_app_sync : Handlers S → Request → S → Answer × S
  unfolding serve_post
  serve_app_sync h = serve_post (codes "appsync") h.app_sync_codec sync_error h.app_sync

  -- The mux of `Start`.
  unfoldable pub serve : Handlers S → Request → S → Answer × S
  unfolding serve_status serve_healthz serve_join serve_leave serve_app_write serve_app_sync
  serve h r s =
      if r.path == codes "/status"
      then serve_status h r s
      else if r.path == codes "/healthz"
      then (serve_healthz r, s)
      else if r.path == codes "/metrics"
      then web.metrics r s
      else if r.path == codes "/join"
      then serve_join h r s
      else if r.path == codes "/leave"
      then serve_leave h r s
      else if r.path == codes "/appwrite"
      then serve_app_write h r s
      else if r.path == codes "/appsync"
      then serve_app_sync h r s
      else (web.not_found r, s)

-- `Server`. `srv` says that the field is not nil, and `listening` that a listener is served.
pub record Server : Type 0 where
  pub bind : Text
  pub has_tls : Bool
  pub srv : Bool
  pub listening : Bool

unfoldable pub new_server : Text → Server
new_server bind = record { bind = bind; has_tls = false; srv = false; listening = false }

unfoldable pub use_tls : Bool → Server → Server
use_tls has_cfg s = record s { has_tls = has_cfg }

-- The rest of `Start`; `listen` is the error of `net.Listen`.
unfoldable pub start : Error → Server → Error × Server
start listen s = elim listen [
  | some e ↦ (some e, record s { srv = true })
  | none ↦ (none, record s { srv = true; listening = true })
]

-- `Stop`; `shutdown` is the error of `Shutdown`, which closes the listeners in any case.
unfoldable pub stop : Error → Server → Error × Server
stop shutdown s =
    if s.srv then (shutdown, record s { srv = false; listening = false }) else (none, s)
