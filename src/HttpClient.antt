-- ===== src/HttpClient.antt =====
-- pkg/transport/httpjson/client.go: the management client, with its retries. `net/http`,
-- `encoding/json` and `fmt` are parameters.
mod Tests
pub mod Retries
pub mod Gets
use go_cluster.Prelude.{
  ℕ, zero, suc, ◌+◌, Text, codes, is_empty, ◌==◌, nat_eq, Bool, true, false, Option, none, some,
  ◌++◌, [], if◌then◌else◌,
}
use go_cluster.Prelude.Int.{ℤ, positive_or}
use go_cluster.Result.{Result, ok, err, Error}
use go_cluster.Json.{Json}
use go_cluster.Transport.{
  JoinRequest, JoinResponse, LeaveRequest, LeaveResponse, AppWriteRequest, AppWriteResponse,
  AppSyncRequest, AppSyncResponse,
}
use go_cluster.Cluster.Disk.{format_uint}

-- A reply: its status code, the bytes that `io.ReadAll` returned, and its error.
pub record Reply : Type 0 where
  pub code : ℕ
  pub body : Text
  pub read_error : Error

-- The attempts of one call, which use one request: what `Do` returned, its refusal of a request
-- whose body has been read included, and whether the context was done in the pause after
-- it.
pub record Attempts : Type 0 where
  pub reply : ℕ → Result Reply
  pub cancelled : ℕ → Option Text

-- What a client uses of the libraries. `new_request` is the error of the request for a URL;
-- `errorf` is `fmt.Errorf` on a format without arguments.
pub record Http : Type 0 where
  pub new_request : Text → Error
  pub errorf : Text → Text

-- A response type: its zero value, what `json.Unmarshal` of a text leaves in a variable that held a
-- value, and its field `Error`.
pub record Response (R : Type 0) : Type 0 where
  pub zero_value : R
  pub decode_into : Text → R → R
  pub error : R → Text

-- `Client`: the timeout of its requests, in nanoseconds, and whether it speaks TLS.
pub record Client : Type 0 where
  pub timeout : ℕ
  pub is_tls : Bool

-- `NewClient`: three seconds unless the timeout is positive.
abbrev pub new_client : ℤ → Client
new_client timeout = record { timeout = positive_or 3000000000 timeout; is_tls = false }

-- `UseTLS`, with a configuration or with nil.
abbrev pub use_tls : Bool → Client → Client
use_tls has_cfg c = record c { is_tls = has_cfg }

abbrev pub max_attempts : ℕ
max_attempts = 3

-- The scheme that `UseTLS` selects.
unfoldable pub url : Bool → Text → Text → Text
url is_tls addr path =
    (if is_tls then codes "https" else codes "http") ++ codes "://" ++ addr ++ path

-- `lastErr` after a reply, once its body is decoded; none is nil.
unfoldable pub reply_error : {R : Type 0} → Http → Response R → Text → Reply → R → Error
reply_error http res kind r out =
    if r.code == 200
    then none
    else if is_empty (res.error out)
    then some (kind ++ codes " status " ++ format_uint r.code ++ codes ": " ++ r.body)
    else some (http.errorf (res.error out))

module _ {R : Type 0} (http : Http) (res : Response R) (kind : Text) (a : Attempts) where
  -- The loop of a POST from attempt `i`, with `fuel` attempts left, `out` and `lastErr`.
  unfoldable pub attempt_post : ℕ → ℕ → R → Error → R × Error
  unfolding reply_error
  attempt_post zero i out last = (out, last)
  attempt_post (suc fuel) i out last = elim (a.reply i) [
    | err e ↦ (elim (a.cancelled i) [
      | some c ↦ (out, some e)
      | none ↦ attempt_post fuel (suc i) out (some e)
    ])
    | ok r ↦
        (let out' = res.decode_into r.body out in
          elim (reply_error http res kind r out') [
            | none ↦ (out', none)
            | some e ↦ (elim (a.cancelled i) [
              | some c ↦ (out', some e)
              | none ↦ attempt_post fuel (suc i) out' (some e)
            ])
          ])
  ]

  -- A POST of an encoded body.
  unfoldable pub post : Text → Result Text → R × Error
  unfolding attempt_post
  post target body = elim body [
    | err e ↦ (res.zero_value, some e)
    | ok b ↦ (elim (http.new_request target) [
      | some e ↦ (res.zero_value, some e)
      | none ↦ attempt_post max_attempts 0 res.zero_value none
    ])
  ]

-- The loop of `GetStatus`.
unfoldable pub attempt_get : Attempts → ℕ → ℕ → Error → Text × Error
attempt_get a zero i last = ([], last)
attempt_get a (suc fuel) i last =
    let pause : Text → Text × Error = (λ e. elim (a.cancelled i) [
      | some c ↦ ([], some c)
      | none ↦ attempt_get a fuel (suc i) (some e)
    ]) in
    elim (a.reply i) [
      | err e ↦ pause e
      | ok r ↦
          (if r.code == 200
            then (r.body, r.read_error)
            else pause (codes "status " ++ format_uint r.code ++ codes ": " ++ r.body))
    ]

module _ (http : Http) (is_tls : Bool) (a : Attempts) where
  unfoldable pub get_status : Text → Text × Error
  unfolding url attempt_get
  get_status addr = elim (http.new_request (url is_tls addr (codes "/status"))) [
    | some e ↦ ([], some e)
    | none ↦ attempt_get a max_attempts 0 none
  ]

  unfoldable pub post_join :
      Response JoinResponse → Json JoinRequest → Text → JoinRequest → JoinResponse × Error
  unfolding url post
  post_join res json addr req =
      post http res (codes "join") a (url is_tls addr (codes "/join")) (json.marshal req)

  unfoldable pub post_leave :
      Response LeaveResponse → Json LeaveRequest → Text → LeaveRequest → LeaveResponse × Error
  unfolding url post
  post_leave res json addr req =
      post http res (codes "leave") a (url is_tls addr (codes "/leave")) (json.marshal req)

  unfoldable pub post_app_write :
      Response AppWriteResponse
      → Json AppWriteRequest
      → Text
      → AppWriteRequest
      → AppWriteResponse × Error
  unfolding url post
  post_app_write res json addr req =
      post http res (codes "appwrite") a (url is_tls addr (codes "/appwrite")) (json.marshal req)

  unfoldable pub post_app_sync :
      Response AppSyncResponse
      → Json AppSyncRequest
      → Text
      → AppSyncRequest
      → AppSyncResponse × Error
  unfolding url post
  post_app_sync res json addr req =
      post http res (codes "appsync") a (url is_tls addr (codes "/appsync")) (json.marshal req)
