-- ===== src/Cli.antt =====
-- pkg/cli/cli.go: the commands `status`, `join` and `leave`. cobra, which parses the arguments into
-- the flags, the standard output, `encoding/json` and the network are parameters.
pub mod Node
pub mod Served
pub mod Running
pub mod Status
mod Tests
use go_cluster.Prelude.{
  ℕ, Text, codes, is_empty, ◌==◌, nat_eq, text_is_eq, ◌++◌, Bool, true, false, ◌||◌, Option, none,
  some, is_some, [], ◌∷◌, if◌then◌else◌,
}
use go_cluster.Prelude.Int.{ℤ, pos}
use go_cluster.Result.{Result, ok, err, Error}
use go_cluster.Json.{Json}
use go_cluster.Transport.{JoinRequest, JoinResponse, LeaveRequest, LeaveResponse}
use go_cluster.HttpClient as HttpClient
use go_cluster.HttpClient.{Http, Response, Attempts}
use go_cluster.Grpc.Client as GrpcClient
use go_cluster.Grpc.Client.{Call, new_client, use_tls}
use go_cluster.Tls as Tls

-- The flags on TLS, which three of the commands share.
pub record TlsFlags : Type 0 where
  pub enable : Bool
  pub ca : Text
  pub cert : Text
  pub key : Text
  pub skip_verify : Bool
  pub server_name : Text

abbrev pub no_tls : TlsFlags
no_tls = record {
  enable = false;
  ca = [];
  cert = [];
  key = [];
  skip_verify = false;
  server_name = [];
}

pub record StatusFlags : Type 0 where
  pub addr : Text
  pub timeout : ℤ

pub record JoinFlags : Type 0 where
  pub id : Text
  pub raft_addr : Text
  pub addr : Text
  pub mgmt_proto : Text
  pub timeout : ℤ
  pub tls : TlsFlags

pub record LeaveFlags : Type 0 where
  pub id : Text
  pub addr : Text
  pub mgmt_proto : Text
  pub timeout : ℤ
  pub tls : TlsFlags

-- The flags that are not given; durations are nanoseconds.
abbrev pub status_flags : StatusFlags
status_flags = record { addr = codes "127.0.0.1:17946"; timeout = pos 3000000000 }

abbrev pub join_flags : JoinFlags
join_flags = record {
  id = [];
  raft_addr = [];
  addr = codes "127.0.0.1:17946";
  mgmt_proto = codes "http";
  timeout = pos 3000000000;
  tls = no_tls;
}

abbrev pub leave_flags : LeaveFlags
leave_flags = record {
  id = [];
  addr = codes "127.0.0.1:17946";
  mgmt_proto = codes "http";
  timeout = pos 3000000000;
  tls = no_tls;
}

-- What a command wrote to the standard output, and what `RunE` returned.
pub record Output : Type 0 where
  pub printed : Text
  pub error : Error

-- What the one request of a command meets, over HTTP and over gRPC, and what `Encode` of the
-- response writes.
pub record Remote (Req R : Type 0) : Type 0 where
  pub http : Http
  pub response : Response R
  pub json : Json Req
  pub attempts : Attempts
  pub call : Call Req R
  pub encode : R → Text × Error

abbrev pub failed : Text → Output
failed e = record { printed = []; error = some e }

unfoldable pub tls_options : TlsFlags → Tls.Options
tls_options f = record {
  enable = true;
  ca_file = f.ca;
  cert_file = f.cert;
  key_file = f.key;
  insecure_skip_verify = f.skip_verify;
  server_name = f.server_name;
}

-- `json.NewEncoder(os.Stdout).Encode(resp)`, or the error of the request.
abbrev pub reported : {R : Type 0} → Text → (R → Text × Error) → R × Error → Output
reported name encode (resp, some e) = failed (name ++ codes " error: " ++ e)
reported name encode (resp, none) = record { printed = (encode resp).0; error = (encode resp).1 }

unfoldable pub last_byte : Text → Option ℕ
last_byte [] = none
last_byte (c ∷ []) = some c
last_byte (c ∷ d ∷ s) = last_byte (d ∷ s)

abbrev pub newline : Text
newline = 10 ∷ []

-- `len(data) == 0 || data[len(data)-1] != '\n'`
unfoldable pub lacks_newline : Text → Bool
unfolding last_byte
lacks_newline s = elim (last_byte s) [ none ↦ true | some c ↦ (if c == 10 then false else true) ]

-- `NewStatusCmd`. It always speaks HTTP without TLS.
unfoldable pub status : StatusFlags → Http → Attempts → Output
unfolding HttpClient.get_status lacks_newline
status f http a =
    let (body, e) = HttpClient.get_status http (HttpClient.new_client f.timeout).is_tls a f.addr in
    elim e [
      | some x ↦ failed (codes "status error: " ++ x)
      | none ↦ record {
        printed = body ++ (if lacks_newline body then newline else []);
        error = none;
      }
    ]

module _ {Cert : Type 0} (disk : Tls.Disk Cert) where
  -- `cliTLS`
  unfoldable pub client_tls : TlsFlags → Result (Option (Tls.Config Cert))
  unfolding tls_options Tls.client
  client_tls f = if f.enable then Tls.client (tls_options f) disk else ok none

  -- `client.PostJoin` of the client that the protocol selects.
  unfoldable pub post_join :
      JoinFlags → Bool → Remote JoinRequest JoinResponse → JoinRequest → JoinResponse × Error
  post_join f is_tls r req =
      if f.mgmt_proto == codes "grpc"
      then (GrpcClient.post_join r.call f.addr req (use_tls is_tls (new_client f.timeout))).0
      else (let c = HttpClient.use_tls is_tls (HttpClient.new_client f.timeout) in
          HttpClient.post_join r.http c.is_tls r.attempts r.response r.json f.addr req)

  unfoldable pub post_leave :
      LeaveFlags → Bool → Remote LeaveRequest LeaveResponse → LeaveRequest → LeaveResponse × Error
  post_leave f is_tls r req =
      if f.mgmt_proto == codes "grpc"
      then (GrpcClient.post_leave r.call f.addr req (use_tls is_tls (new_client f.timeout))).0
      else (let c = HttpClient.use_tls is_tls (HttpClient.new_client f.timeout) in
          HttpClient.post_leave r.http c.is_tls r.attempts r.response r.json f.addr req)

  -- `NewJoinCmd`
  unfoldable pub join : JoinFlags → Remote JoinRequest JoinResponse → Output
  unfolding client_tls post_join
  join f r =
      if is_empty f.id || is_empty f.raft_addr
      then failed (codes "missing required flags: -id and -raft-addr")
      else elim (client_tls f.tls) [
        | err e ↦ failed (codes "tls client config: " ++ e)
        | ok cfg ↦
            reported (codes "join") r.encode
              (post_join f (is_some cfg) r (record { id = f.id; raft_addr = f.raft_addr }))
      ]

  -- `NewLeaveCmd`. Both clients have `PostLeave`.
  unfoldable pub leave : LeaveFlags → Remote LeaveRequest LeaveResponse → Output
  unfolding client_tls post_leave
  leave f r =
      if is_empty f.id
      then failed (codes "missing required flag: -id")
      else elim (client_tls f.tls) [
        | err e ↦ failed (codes "tls client config: " ++ e)
        | ok cfg ↦
            reported (codes "leave") r.encode (post_leave f (is_some cfg) r (record { id = f.id }))
      ]
