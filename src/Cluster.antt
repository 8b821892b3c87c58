-- ===== src/Cluster.antt =====
-- internal/cluster/types.go: the messages of the cluster, and the JSON client.
-- A time is a number of ticks of the clock. JSON encoding and the transport are Go's libraries:
-- `post_json` and `get_json` take them as arguments.
pub mod Client
use torua.Base.{ℕ, Str, Option, none, some, Bool, leb, if◌then◌else◌}

-- internal/cluster/types.go, `NodeInfo`
pub record NodeInfo : Type 0 where
  pub last_health_check : ℕ
  pub id : Str
  pub addr : Str
  pub status : Str

pub record RegisterRequest : Type 0 where
  pub node : NodeInfo

-- The payload is raw JSON, kept as its bytes.
pub record BroadcastRequest : Type 0 where
  pub path : Str
  pub payload : Str

pub data ClientError : Type 0 where
  marshal_error request_error transport_error decode_error : ClientError
  http_error : ℕ → ClientError

pub record Response : Type 0 where
  pub status_code : ℕ
  pub body : Str

-- Go's libraries under the client: the encoder, `http.NewRequestWithContext`, `httpClient.Do` and
-- the decoder. Each is fallible.
pub record Transport (Body Out : Type 0) : Type 0 where
  pub marshal : Body → Option Str
  pub request_ok : Str → Bool
  pub do_post : Str → Str → Option Response
  pub do_get : Str → Option Response
  pub decode : Str → Option Out

module _ {Body Out : Type 0} where
  -- The part of both functions behind the call: the status, then the decoder.
  -- `none` as an answer is the case `out == nil`.
  decode_reply : Transport Body Out → Response → Option Out × Option ClientError
  decode_reply t resp = elim (t.decode resp.body) [
    | none ↦ (none, some decode_error)
    | some v ↦ (some v, none)
  ]

  check_reply : Transport Body Out → Bool → Response → Option Out × Option ClientError
  unfolding decode_reply
  check_reply t wants resp =
      if leb 300 resp.status_code
      then (none, some (http_error resp.status_code))
      else if wants
      then decode_reply t resp
      else (none, none)

  -- `PostJSON(ctx, url, body, out)`; `wants` is `out != nil`
  unfoldable pub post_json :
      Transport Body Out → Str → Body → Bool → Option Out × Option ClientError
  unfolding check_reply
  post_json t url body wants = elim (t.marshal body) [
    | none ↦ (none, some marshal_error)
    | some bytes ↦
        if t.request_ok url
        then elim (t.do_post url bytes) [
          | none ↦ (none, some transport_error)
          | some resp ↦ check_reply t wants resp
        ]
        else (none, some request_error)
  ]

  -- `GetJSON(ctx, url, out)`
  unfoldable pub get_json : Transport Body Out → Str → Option Out × Option ClientError
  unfolding check_reply
  get_json t url =
      if t.request_ok url
      then elim (t.do_get url) [
        | none ↦ (none, some transport_error)
        | some resp ↦
            if leb 300 resp.status_code
            then (none, some (http_error resp.status_code))
            else decode_reply t resp
      ]
      else (none, some request_error)
