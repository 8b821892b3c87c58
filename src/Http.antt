-- ===== src/Http.antt =====
-- What the two servers see of net/http: requests, replies and the client.
use torua.Base.{ℕ, Str, Option, Bool}
use torua.Cluster.{Response}

-- `http.MethodGet` and the others that the program names; all else is `other`.
pub data Method : Type 0 where
  get_method put_method delete_method post_method other : Method

-- A request as a handler reads it. `body` is `none` where reading it fails.
pub record Request : Type 0 where
  pub method : Method
  pub path : Str
  pub body : Option Str
  pub content_type : Str

-- A status code, and the body as far as the code writes it.
pub data Reply : Type 0 where
  reply : ℕ → Str → Reply
  -- the handler panicked; net/http drops the connection
  panicked : Reply

pub record Outgoing : Type 0 where
  pub method : Method
  pub url : Str
  pub body : Str
  pub content_type : Str

-- `http.NewRequestWithContext` may refuse a URL; `http.DefaultClient.Do` may fail.
pub record HttpClient : Type 0 where
  pub request_ok : Str → Bool
  pub send : Outgoing → Option Response
