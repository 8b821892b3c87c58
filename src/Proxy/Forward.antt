-- ===== src/Proxy/Forward.antt =====
-- The three forwarding functions of cmd/coordinator/main.go against one description.
use torua.Base.{
  ◌≡◌, Str, [], Option, none, some, true, false, ascii, if◌then◌else◌, ◌==◌, str_eq, arith,
}
use torua.Http.{
  Method, get_method, put_method, delete_method, post_method, other, Request, Reply, reply,
  HttpClient,
}
use torua.Proxy.{pass_on, forward, is_data_method}

-- Only a PUT carries the client's body and content type.
abbrev carried : Method → Str → Str
carried put_method text = text
carried _ text = []

-- Only a DELETE leaves the node's body out.
abbrev returned : Method → Str → Str
returned delete_method text = []
returned _ text = text

-- Only a PUT reads the client's body.
abbrev body_read : Method → Option Str → Option Str
body_read put_method body = body
body_read _ body = some []

-- One description for the three methods: 400 if the body of a PUT cannot be read; else 500 if the
-- request cannot be built; else 502 if the node does not answer; else what the node answers.
pub proxied : HttpClient → Str → Request → Method → Reply
proxied client url r m = elim (body_read m r.body) [
  | none ↦ reply 400 (ascii "failed to read body")
  | some body ↦
      if client.request_ok url
      then elim (client.send (record {
        method = m;
        url = url;
        body = body;
        content_type = carried m r.content_type;
      })) [
        | none ↦ reply 502 (ascii "failed to forward request")
        | some resp ↦ reply resp.status_code (returned m resp.body)
      ]
      else reply 500 (ascii "failed to create request")
]

-- Forwarding a GET, PUT or DELETE to a URL that is not empty answers 400 if the body of a PUT cannot
-- be read, else 500 if the request cannot be built, else 502 if the node does not answer. Otherwise
-- the client gets the node's status, and its body but for DELETE. What is sent has the client's
-- method, and for a PUT alone the client's body and content type.
pub forward_lem :
    (client : HttpClient) (url : Str) (r : Request) (m : Method)
    → is_data_method m ≡ true
    → (url == []) ≡ false
    → forward client url r m ≡ proxied client url r m
unfolding forward proxied pass_on
forward_lem client url r get_method d u = ground arith
forward_lem client url r put_method d u = ground arith
forward_lem client url r delete_method d u = ground arith
forward_lem client url r post_method d u = cc
forward_lem client url r other d u = cc
