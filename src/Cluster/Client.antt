-- ===== src/Cluster/Client.antt =====
-- `PostJSON` of internal/cluster/types.go over a transport.
use torua.Base.{
  ◌≡◌, ◌≢◌, ◌↔◌, Str, none, some, Bool, true, false, leb, arith, Option-cases, Bool-cases, inl, inr,
}
use torua.Cluster.{Transport, Response, post_json, check_reply, decode_reply}

module _ {Body Out : Type 0} (t : Transport Body Out) where
  -- The answer is taken: a status below 300, and a body that decodes, if the caller wants it.
  abbrev pub IsTaken : Bool → Response → Type 0
  IsTaken wants resp =
      (leb 300 resp.status_code ≡ false) × (wants ≡ true → t.decode resp.body ≢ none)

  check_reply_lem :
      (wants : Bool) (resp : Response) → ((check_reply t wants resp).1 ≡ none) ↔ IsTaken wants resp
  unfolding check_reply decode_reply
  check_reply_lem wants resp = ground arith

  -- PostJSON returns nil exactly when the body can be encoded, the request can be built, the server
  -- answers with a status below 300, and, if the caller wants the answer, its body can be decoded.
  pub post_json_lem :
      (url : Str) (body : Body) (wants : Bool)
      → ((post_json t url body wants).1 ≡ none) ↔ (
          (bytes : Str) × (resp : Response) × (t.marshal body ≡ some bytes)
          × (t.request_ok url ≡ true)
          × (t.do_post url bytes ≡ some resp)
          × IsTaken wants resp)
  unfolding post_json
  post_json_lem url body wants = (
    (λ h. elim (Option-cases (t.marshal body)) [
      | inl e ↦ ground (arith, e)
      | inr (bytes, e) ↦ elim (Bool-cases (t.request_ok url)) [
        | inr f ↦ ground (arith, e, f)
        | inl f ↦ elim (Option-cases (t.do_post url bytes)) [
          | inl g ↦ ground (arith, e, f, g)
          | inr (resp, g) ↦
              (bytes, resp, e, f, g, (check_reply_lem wants resp).0 (ground (arith, e, f, g)))
        ]
      ]
    ]),
    (λ (bytes, resp, e, f, g, taken).
        ground (arith, e, f, g, (check_reply_lem wants resp).1 taken)),
  )
