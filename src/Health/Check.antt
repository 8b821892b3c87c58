-- ===== src/Health/Check.antt =====
-- `defaultHealthCheck` of internal/coordinator/health_monitor.go. Go's HTTP client is an argument:
-- whether a request can be built for a URL, and the status that it answers with, if it answers.
use mathlib.Core.List.{reverse-append}
use torua.Base.{
  ap, ◌∙◌, ℕ, ◌≡◌, refl, Str, [], ◌∷◌, ◌++◌, Option, none, some, Bool, not, ◌&&◌, has_prefix,
  reverse, if◌then◌else◌, nat_eq, nat_beq, ascii, true, ap, Bool-cases, ◌↔◌, has_prefix-append,
  arith, inl, inr,
}

pub data CheckError : Type 0 where
  bad_request : CheckError
  no_answer : CheckError
  bad_status : ℕ → CheckError

-- `strings.HasSuffix(s, t)`
unfoldable pub has_suffix : Str → Str → Bool
unfolding has_prefix
has_suffix s t = has_prefix (reverse s) (reverse t)

-- `strings.TrimRight(s, "/")`, on the reversed text
drop_slashes : Str → Str
drop_slashes [] = []
drop_slashes (c ∷ s) = let rest = drop_slashes s in if nat_beq c b'/' then rest else c ∷ s

unfoldable pub trim_right_slash : Str → Str
unfolding drop_slashes
trim_right_slash s = reverse (drop_slashes (reverse s))

with_scheme : Str → Str
unfolding has_prefix
with_scheme addr =
    if not (has_prefix addr (ascii "http://")) && not (has_prefix addr (ascii "https://"))
    then ascii "http://" ++ addr
    else addr

with_path : Str → Str
unfolding has_suffix trim_right_slash
with_path url =
    if not (has_suffix url (ascii "/health")) then trim_right_slash url ++ ascii "/health" else url

unfoldable pub health_url : Str → Str
unfolding with_scheme with_path
health_url addr = with_path (with_scheme addr)

-- `none` is the nil error.
unfoldable pub default_health_check : (Str → Bool) → (Str → Option ℕ) → Str → Option CheckError
default_health_check request_ok send addr =
    let url = health_url addr in
    if not (request_ok url) then some bad_request else elim (send url) [
      | none ↦ some no_answer
      | some code ↦ if not (nat_beq code 200) then some (bad_status code) else none
    ]

health_url_plain : health_url (ascii "localhost:8081") ≡ ascii "http://localhost:8081/health"
unfolding health_url
health_url_plain = refl

health_url_full : health_url (ascii "https://n1/") ≡ ascii "https://n1/health"
unfolding health_url
health_url_full = refl

has_suffix-append : (s t : Str) → has_suffix (s ++ t) t ≡ true
unfolding has_suffix
has_suffix-append s t =
    ap (λ x. has_prefix x (reverse t)) (reverse-append s t)
    ∙ has_prefix-append (reverse t) (reverse s)

has_suffix-with_path : (url : Str) → has_suffix (with_path url) (ascii "/health") ≡ true
unfolding with_path
has_suffix-with_path url = elim (Bool-cases (has_suffix url (ascii "/health"))) [
  | inl e ↦ rw e e
  | inr e ↦ rw e (has_suffix-append (trim_right_slash url) (ascii "/health"))
]

-- The default check of an address asks for a URL that ends in "/health". It returns nil exactly
-- when the request for that URL can be built and is answered with status 200.
pub default_health_check_lem :
    (request_ok : Str → Bool) (send : Str → Option ℕ) (addr : Str)
    → (has_suffix (health_url addr) (ascii "/health") ≡ true)
      × ((default_health_check request_ok send addr ≡ none)
          ↔ ((request_ok (health_url addr) ≡ true) × (send (health_url addr) ≡ some 200)))
default_health_check_lem request_ok send addr = (
  (unfold health_url in has_suffix-with_path (with_scheme addr)),
  (unfold default_health_check in ((λ h. ground arith), (λ h. ground arith))),
)
