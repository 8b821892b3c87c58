-- ===== src/Node/Path.antt =====
-- The paths under /shard/ that name a shard by its number.
use torua.Base.{
  ℕ, ◌≤◌, ◌≡◌, refl, ap, ◌∙◌, Str, [], ◌∷◌, ◌++◌, Option, some, length, take-append,
  drop-suc-append, All, pos, itoa, atoi-itoa, itoa-digits, max_int, ascii, index_byte, arith,
  trim_prefix-append, trim_prefix,
}
use torua.Http.{Method, Request}
use torua.Node.{Node, at_shard, shard_path, handle_shard_request}

index_byte-append :
    (s rest : Str)
    → All (λ c. (48 ≤ c) × (c ≤ 57)) s
    → index_byte (s ++ b'/' ∷ rest) b'/' ≡ some (length s)
unfolding index_byte
index_byte-append [] rest h = refl
index_byte-append (c ∷ s) rest h = ground (arith, index_byte-append s rest h.1)

-- A decimal number, a slash, and the rest.
pub shard_path-itoa :
    (n : Node) (i : ℕ) (rest : Str) (m : Method) (body : Option Str)
    → i ≤ max_int
    → shard_path n (itoa i ++ b'/' ∷ rest) m body ≡ at_shard n (pos i) rest m body
unfolding shard_path
shard_path-itoa n i rest m body h =
    rw (index_byte-append (itoa i) rest (itoa-digits i), shard_path)
      (rw (take-append (itoa i) (b'/' ∷ rest))
        (rw (atoi-itoa i h) (rw (drop-suc-append (itoa i) b'/' rest))))

-- The path of a shard's endpoint.
abbrev pub shard_url : ℕ → Str → Str
shard_url i rest = ascii "/shard/" ++ (itoa i ++ b'/' ∷ rest)

pub handle_shard_request-url :
    (n : Node) (r : Request) (i : ℕ) (rest : Str)
    → r.path ≡ shard_url i rest
    → i ≤ max_int
    → handle_shard_request n r ≡ at_shard n (pos i) rest r.method r.body
unfolding handle_shard_request
handle_shard_request-url n r i rest path h =
    ap (λ p. shard_path n (trim_prefix p (ascii "/shard/")) r.method r.body) path
    ∙ ap (λ p. shard_path n p r.method r.body)
        (trim_prefix-append (ascii "/shard/") (itoa i ++ b'/' ∷ rest))
    ∙ shard_path-itoa n i rest r.method r.body h
