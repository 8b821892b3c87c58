-- ===== src/Node/Endpoints.antt =====
-- GET, PUT and DELETE of a key at a node, against the values that its shards hold.
use torua.Base.{
  ℕ, ◌≤◌, ◌≡◌, refl, ap, ◌∙◌, Str, [], ◌∷◌, ◌++◌, Option, none, some, true, false, ◌&&◌, ascii, get,
  get-put, ℤ, pos, max_int, if◌then◌else◌, ◌==◌, str_eq, int_eq, str_beq, int_beq_iff, arith,
  has_prefix, trim_prefix,
}
use torua.Storage.{
  Lookup, found, failed, key_not_found, memory_get, memory_put, memory_delete, memory_store,
  new_memory_store,
}
use torua.Storage.Laws.{memory_get-put, memory_get-delete}
use torua.Shard.{new_shard, shard_get, shard_put, shard_delete}
use torua.Http.{Method, get_method, put_method, delete_method, Request}
use torua.Node.{
  Node, MemoryShard, plain, find_or_create, shard_operation, key_operation, at_shard,
  handle_shard_request, get_reply, store_operation, add_shard, handle_get, handle_put,
  handle_delete, written_reply,
}
use torua.Node.Path.{shard_url, handle_shard_request-url}

-- The value that the node holds for a key in a shard.
unfoldable pub stored : Node → ℤ → Str → Lookup
stored n id key = elim (get n.shards id) [
  | none ↦ failed key_not_found
  | some s ↦ memory_get s.store key
]

pub shard_operation-store :
    (s : MemoryShard) (c : ℕ) (key : Str) (m : Method) (body : Option Str)
    → shard_operation s (ascii "store/" ++ c ∷ key) m body ≡ key_operation s (c ∷ key) m body
unfolding shard_operation store_operation has_prefix trim_prefix str_beq
shard_operation-store s c key m body = refl

stored-find_or_create :
    (n : Node) (id : ℤ) (key : Str) → memory_get (find_or_create n id).1.store key ≡ stored n id key
unfolding find_or_create stored memory_get get
stored-find_or_create n id key = ground arith

get-find_or_create :
    (n : Node) (id j : ℤ)
    → (id == j) ≡ false
    → get (find_or_create n id).0.shards j ≡ get n.shards j
unfolding find_or_create add_shard new_shard
get-find_or_create n id j e =
    ground (arith, get-put n.shards id j (new_shard memory_store new_memory_store id true))

get-at_shard :
    (n : Node) (id j : ℤ) (rest : Str) (m : Method) (body : Option Str)
    → get (at_shard n id rest m body).0.shards j ≡ (
        if id == j
        then some (shard_operation (find_or_create n id).1 rest m body).0
        else get n.shards j)
unfolding at_shard
get-at_shard n id j rest m body = ground (
  arith,
  get-put (find_or_create n id).0.shards id j
      (shard_operation (find_or_create n id).1 rest m body).0,
  get-find_or_create n id j,
)

-- One call on a key of a shard: what the node holds after it, and the answer.
module _ (n : Node) (id j : ℤ) (c : ℕ) (key k : Str) where
  abbrev rest : Str
  rest = ascii "store/" ++ c ∷ key

  stored-at_shard :
      (m : Method) (body : Option Str)
      → stored (at_shard n id rest m body).0 j k ≡ (
          if id == j
          then memory_get (key_operation (find_or_create n id).1 (c ∷ key) m body).0.store k
          else stored n j k)
  unfolding stored
  stored-at_shard m body = ground (
    arith,
    get-at_shard n id j rest m body,
    shard_operation-store (find_or_create n id).1 c key m body,
  )

  answer-at_shard :
      (m : Method) (body : Option Str)
      → (at_shard n id rest m body).1 ≡ (key_operation (find_or_create n id).1 (c ∷ key) m body).1
  unfolding at_shard
  answer-at_shard m body =
      ap (λ x. x.1) (shard_operation-store (find_or_create n id).1 c key m body)

  get_at :
      (body : Option Str)
      → (stored (at_shard n id rest get_method body).0 j k ≡ stored n j k)
        × ((at_shard n id rest get_method body).1 ≡ get_reply (stored n id (c ∷ key)))
  unfolding key_operation handle_get shard_get
  get_at body = (
    ground (arith, stored-at_shard get_method body, stored-find_or_create n id k, int_beq_iff id j),
    answer-at_shard get_method body ∙ ap get_reply (stored-find_or_create n id (c ∷ key)),
  )

  put_at :
      (v : Str)
      → (stored (at_shard n id rest put_method (some v)).0 j k
          ≡ (if id == j && (c ∷ key) == k then found v else stored n j k))
        × ((at_shard n id rest put_method (some v)).1 ≡ plain 204 [])
  unfolding key_operation handle_put shard_put
  put_at v = (
    ground (
      arith,
      stored-at_shard put_method (some v),
      stored-find_or_create n id k,
      memory_get-put (find_or_create n id).1.store (c ∷ key) k v,
      int_beq_iff id j,
    ),
    answer-at_shard put_method (some v) ∙ unfold memory_put written_reply in refl,
  )

  delete_at :
      (body : Option Str)
      → (stored (at_shard n id rest delete_method body).0 j k
          ≡ (if id == j && (c ∷ key) == k then failed key_not_found else stored n j k))
        × ((at_shard n id rest delete_method body).1 ≡ plain 204 [])
  unfolding key_operation handle_delete shard_delete
  delete_at body = (
    ground (
      arith,
      stored-at_shard delete_method body,
      stored-find_or_create n id k,
      memory_get-delete (find_or_create n id).1.store (c ∷ key) k,
      int_beq_iff id j,
    ),
    answer-at_shard delete_method body ∙ unfold memory_delete written_reply in refl,
  )

module _ (n : Node) (r : Request) (i c : ℕ) (key : Str)
    (path : r.path ≡ shard_url i (ascii "store/" ++ c ∷ key)) (small : i ≤ max_int) where
  reached :
      handle_shard_request n r ≡ at_shard n (pos i) (ascii "store/" ++ c ∷ key) r.method r.body
  reached = handle_shard_request-url n r i (ascii "store/" ++ c ∷ key) path small

  -- A GET of /shard/{i}/store/{key}, for a key that is not empty and a shard number in the range of
  -- int, changes no stored value. It answers 200 with the value that shard i holds for the key, or 404.
  pub get_endpoint :
      (j : ℤ) (k : Str)
      → r.method ≡ get_method
      → (stored (handle_shard_request n r).0 j k ≡ stored n j k)
        × ((handle_shard_request n r).1 ≡ get_reply (stored n (pos i) (c ∷ key)))
  get_endpoint j k m = rw (reached, m) (get_at n (pos i) j c key k r.body)

  -- A PUT of /shard/{i}/store/{key}, for such a key and number, with a body that can be read answers
  -- 204. Shard i then holds the body for the key, and every other stored value is as before.
  pub put_endpoint :
      (j : ℤ) (k v : Str)
      → r.method ≡ put_method
      → r.body ≡ some v
      → (stored (handle_shard_request n r).0 j k
          ≡ (if pos i == j && (c ∷ key) == k then found v else stored n j k))
        × ((handle_shard_request n r).1 ≡ plain 204 [])
  put_endpoint j k v m b = rw (reached, m, b) (put_at n (pos i) j c key k v)

  -- A DELETE of /shard/{i}/store/{key}, for such a key and number, answers 204, whether or not the
  -- key was stored. Shard i then has no value for it, and every other stored value is as before.
  pub delete_endpoint :
      (j : ℤ) (k : Str)
      → r.method ≡ delete_method
      → (stored (handle_shard_request n r).0 j k
          ≡ (if pos i == j && (c ∷ key) == k then failed key_not_found else stored n j k))
        × ((handle_shard_request n r).1 ≡ plain 204 [])
  delete_endpoint j k m = rw (reached, m) (delete_at n (pos i) j c key k r.body)
