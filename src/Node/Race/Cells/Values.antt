-- ===== src/Node/Race/Cells/Values.antt =====
-- What the requests that run at a node at the same time read (cmd/node/main.go): the values of its
-- shards, also of those that its map has lost.
use torua.Base.{
  ◌≡◌, refl, ◌∙◌, Str, [], ◌++◌, Option, none, some, inl, inr, ℤ, ascii, Bool-cases, ◌==◌, str_eq,
  str_beq_iff, append-trim_prefix, has_prefix, ◌||◌, ap, sym, trim_prefix,
}
use torua.Storage.{MemoryStore, found, failed, key_not_found, memory_get, memory_put}
use torua.Storage.Laws.{memory_get-put, memory_get-delete}
use torua.Shard.{shard_get, shard_put, shard_delete}
use torua.Http.{Method, get_method, put_method, delete_method, post_method, other}
use torua.Node.{
  MemoryShard, NodeReply, plain, key_operation, handle_get, handle_put, handle_delete,
  written_reply, store_operation, shard_operation,
}
use torua.Node.Race.{Call}
use torua.Node.Race.Effects.{on_store, holding}

-- A PUT of the value for the key, in the shard.
abbrev pub put_call : ℤ → Str → Str → Call
put_call id key v = record {
  id = id;
  path = ascii "store/" ++ key;
  method = put_method;
  body = some v;
}

abbrev pub get_call : ℤ → Str → Option Str → Call
get_call id key body = record {
  id = id;
  path = ascii "store/" ++ key;
  method = get_method;
  body = body;
}

-- What an operation may do to the value of a key: leave it, write it, or delete it.
pub data Effect (s s' : MemoryStore) (k : Str) (is_key : Type 0) (m : Method) (body : Option Str)
    (a : NodeReply) : Type 0 where
  leaves : memory_get s' k ≡ memory_get s k → Effect s s' k is_key m body a
  writes :
      (v : Str)
      → is_key
      → m ≡ put_method
      → body ≡ some v
      → a ≡ plain 204 []
      → memory_get s' k ≡ found v
      → Effect s s' k is_key m body a
  deletes : memory_get s' k ≡ failed key_not_found → Effect s s' k is_key m body a

Effect-key :
    {s s' : MemoryStore} {k : Str} {P Q : Type 0} {m : Method} {body : Option Str} {a : NodeReply}
    → (P → Q)
    → Effect s s' k P m body a
    → Effect s s' k Q m body a
Effect-key f (leaves e) = leaves e
Effect-key f (writes v p m b a e) = writes v (f p) m b a e
Effect-key f (deletes e) = deletes e

key_operation-Effect :
    (s : MemoryShard) (key k : Str) (m : Method) (body : Option Str)
    → Effect s.store
        (key_operation s key m body).0.store
        k
        (key ≡ k)
        m
        body
        (key_operation s key m body).1
unfolding key_operation handle_get handle_put handle_delete shard_get shard_put shard_delete
key_operation-Effect s key k get_method body = leaves refl
key_operation-Effect s key k post_method body = leaves refl
key_operation-Effect s key k other body = leaves refl
key_operation-Effect s key k put_method none = leaves refl
key_operation-Effect s key k put_method (some v) = elim (Bool-cases (key == k)) [
  | inl e ↦
      writes v ((str_beq_iff key k).0 e) refl refl (unfold memory_put written_reply in refl)
        (memory_get-put s.store key k v ∙ rw e refl)
  | inr e ↦ leaves (memory_get-put s.store key k v ∙ rw e refl)
]
key_operation-Effect s key k delete_method body = elim (Bool-cases (key == k)) [
  | inl e ↦ deletes (memory_get-delete s.store key k ∙ rw e refl)
  | inr e ↦ leaves (memory_get-delete s.store key k ∙ rw e refl)
]

store_operation-Effect :
    (s : MemoryShard) (path k : Str) (m : Method) (body : Option Str)
    → Effect s.store
        (store_operation s path m body).0.store
        k
        (ascii "/" ++ k ≡ path)
        m
        body
        (store_operation s path m body).1
unfolding store_operation
store_operation-Effect s path k m body = elim (Bool-cases (path == [] || path == ascii "/")) [
  | inl e ↦ rw e (leaves refl)
  | inr e ↦ rw e (elim (Bool-cases (has_prefix path (ascii "/"))) [
    | inl p ↦ rw p (
        Effect-key
          (λ same. ap (λ r. ascii "/" ++ r) (sym same) ∙ append-trim_prefix path (ascii "/") p)
          (key_operation-Effect s (trim_prefix path (ascii "/")) k m body))
    | inr p ↦ rw p (leaves refl)
  ])
]

shard_operation-Effect :
    (s : MemoryShard) (path k : Str) (m : Method) (body : Option Str)
    → Effect s.store
        (shard_operation s path m body).0.store
        k
        (ascii "store/" ++ k ≡ path)
        m
        body
        (shard_operation s path m body).1
unfolding shard_operation
shard_operation-Effect s path k m body = elim (Bool-cases (has_prefix path (ascii "store"))) [
  | inl p ↦ rw p (
      Effect-key
        (λ same. ap (λ r. ascii "store" ++ r) same ∙ append-trim_prefix path (ascii "store") p)
        (store_operation-Effect s (trim_prefix path (ascii "store")) k m body))
  | inr p ↦ rw p (elim (Bool-cases (path == ascii "stats")) [
    | inl e ↦ rw e (leaves refl)
    | inr e ↦ rw e (leaves refl)
  ])
]

pub on_store-Effect :
    (c : Call) (m : MemoryStore) (k : Str)
    → Effect m (on_store c m).0 k (ascii "store/" ++ k ≡ c.path) c.method c.body (on_store c m).1
unfolding on_store
on_store-Effect c m k = shard_operation-Effect (holding m) c.path k c.method c.body
