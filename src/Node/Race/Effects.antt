-- ===== src/Node/Race/Effects.antt =====
-- What an operation on a shard reads and changes (cmd/node/main.go, internal/shard/shard.go): all but
-- the statistics go by the store alone.
use torua.Base.{
  ℕ, zero, suc, ◌≡◌, refl, ◌∙◌, sym, Str, List, [], ◌∷◌, Option, none, some, true, false, ◌||◌,
  ascii, has_prefix, trim_prefix, Bool-cases, inl, inr, ◌==◌, str_eq, get_elem?, set, str_beq,
  str_beq_iff, arith, ◌&&◌, pos,
}
use torua.Storage.{MemoryStore, memory_stats}
use torua.Shard.{shard_get, shard_put, shard_delete, get_stats, list_keys}
use torua.Http.{Method, get_method, put_method, delete_method, post_method, other}
use torua.Node.{
  only_get, MemoryShard, NodeReply, key_operation, handle_get, handle_put, handle_delete,
  store_operation, shard_operation, handle_list_keys, handle_shard_stats, stats_reply,
}
use torua.Node.Race.{Call, is_stats, is_get, perform, count, act, empty_shard}

pub get_elem?-set_same :
    (xs : List MemoryShard) (p : ℕ) (s t : MemoryShard)
    → get_elem? xs p ≡ some s
    → get_elem? (set xs p t) p ≡ some t
get_elem?-set_same [] p s t h = cc
get_elem?-set_same (x ∷ xs) zero s t h = refl
get_elem?-set_same (x ∷ xs) (suc p) s t h = get_elem?-set_same xs p s t h

-- A new shard of some number, with the store.
abbrev pub holding : MemoryStore → MemoryShard
holding m = record (empty_shard (pos 0)) { store = m }

-- The store and the answer, from the store.
unfoldable pub on_store : Call → MemoryStore → MemoryStore × NodeReply
on_store c m = let (s, a) = perform c (holding m) in (s.store, a)

abbrev Same : MemoryShard × NodeReply → MemoryShard × NodeReply → Type 0
Same x y = (x.0.store ≡ y.0.store) × (x.1 ≡ y.1)

key_operation-Same :
    (s : MemoryShard) (key : Str) (m : Method) (body : Option Str)
    → Same (key_operation s key m body) (key_operation (holding s.store) key m body)
unfolding key_operation handle_get handle_put handle_delete shard_get shard_put shard_delete
key_operation-Same s key get_method body = (refl, refl)
key_operation-Same s key put_method none = (refl, refl)
key_operation-Same s key put_method (some v) = (refl, refl)
key_operation-Same s key delete_method body = (refl, refl)
key_operation-Same s key post_method body = (refl, refl)
key_operation-Same s key other body = (refl, refl)

store_operation-Same :
    (s : MemoryShard) (path : Str) (m : Method) (body : Option Str)
    → Same (store_operation s path m body) (store_operation (holding s.store) path m body)
unfolding store_operation handle_list_keys list_keys
store_operation-Same s path m body = elim (Bool-cases (path == [] || path == ascii "/")) [
  | inl e ↦ rw e (refl, refl)
  | inr e ↦ rw e (elim (Bool-cases (has_prefix path (ascii "/"))) [
    | inl p ↦ rw p (key_operation-Same s (trim_prefix path (ascii "/")) m body)
    | inr p ↦ rw p (refl, refl)
  ])
]

only_get_refuses : (m : Method) (a b : NodeReply) → is_get m ≡ false → only_get m a ≡ only_get m b
only_get_refuses get_method a b e = cc
only_get_refuses put_method a b e = refl
only_get_refuses delete_method a b e = refl
only_get_refuses post_method a b e = refl
only_get_refuses other a b e = refl

only_get_serves : (m : Method) (a : NodeReply) → is_get m ≡ true → only_get m a ≡ a
only_get_serves get_method a e = refl
only_get_serves put_method a e = cc
only_get_serves delete_method a e = cc
only_get_serves post_method a e = cc
only_get_serves other a e = cc

stats-Same :
    (s : MemoryShard) (path : Str) (m : Method) (body : Option Str)
    → (path == ascii "stats" && is_get m) ≡ false
    → Same (shard_operation s path m body) (shard_operation (holding s.store) path m body)
unfolding shard_operation
stats-Same s path m body n = elim (Bool-cases (has_prefix path (ascii "store"))) [
  | inl p ↦ rw p (store_operation-Same s (trim_prefix path (ascii "store")) m body)
  | inr p ↦ rw p (elim (Bool-cases (path == ascii "stats")) [
    | inl e ↦ rw e (refl, only_get_refuses m _ _ (ground (arith, n, e)))
    | inr e ↦ rw e (refl, refl)
  ])
]

-- A request that is not for the statistics goes by the store.
pub perform-on_store :
    (c : Call) (s : MemoryShard)
    → is_stats c ≡ false
    → ((perform c s).0.store ≡ (on_store c s.store).0) × ((perform c s).1 ≡ (on_store c s.store).1)
unfolding on_store
perform-on_store c s n = stats-Same s c.path c.method c.body n

-- Counting first changes neither the store nor the answer.
pub perform-count :
    (c : Call) (s : MemoryShard) → is_stats c ≡ false → (act c (count c s)).1 ≡ (perform c s).1
perform-count c s n = (perform-on_store c (count c s) n).1 ∙ sym (perform-on_store c s n).1

-- What a request for the statistics answers, with no other beside it.
pub perform_stats :
    (c : Call) (s : MemoryShard)
    → is_stats c ≡ true
    → (perform c s).1
      ≡ stats_reply s.id s.stats.ops (memory_stats s.store).keys (memory_stats s.store).bytes
unfolding shard_operation handle_shard_stats get_stats has_prefix str_beq
perform_stats c s e =
    let path : c.path ≡ ascii "stats" =
      (str_beq_iff c.path (ascii "stats")).0 (ground (arith, e)) in
    let only : is_get c.method ≡ true = ground (arith, e) in
    rw path (only_get_serves c.method _ only)
