-- ===== src/Storage.antt =====
-- internal/storage/store.go: the `Store` interface, what it promises, and its in-memory
-- implementation `MemoryStore`. Values are bytes; the mutex makes each method one step.
pub mod Laws
pub mod Refinement
pub mod Buffers
use torua.Base.{
  ℕ, ◌+◌, ◌≡◌, Str, List, [], ◌∷◌, map, Option, none, some, Bool, true, false, Map, get, put,
  remove, length, IsMap, contains, if◌then◌else◌, ◌==◌, str_eq,
}

-- `ErrKeyNotFound`, and any other error of a backend.
pub data StoreError : Type 0 where
  key_not_found : StoreError
  backend_error : Str → StoreError

pub data Lookup : Type 0 where
  found : Str → Lookup
  failed : StoreError → Lookup

pub record StoreStats : Type 0 where
  pub keys : ℕ
  pub bytes : ℕ

-- The interface, over the state of an implementation. A method that writes returns the new state
-- and its error.
pub record Store (S : Type 0) : Type 0 where
  pub get : S → Str → Lookup
  pub put : S → Str → Str → S × Option StoreError
  pub delete : S → Str → S × Option StoreError
  pub list : S → List Str
  pub stats : S → StoreStats

abbrev pub is_found : Lookup → Bool
is_found (found v) = true
is_found (failed e) = false

-- What the interface's comments promise of an implementation, over its valid states.
pub record StoreLaws (S : Type 0) (o : Store S) : Type 1 where
  pub IsValid : S → Type 0
  pub put-IsValid : (s : S) (k v : Str) → IsValid s → IsValid (o.put s k v).0
  pub delete-IsValid : (s : S) (k : Str) → IsValid s → IsValid (o.delete s k).0
  pub get-put :
      (s : S) (k j v : Str)
      → (o.put s k v).1 ≡ none
      → o.get (o.put s k v).0 j ≡ (if k == j then found v else o.get s j)
  pub get-delete :
      (s : S) (k j : Str)
      → (o.delete s k).1 ≡ none
      → o.get (o.delete s k).0 j ≡ (if k == j then failed key_not_found else o.get s j)
  pub list-get : (s : S) (k : Str) → contains (o.list s) k ≡ is_found (o.get s k)
  pub keys-list : (s : S) → (o.stats s).keys ≡ length (o.list s)

-- `MemoryStore`
pub record MemoryStore : Type 0 where
  pub entries : Map Str Str

unfoldable pub new_memory_store : MemoryStore
new_memory_store = record { entries = [] }

lookup_of : Option Str → Lookup
lookup_of none = failed key_not_found
lookup_of (some value) = found value

unfoldable pub memory_get : MemoryStore → Str → Lookup
unfolding lookup_of
memory_get m key = lookup_of (get m.entries key)

unfoldable pub memory_put : MemoryStore → Str → Str → MemoryStore × Option StoreError
memory_put m key value = (record { entries = put m.entries key value }, none)

unfoldable pub memory_delete : MemoryStore → Str → MemoryStore × Option StoreError
memory_delete m key = (record { entries = remove m.entries key }, none)

-- `for key := range m.data { keys = append(keys, key) }`
keys_of : Map Str Str → List Str
keys_of [] = []
keys_of ((k, v) ∷ m) = k ∷ keys_of m

unfoldable pub memory_list : MemoryStore → List Str
unfolding keys_of
memory_list m = keys_of m.entries

-- `for _, value := range m.data { totalBytes += len(value) }`
total_bytes : Map Str Str → ℕ
total_bytes [] = 0
total_bytes ((k, v) ∷ m) = length v + total_bytes m

unfoldable pub memory_stats : MemoryStore → StoreStats
unfolding total_bytes
memory_stats m = record { keys = length m.entries; bytes = total_bytes m.entries }

abbrev pub memory_store : Store MemoryStore
memory_store = record {
  get = memory_get;
  put = memory_put;
  delete = memory_delete;
  list = memory_list;
  stats = memory_stats;
}
