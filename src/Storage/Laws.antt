-- ===== src/Storage/Laws.antt =====
-- `MemoryStore` of internal/storage/store.go against the interface `Store`, and its statistics.
use torua.Base.{
  ℕ, ◌+◌, ◌≡◌, refl, sym, Str, [], ◌∷◌, none, some, Map, get, put, remove, get-put, get-remove,
  put-IsMap, remove-IsMap, IsMap, length, contains, if◌then◌else◌, ◌==◌, arith, str_eq, str_beq_iff,
}
use torua.Storage.{
  StoreLaws, MemoryStore, found, failed, key_not_found, is_found, memory_get, memory_put,
  memory_delete, memory_list, memory_stats, memory_store, keys_of, total_bytes, lookup_of,
}

abbrev pub IsValid : MemoryStore → Type 0
IsValid m = IsMap m.entries

pub memory_get-put :
    (s : MemoryStore) (k j v : Str)
    → memory_get (memory_put s k v).0 j ≡ (if k == j then found v else memory_get s j)
unfolding memory_get memory_put
memory_get-put s k j v = ground (arith, get-put s.entries k j v)

pub memory_get-delete :
    (s : MemoryStore) (k j : Str)
    → memory_get (memory_delete s k).0 j ≡ (if k == j then failed key_not_found else memory_get s j)
unfolding memory_get memory_delete
memory_get-delete s k j = ground (arith, get-remove s.entries k j)

contains-keys_of :
    (m : Map Str Str) (k : Str) → contains (keys_of m) k ≡ is_found (lookup_of (get m k))
unfolding keys_of get lookup_of contains
contains-keys_of [] k = refl
contains-keys_of ((j, v) ∷ m) k = ground (arith, str_beq_iff j k, contains-keys_of m k)

length-keys_of : (m : Map Str Str) → length (keys_of m) ≡ length m
unfolding keys_of
length-keys_of [] = refl
length-keys_of ((j, v) ∷ m) = ground (arith, length-keys_of m)

pub memory_put-IsValid : (s : MemoryStore) (k v : Str) → IsValid s → IsValid (memory_put s k v).0
unfolding memory_put
memory_put-IsValid s k v h = put-IsMap s.entries k v h

pub memory_delete-IsValid : (s : MemoryStore) (k : Str) → IsValid s → IsValid (memory_delete s k).0
unfolding memory_delete
memory_delete-IsValid s k h = remove-IsMap s.entries k h

pub contains-memory_list :
    (s : MemoryStore) (k : Str) → contains (memory_list s) k ≡ is_found (memory_get s k)
unfolding memory_list memory_get
contains-memory_list s k = contains-keys_of s.entries k

pub keys-memory_list : (s : MemoryStore) → (memory_stats s).keys ≡ length (memory_list s)
unfolding memory_list memory_stats
keys-memory_list s = sym (length-keys_of s.entries)

-- The implementation fills the interface's promises.
abbrev pub memory_laws : StoreLaws MemoryStore memory_store
memory_laws = record {
  IsValid = IsValid;
  put-IsValid = memory_put-IsValid;
  delete-IsValid = memory_delete-IsValid;
  get-put = λ s k j v _. memory_get-put s k j v;
  get-delete = λ s k j _. memory_get-delete s k j;
  list-get = contains-memory_list;
  keys-list = keys-memory_list;
}

-- The bytes stored under a key.
abbrev pub size_at : MemoryStore → Str → ℕ
size_at s k = elim (get s.entries k) [ none ↦ 0 | some v ↦ length v ]

total_bytes-put :
    (m : Map Str Str) (k v : Str)
    → total_bytes (put m k v) + size_at (record { entries = m }) k ≡ total_bytes m + length v
unfolding total_bytes get put
total_bytes-put [] k v = omega arith
total_bytes-put ((j, w) ∷ m) k v = ground (arith, total_bytes-put m k v)

-- `remove` leaves a map without the key as it is.
remove_fresh : (m : Map Str Str) (k : Str) → get m k ≡ none → remove m k ≡ m
unfolding get remove
remove_fresh [] k h = refl
remove_fresh ((j, w) ∷ m) k h = ground (arith, remove_fresh m k)

total_bytes-remove :
    (m : Map Str Str) (k : Str)
    → IsMap m
    → total_bytes (remove m k) + size_at (record { entries = m }) k ≡ total_bytes m
unfolding total_bytes get remove
total_bytes-remove [] k h = omega arith
total_bytes-remove ((j, w) ∷ m) k h =
    ground (arith, total_bytes-remove m k h.1, str_beq_iff j k, remove_fresh m k)

length-put :
    (m : Map Str Str) (k v : Str)
    → length (put m k v) ≡ (if is_found (lookup_of (get m k)) then length m else length m + 1)
unfolding get put lookup_of
length-put [] k v = omega arith
length-put ((j, w) ∷ m) k v = ground (arith, length-put m k v)

length-remove :
    (m : Map Str Str) (k : Str)
    → IsMap m
    → length m
      ≡ (if is_found (lookup_of (get m k)) then length (remove m k) + 1 else length (remove m k))
unfolding get remove lookup_of
length-remove [] k h = refl
length-remove ((j, w) ∷ m) k h =
    ground (arith, length-remove m k h.1, str_beq_iff j k, remove_fresh m k)

-- After Put(k, v), Stats counts one key more exactly when k was not stored, and the bytes grow by
-- the length of v less the length of the value that it replaces.
pub stats-put :
    (s : MemoryStore) (k v : Str)
    → ((memory_stats (memory_put s k v).0).keys
        ≡ (if is_found (memory_get s k) then (memory_stats s).keys else (memory_stats s).keys + 1))
      × ((memory_stats (memory_put s k v).0).bytes + size_at s k
          ≡ (memory_stats s).bytes + length v)
unfolding memory_stats memory_put memory_get
stats-put s k v = (length-put s.entries k v, total_bytes-put s.entries k v)

-- In a store that holds no key twice, Stats after Delete(k) counts one key less exactly when k was
-- stored, and the bytes fall by the length of its value.
pub stats-delete :
    (s : MemoryStore) (k : Str)
    → IsValid s
    → ((memory_stats s).keys ≡ (
        if is_found (memory_get s k)
        then (memory_stats (memory_delete s k).0).keys + 1
        else (memory_stats (memory_delete s k).0).keys))
      × ((memory_stats (memory_delete s k).0).bytes + size_at s k ≡ (memory_stats s).bytes)
unfolding memory_stats memory_delete memory_get
stats-delete s k h = (length-remove s.entries k h, total_bytes-remove s.entries k h)
