-- ===== src/Shard.antt =====
-- internal/shard/shard.go: a shard over any implementation of the store interface. The counters
-- are uint64. `sort.Strings` and `hash/fnv` are Go's libraries.
pub mod Keys
pub mod Range
pub mod Interleaved
pub mod Counts
pub mod Snapshot
use torua.Base.{
  ℕ, ◌+◌, ◌%◌, ◌^◌, Str, List, [], ◌∷◌, Option, none, some, Bool, true, false, not, ◌&&◌, length,
  keep, str_lt, ℤ, pos, negsuc, if◌then◌else◌, ◌==◌, int_eq, leb, ltb, zero, suc,
}
use torua.Fnv.{sum32, go_rem}
use torua.Storage.{Store, StoreStats, StoreError, Lookup}

-- The three states that the constants of `ShardState` name.
pub data ShardState : Type 0 where
  active migrating deleted : ShardState

pub record OperationStats : Type 0 where
  pub gets : ℕ
  pub puts : ℕ
  pub deletes : ℕ

pub record ShardStats : Type 0 where
  pub ops : OperationStats
  pub storage : StoreStats

pub record ShardInfo : Type 0 where
  pub id : ℤ
  pub primary : Bool
  pub state : ShardState
  pub key_count : ℕ
  pub byte_size : ℕ

pub record Shard (S : Type 0) : Type 0 where
  pub store : S
  pub stats : ShardStats
  pub state : ShardState
  pub id : ℤ
  pub primary : Bool

-- `atomic.AddUint64(&counter, 1)`
abbrev pub add_uint64 : ℕ → ℕ
add_uint64 n = (n + 1) % 2 ^ 64

abbrev pub no_ops : OperationStats
no_ops = record { gets = 0; puts = 0; deletes = 0 }

-- The tests of `ListKeysInRange`: key >= start && key < end
unfoldable pub key_in_range : Str → Str → Str → Bool
key_in_range start end key = not (str_lt key start) && str_lt key end

-- `sort.Strings`, by insertion.
unfoldable pub insert_sorted : Str → List Str → List Str
insert_sorted k [] = k ∷ []
insert_sorted k (j ∷ ks) =
    let rest = insert_sorted k ks in if str_lt j k then j ∷ rest else k ∷ j ∷ ks

unfoldable pub sort_strings : List Str → List Str
unfolding insert_sorted
sort_strings [] = []
sort_strings (k ∷ ks) = insert_sorted k (sort_strings ks)

-- `OwnsKey` reads nothing of the shard but its number.
unfoldable pub owns_key : ℤ → Str → ℤ → Bool
owns_key id key (pos zero) = false
owns_key id key (negsuc n) = false
owns_key id key (pos (suc n)) = pos (sum32 key % suc n) == id

module _ {S : Type 0} (o : Store S) where
  -- `NewShard`, over the backend that it creates
  unfoldable pub new_shard : S → ℤ → Bool → Shard S
  new_shard empty id primary = record {
    store = empty;
    stats = record { ops = no_ops; storage = record { keys = 0; bytes = 0 } };
    state = active;
    id = id;
    primary = primary;
  }

  unfoldable pub shard_get : Shard S → Str → Shard S × Lookup
  shard_get s key =
      let ops = s.stats.ops in
      let stats = record s.stats { ops = record ops { gets = add_uint64 ops.gets } } in
      (record s { stats = stats }, o.get s.store key)

  unfoldable pub shard_put : Shard S → Str → Str → Shard S × Option StoreError
  shard_put s key value =
      let ops = s.stats.ops in
      let stats = record s.stats { ops = record ops { puts = add_uint64 ops.puts } } in
      let (store, err) = o.put s.store key value in (record s { stats = stats; store = store }, err)

  unfoldable pub shard_delete : Shard S → Str → Shard S × Option StoreError
  shard_delete s key =
      let ops = s.stats.ops in
      let stats = record s.stats { ops = record ops { deletes = add_uint64 ops.deletes } } in
      let (store, err) = o.delete s.store key in (record s { stats = stats; store = store }, err)

  unfoldable pub list_keys : Shard S → List Str
  list_keys s = o.list s.store

  unfoldable pub get_stats : Shard S → ShardStats
  get_stats s = record { ops = s.stats.ops; storage = o.stats s.store }

  unfoldable pub info : Shard S → ShardInfo
  info s = record {
    id = s.id;
    primary = s.primary;
    state = s.state;
    key_count = (o.stats s.store).keys;
    byte_size = (o.stats s.store).bytes;
  }

  unfoldable pub set_state : Shard S → ShardState → Shard S
  set_state s state = record s { state = state }

  unfoldable pub list_keys_in_range : Shard S → Str → Str → List Str
  unfolding key_in_range sort_strings keep
  list_keys_in_range s start end = sort_strings (keep (key_in_range start end) (o.list s.store))

  -- `for _, key := range keysToDelete { _ = s.Delete(key) }`
  unfoldable pub delete_keys : Shard S → List Str → Shard S
  unfolding shard_delete
  delete_keys s [] = s
  delete_keys s (key ∷ keys) = delete_keys (shard_delete s key).0 keys

  unfoldable pub delete_range : Shard S → Str → Str → Shard S × ℕ
  unfolding delete_keys list_keys_in_range
  delete_range s start end =
      let keys_to_delete = list_keys_in_range s start end in
      (delete_keys s keys_to_delete, length keys_to_delete)
