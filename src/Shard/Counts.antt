-- ===== src/Shard/Counts.antt =====
-- The operation counters and the state of a shard, internal/shard/shard.go.
use torua.Base.{ℕ, ◌+◌, ◌%◌, ◌^◌, ◌≡◌, refl, Str, List, [], ◌∷◌, arith, ◌<◌}
use torua.Storage.{Store}
use torua.Shard.{Shard, ShardState, shard_get, shard_put, shard_delete, set_state}

pub data Operation : Type 0 where
  get_op : Str → Operation
  put_op : Str → Str → Operation
  delete_op : Str → Operation

abbrev counts_get : Operation → ℕ
counts_get (get_op k) = 1
counts_get _ = 0

abbrev counts_put : Operation → ℕ
counts_put (put_op k v) = 1
counts_put _ = 0

abbrev counts_delete : Operation → ℕ
counts_delete (delete_op k) = 1
counts_delete _ = 0

abbrev total : (Operation → ℕ) → List Operation → ℕ
total f [] = 0
total f (x ∷ xs) = f x + total f xs

module _ {S : Type 0} (o : Store S) where
  apply : Shard S → Operation → Shard S
  apply s (get_op k) = (shard_get o s k).0
  apply s (put_op k v) = (shard_put o s k v).0
  apply s (delete_op k) = (shard_delete o s k).0

  pub run : Shard S → List Operation → Shard S
  run s [] = s
  run s (x ∷ xs) = run (apply s x) xs

  -- After any operations, failing or not, each counter has grown by the number of its operations,
  -- modulo 2^64.
  pub run_counts :
      (s : Shard S) (xs : List Operation)
      → ((run s xs).stats.ops.gets % 2 ^ 64 ≡ (s.stats.ops.gets + total counts_get xs) % 2 ^ 64)
        × ((run s xs).stats.ops.puts % 2 ^ 64 ≡ (s.stats.ops.puts + total counts_put xs) % 2 ^ 64)
        × ((run s xs).stats.ops.deletes % 2 ^ 64
            ≡ (s.stats.ops.deletes + total counts_delete xs) % 2 ^ 64)
  unfolding run apply shard_get shard_put shard_delete
  run_counts s [] = omega arith
  run_counts s (get_op k ∷ xs) = omega (arith, run_counts (apply s (get_op k)) xs)
  run_counts s (put_op k v ∷ xs) = omega (arith, run_counts (apply s (put_op k v)) xs)
  run_counts s (delete_op k ∷ xs) = omega (arith, run_counts (apply s (delete_op k)) xs)

  -- The counters are numbers of 64 bits.
  abbrev pub IsBounded : Shard S → Type 0
  IsBounded s =
      (s.stats.ops.gets < 2 ^ 64) × (s.stats.ops.puts < 2 ^ 64) × (s.stats.ops.deletes < 2 ^ 64)

  run-IsBounded : (s : Shard S) (xs : List Operation) → IsBounded s → IsBounded (run s xs)
  unfolding run apply shard_get shard_put shard_delete
  run-IsBounded s [] b = b
  run-IsBounded s (get_op k ∷ xs) b = run-IsBounded (apply s (get_op k)) xs (omega (arith, b))
  run-IsBounded s (put_op k v ∷ xs) b = run-IsBounded (apply s (put_op k v)) xs (omega (arith, b))
  run-IsBounded s (delete_op k ∷ xs) b = run-IsBounded (apply s (delete_op k)) xs (omega (arith, b))

  -- From counters of 64 bits on, the counters stay in 64 bits over any operations, failing or not, and
  -- each is what it was plus the number of its operations, modulo 2^64.
  pub counters_lem :
      (s : Shard S) (xs : List Operation)
      → IsBounded s
      → IsBounded (run s xs)
        × ((run s xs).stats.ops.gets ≡ (s.stats.ops.gets + total counts_get xs) % 2 ^ 64)
        × ((run s xs).stats.ops.puts ≡ (s.stats.ops.puts + total counts_put xs) % 2 ^ 64)
        × ((run s xs).stats.ops.deletes ≡ (s.stats.ops.deletes + total counts_delete xs) % 2 ^ 64)
  counters_lem s xs b =
      let bounds = run-IsBounded s xs b in
      let counts = run_counts s xs in
      (
        bounds,
        omega (arith, bounds.0, counts.0),
        omega (arith, bounds.1, counts.1),
        omega (arith, bounds.2, counts.2),
      )

  -- Setting the state of a shard, to any of the three values, changes neither the results of Get,
  -- Put and Delete nor what they do to the shard otherwise.
  pub set_state_irrelevant :
      (s : Shard S) (x : ShardState) (k v : Str)
      → (shard_get o (set_state o s x) k ≡ (set_state o (shard_get o s k).0 x, (shard_get o s k).1))
        × (shard_put o (set_state o s x) k v
            ≡ (set_state o (shard_put o s k v).0 x, (shard_put o s k v).1))
        × (shard_delete o (set_state o s x) k
            ≡ (set_state o (shard_delete o s k).0 x, (shard_delete o s k).1))
  unfolding set_state shard_get shard_put shard_delete
  set_state_irrelevant s x k v = (refl, refl, refl)
