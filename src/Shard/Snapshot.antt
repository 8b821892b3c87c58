-- ===== src/Shard/Snapshot.antt =====
-- GetStats of internal/shard/shard.go with other operations beside it. It asks the store for its
-- statistics and then loads the three counters, each by itself. Get, Put and Delete count themselves
-- and go to the store afterwards, so other operations come between its parts in their own parts.
use torua.Base.{ℕ, ◌+◌, ◌%◌, ◌^◌, ◌≡◌, refl, Str, List, [], ◌∷◌, ◌++◌, arith, ◌<◌, ◌≤◌}
use torua.Storage.{Store}
use torua.Shard.{
  Shard, ShardStats, OperationStats, add_uint64, get_stats, shard_get, shard_put, shard_delete,
}

-- A part of an operation. A Get changes nothing behind its counter.
pub data Part : Type 0 where
  counts_get counts_put counts_delete : Part
  stores : Str → Str → Part
  erases : Str → Part

abbrev gets_of : Part → ℕ
gets_of counts_get = 1
gets_of _ = 0

abbrev puts_of : Part → ℕ
puts_of counts_put = 1
puts_of _ = 0

abbrev deletes_of : Part → ℕ
deletes_of counts_delete = 1
deletes_of _ = 0

abbrev pub total : (Part → ℕ) → List Part → ℕ
total f [] = 0
total f (x ∷ xs) = f x + total f xs

pub total-append : (f : Part → ℕ) (xs ys : List Part) → total f (xs ++ ys) ≡ total f xs + total f ys
total-append f [] ys = omega arith
total-append f (x ∷ xs) ys = omega (arith, total-append f xs ys)

-- Three lists.
pub totals :
    (f : Part → ℕ) (a b c : List Part)
    → (total f (a ++ b) ≡ total f a + total f b)
      × (total f (a ++ (b ++ c)) ≡ total f a + total f b + total f c)
totals f a b c = omega (arith, total-append f a b, total-append f a (b ++ c), total-append f b c)

abbrev with_ops : {S : Type 0} → Shard S → OperationStats → Shard S
with_ops s ops = record s { stats = record s.stats { ops = ops } }

module _ {S : Type 0} (o : Store S) where
  unfoldable pub do_part : Shard S → Part → Shard S
  do_part s counts_get = with_ops s (record s.stats.ops { gets = add_uint64 s.stats.ops.gets })
  do_part s counts_put = with_ops s (record s.stats.ops { puts = add_uint64 s.stats.ops.puts })
  do_part s counts_delete =
      with_ops s (record s.stats.ops { deletes = add_uint64 s.stats.ops.deletes })
  do_part s (stores k v) = record s { store = (o.put s.store k v).0 }
  do_part s (erases k) = record s { store = (o.delete s.store k).0 }

  unfoldable pub do_parts : Shard S → List Part → Shard S
  do_parts s [] = s
  do_parts s (x ∷ xs) = do_parts (do_part s x) xs

  -- GetStats, with what others do before each of its three loads. The loads come in the order in
  -- which they are written.
  unfoldable pub get_stats_beside :
      Shard S → List Part → List Part → List Part → ShardStats × Shard S
  get_stats_beside s before_gets before_puts before_deletes =
      let storage_stats = o.stats s.store in
      let t = do_parts s before_gets in
      let u = do_parts t before_puts in
      let v = do_parts u before_deletes in
      (
        record {
          ops = record {
            gets = t.stats.ops.gets;
            puts = u.stats.ops.puts;
            deletes = v.stats.ops.deletes;
          };
          storage = storage_stats;
        },
        v,
      )

  -- The parts of an operation, one after the other, are the operation.
  operation_parts :
      (s : Shard S) (k v : Str)
      → ((shard_get o s k).0 ≡ do_parts s (counts_get ∷ []))
        × ((shard_put o s k v).0 ≡ do_parts s (counts_put ∷ stores k v ∷ []))
        × ((shard_delete o s k).0 ≡ do_parts s (counts_delete ∷ erases k ∷ []))
  unfolding do_parts do_part shard_get shard_put shard_delete
  operation_parts s k v = (refl, refl, refl)

  abbrev pub IsBounded : Shard S → Type 0
  IsBounded s =
      (s.stats.ops.gets < 2 ^ 64) × (s.stats.ops.puts < 2 ^ 64) × (s.stats.ops.deletes < 2 ^ 64)

  -- The counters behind some parts.
  abbrev AreCounted : Shard S → List Part → Shard S → Type 0
  AreCounted s xs t =
      IsBounded t
      × (t.stats.ops.gets ≡ (s.stats.ops.gets + total gets_of xs) % 2 ^ 64)
      × (t.stats.ops.puts ≡ (s.stats.ops.puts + total puts_of xs) % 2 ^ 64)
      × (t.stats.ops.deletes ≡ (s.stats.ops.deletes + total deletes_of xs) % 2 ^ 64)

  do_parts-AreCounted :
      (s : Shard S) (xs : List Part) → IsBounded s → AreCounted s xs (do_parts s xs)
  unfolding do_parts do_part
  do_parts-AreCounted s [] b = omega (arith, b)
  do_parts-AreCounted s (counts_get ∷ xs) b =
      omega (arith, do_parts-AreCounted (do_part s counts_get) xs (omega (arith, b)))
  do_parts-AreCounted s (counts_put ∷ xs) b =
      omega (arith, do_parts-AreCounted (do_part s counts_put) xs (omega (arith, b)))
  do_parts-AreCounted s (counts_delete ∷ xs) b =
      omega (arith, do_parts-AreCounted (do_part s counts_delete) xs (omega (arith, b)))
  do_parts-AreCounted s (stores k v ∷ xs) b =
      omega (arith, do_parts-AreCounted (do_part s (stores k v)) xs b)
  do_parts-AreCounted s (erases k ∷ xs) b =
      omega (arith, do_parts-AreCounted (do_part s (erases k)) xs b)

  -- The statistics that GetStats returns from counters of 64 bits, whatever parts of other operations
  -- come between its own. The storage's are those at its start. Each counter is what it was at the
  -- start plus the operations that have counted themselves before it is loaded, modulo 2^64; so if
  -- the operations beside it do not make a counter wrap, it lies between the counter's values at the
  -- start and at the end. With nothing in between, they are those of `get_stats`.
  pub get_stats_beside_lem :
      (s : Shard S) (a b c : List Part)
      → IsBounded s
      → (let (stats, t) = get_stats_beside s a b c in
          (stats.storage ≡ o.stats s.store)
          × (stats.ops.gets ≡ (s.stats.ops.gets + total gets_of a) % 2 ^ 64)
          × (stats.ops.puts ≡ (s.stats.ops.puts + total puts_of (a ++ b)) % 2 ^ 64)
          × (stats.ops.deletes ≡ (s.stats.ops.deletes + total deletes_of (a ++ (b ++ c))) % 2 ^ 64)
          × (s.stats.ops.gets + total gets_of (a ++ (b ++ c)) < 2 ^ 64
              → (s.stats.ops.gets ≤ stats.ops.gets) × (stats.ops.gets ≤ t.stats.ops.gets))
          × (s.stats.ops.puts + total puts_of (a ++ (b ++ c)) < 2 ^ 64
              → (s.stats.ops.puts ≤ stats.ops.puts) × (stats.ops.puts ≤ t.stats.ops.puts))
          × (s.stats.ops.deletes + total deletes_of (a ++ (b ++ c)) < 2 ^ 64
              → (s.stats.ops.deletes ≤ stats.ops.deletes)
                × (stats.ops.deletes ≤ t.stats.ops.deletes))
          × ((get_stats_beside s [] [] []).0 ≡ get_stats o s))
  unfolding get_stats_beside get_stats do_parts
  get_stats_beside_lem s a b c h =
      let one = do_parts-AreCounted s a h in
      let two = do_parts-AreCounted (do_parts s a) b one.0 in
      let three = do_parts-AreCounted (do_parts (do_parts s a) b) c two.0 in
      let g = totals gets_of a b c in
      let p = totals puts_of a b c in
      let d = totals deletes_of a b c in
      (
        refl,
        one.1,
        omega (arith, one, two, p),
        omega (arith, one, two, three, d),
        λ few. omega (arith, one, two, three, g, few, h),
        λ few. omega (arith, one, two, three, p, few, h),
        λ few. omega (arith, one, two, three, d, few, h),
        refl,
      )
