-- ===== src/Shard/Keys.antt =====
-- Which shard owns a key: `OwnsKey` of internal/shard/shard.go.
use torua.Base.{
  ℕ, suc, ◌%◌, ◌≡◌, refl, Str, true, some, ℤ, pos, ◌↔◌, int_eq, int_beq_iff, in_range, arith,
  lt→ltb, ◌==◌,
}
use torua.Fnv.{sum32, go_rem}
use torua.Shard.{owns_key}

-- With a positive number of shards, a shard owns a key exactly when its number is the remainder of
-- the key's hash.
pub owns_key_iff :
    (id : ℤ) (key : Str) (n : ℕ)
    → (owns_key id key (pos (suc n)) ≡ true) ↔ (go_rem (sum32 key) (pos (suc n)) ≡ some id)
unfolding owns_key
owns_key_iff id key n = (
  (λ h. ground (arith, int_beq_iff (pos (sum32 key % suc n)) id)),
  (λ h. ground (arith, int_beq_iff (pos (sum32 key % suc n)) id)),
)

-- With a positive number n of shards, there is one shard number in [0, n) such that a shard answers
-- OwnsKey with true exactly when it has that number.
pub owns_key_unique :
    (key : Str) (n : ℕ)
    → (id : ℤ) × (in_range id (pos (suc n)) ≡ true)
      × ((j : ℤ) → owns_key j key (pos (suc n)) ≡ (id == j))
unfolding owns_key
owns_key_unique key n =
    (pos (sum32 key % suc n), lt→ltb (sum32 key % suc n) (suc n) (omega arith), (λ j. refl))
