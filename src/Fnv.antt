-- ===== src/Fnv.antt =====
-- hash/fnv's 32-bit FNV-1a, and the map from keys to shards that shard_registry.go and shard.go
-- share: `int(h.Sum32()) % numShards`, with a 64-bit `int`.
use Prim.Native.Nat.{bit_xor}
use torua.Base.{
  ℕ, zero, suc, ◌*◌, ◌%◌, ◌^◌, ◌<◌, ◌≡◌, refl, Str, [], ◌∷◌, Option, none, some, ℤ, pos, negsuc,
  ascii, arith,
}

-- One byte of FNV-1a: xor, then multiply in uint32.
abbrev pub step : ℕ → ℕ → ℕ
step h b = (bit_xor h b * 16777619) % 2 ^ 32

unfoldable pub write : ℕ → Str → ℕ
write h [] = h
write h (b ∷ s) = write (step h b) s

-- `h := fnv.New32a(); h.Write([]byte(key)); h.Sum32()`
unfoldable pub sum32 : Str → ℕ
unfolding write
sum32 key = write 2166136261 key

-- Go's `a % n` for `a` not negative: `none` is the panic of a division by zero.
abbrev pub go_rem : ℕ → ℤ → Option ℤ
go_rem a (pos zero) = none
go_rem a (pos (suc n)) = some (pos (a % suc n))
go_rem a (negsuc n) = some (pos (a % suc n))

sum32_a : sum32 (ascii "a") ≡ 0xe40c292c
unfolding sum32
sum32_a = refl

sum32_foobar : sum32 (ascii "foobar") ≡ 0xbf9cf968
unfolding sum32
sum32_foobar = refl

write-lt : (h : ℕ) (s : Str) → h < 2 ^ 32 → write h s < 2 ^ 32
unfolding write
write-lt h [] p = p
write-lt h (b ∷ s) p = write-lt (step h b) s (omega arith)

-- The hash is a uint32.
pub sum32-lt : (key : Str) → sum32 key < 2 ^ 32
unfolding sum32
sum32-lt key = write-lt 2166136261 key (omega arith)
