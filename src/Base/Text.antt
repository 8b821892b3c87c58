-- ===== src/Base/Text.antt =====
-- What the program uses of Go's package `strings`, over strings as lists of bytes.
use Prim.Native.Nat.{ℕ, suc}
use Prim.Native.Char.{code}
use Prim.Native.String.{String}
use mathlib.Core.Path.{◌≡◌, refl}
use mathlib.Core.Bool.{Bool, true, false, ◌&&◌, ◌||◌}
use mathlib.Core.List.{[], ◌∷◌, ◌++◌}
use mathlib.Core.Option
use mathlib.Core.Option.{Option, none, some}
use native.Mathlib.Omega.{arith}
use torua.Base.Tests.{ltb, nat_beq, if◌then◌else◌}
use torua.Base.Eq.{Str}
use torua.Base.Lists.{length, drop}

-- The bytes of an ASCII literal.
abbrev pub ascii : String → Str
ascii String.[] = []
ascii (String.◌∷◌ c s) = code c ∷ ascii s

-- `strings.HasPrefix(s, p)`
unfoldable pub has_prefix : Str → Str → Bool
has_prefix s [] = true
has_prefix [] (b ∷ p) = false
has_prefix (a ∷ s) (b ∷ p) = nat_beq a b && has_prefix s p

-- `strings.TrimPrefix(s, p)`
unfoldable pub trim_prefix : Str → Str → Str
unfolding has_prefix
trim_prefix s p = if has_prefix s p then drop (length p) s else s

-- `strings.Index(s, string(c))`, with `none` for -1
unfoldable pub index_byte : Str → ℕ → Option ℕ
index_byte [] c = none
index_byte (a ∷ s) c =
    let rest = Option.map suc (index_byte s c) in if nat_beq a c then some 0 else rest

-- `s < t`, byte by byte
unfoldable pub str_lt : Str → Str → Bool
str_lt s [] = false
str_lt [] (b ∷ t) = true
str_lt (a ∷ s) (b ∷ t) = ltb a b || (nat_beq a b && str_lt s t)

pub has_prefix-append : (p s : Str) → has_prefix (p ++ s) p ≡ true
unfolding has_prefix
has_prefix-append [] s = refl
has_prefix-append (a ∷ p) s = ground (arith, has_prefix-append p s)

pub drop-append : (p s : Str) → drop (length p) (p ++ s) ≡ s
drop-append [] s = refl
drop-append (a ∷ p) s = drop-append p s

pub trim_prefix-append : (p s : Str) → trim_prefix (p ++ s) p ≡ s
trim_prefix-append p s =
    unfold trim_prefix in ground (arith, has_prefix-append p s, drop-append p s)

append-drop : (s p : Str) → has_prefix s p ≡ true → p ++ drop (length p) s ≡ s
unfolding has_prefix
append-drop s [] h = refl
append-drop [] (b ∷ p) h = cc
append-drop (a ∷ s) (b ∷ p) h =
    let heads : a ≡ b = ground (arith, h) in
    let tails : p ++ drop (length p) s ≡ s = append-drop s p (ground (arith, h)) in
    cc (heads, tails)

pub append-trim_prefix : (s p : Str) → has_prefix s p ≡ true → p ++ trim_prefix s p ≡ s
unfolding trim_prefix
append-trim_prefix s p h = rw h (append-drop s p h)
