-- ===== src/Base/Decimal.antt =====
-- `strconv.Atoi`, and `fmt`'s %d on numbers that are not negative.
use Prim.Native.Nat.{ℕ, zero, suc, ◌+◌, ◌-◌, ◌*◌, ◌/◌, ◌%◌, ◌^◌, ◌≤◌, ◌<◌}
use mathlib.Core.Path.{◌≡◌, ap, ◌∙◌}
use mathlib.Core.Bool.{Bool, true, false, ◌&&◌}
use mathlib.Core.List.{[], ◌∷◌, ◌++◌}
use mathlib.Core.Option.{Option, none, some}
use mathlib.Core.Logic.{inl, inr}
use native.Mathlib.Omega.{arith}
use torua.Base.Tests.{ltb, leb, nat_beq, Bool-cases, if◌then◌else◌}
use torua.Base.Lists.{All, All-snoc}
use torua.Base.Eq.{Str, ℤ, pos, negsuc}

-- %d, one digit for each unit of fuel that it needs
print_digits : ℕ → ℕ → Str
print_digits zero n = []
print_digits (suc f) n =
    let more = print_digits f (n / 10) ++ (48 + n % 10) ∷ [] in
    if ltb n 10 then (48 + n) ∷ [] else more

unfoldable pub itoa : ℕ → Str
unfolding print_digits
itoa n = print_digits (suc n) n

-- The digit loop of Atoi.
scan_digits : ℕ → Str → Option ℕ
scan_digits acc [] = some acc
scan_digits acc (c ∷ s) =
    let rest = scan_digits (acc * 10 + (c - 48)) s in if leb 48 c && leb c 57 then rest else none

abbrev pub max_int : ℕ
max_int = 2 ^ 63 - 1

-- Digits and the range of int64; `neg` after a minus sign.
parse_magnitude : Bool → Str → Option ℤ
unfolding scan_digits
parse_magnitude neg [] = none
parse_magnitude neg (c ∷ s) = elim (scan_digits 0 (c ∷ s)) [
  | none ↦ none
  | some n ↦
      if neg
      then (if nat_beq n 0
          then some (pos 0)
          else if leb n (2 ^ 63)
          then some (negsuc (n - 1))
          else none)
      else if leb n max_int
      then some (pos n)
      else none
]

unfoldable pub atoi : Str → Option ℤ
unfolding parse_magnitude
atoi [] = none
atoi (c ∷ s) =
    if nat_beq c b'-'
    then parse_magnitude true s
    else if nat_beq c b'+'
    then parse_magnitude false s
    else parse_magnitude false (c ∷ s)

scan_digits-snoc :
    (acc : ℕ) (s : Str) (d v : ℕ)
    → d < 10
    → scan_digits acc s ≡ some v
    → scan_digits acc (s ++ (48 + d) ∷ []) ≡ some (v * 10 + d)
unfolding scan_digits
scan_digits-snoc acc [] d v h e = ground arith
scan_digits-snoc acc (c ∷ s) d v h e =
    ground (arith, scan_digits-snoc (acc * 10 + (c - 48)) s d v h)

print_digits-snoc :
    (f n : ℕ)
    → ltb n 10 ≡ false
    → scan_digits 0 (print_digits f (n / 10)) ≡ some (n / 10)
    → scan_digits 0 (print_digits f (n / 10) ++ (48 + n % 10) ∷ []) ≡ some n
print_digits-snoc f n h e =
    scan_digits-snoc 0 (print_digits f (n / 10)) (n % 10) (n / 10) (omega arith) e
    ∙ ap some (omega arith)

scan-print : (f n : ℕ) → n < f → scan_digits 0 (print_digits f n) ≡ some n
unfolding print_digits
scan-print zero n h = elim h [ ]
scan-print (suc f) n h = elim (Bool-cases (ltb n 10)) [
  | inl e ↦ rw e (unfold scan_digits in ground arith)
  | inr e ↦ rw e (print_digits-snoc f n e (scan-print f (n / 10) (ground arith)))
]

-- A printed number begins with a digit.
print-head :
    (f n : ℕ) → n < f → (c : ℕ) × (s : Str) × (print_digits f n ≡ c ∷ s) × (48 ≤ c) × (c ≤ 57)
unfolding print_digits
print-head zero n h = elim h [ ]
print-head (suc f) n h = elim (Bool-cases (ltb n 10)) [
  | inl e ↦ (48 + n, [], rw e, omega arith, ground arith)
  | inr e ↦
      let (c, s, eq, lo, hi) = print-head f (n / 10) (ground arith) in
      (c, s ++ (48 + n % 10) ∷ [], rw (e, eq), lo, hi)
]

-- What Atoi makes of a text of digits that does not begin with a sign.
atoi_of_digits :
    (c : ℕ) (s : Str) (n : ℕ)
    → 48 ≤ c
    → n ≤ max_int
    → scan_digits 0 (c ∷ s) ≡ some n
    → atoi (c ∷ s) ≡ some (pos n)
unfolding atoi
atoi_of_digits c s n lo h e = rw (e, parse_magnitude) (ground arith)

pub atoi-itoa : (n : ℕ) → n ≤ max_int → atoi (itoa n) ≡ some (pos n)
unfolding itoa
atoi-itoa n h =
    let (c, s, eq, lo, hi) = print-head (suc n) n (omega arith) in
    rw eq (atoi_of_digits c s n lo h (rw (← eq) (scan-print (suc n) n (omega arith))))

-- A printed number has digits only.
print_digits-digits : (f n : ℕ) → All (λ c. (48 ≤ c) × (c ≤ 57)) (print_digits f n)
unfolding print_digits
print_digits-digits zero n = tt
print_digits-digits (suc f) n = elim (Bool-cases (ltb n 10)) [
  | inl e ↦ rw e (ground arith)
  | inr e ↦ rw e (
      All-snoc (λ c. (48 ≤ c) × (c ≤ 57)) (print_digits f (n / 10)) (48 + n % 10)
        (print_digits-digits f (n / 10)) (omega arith))
]

pub itoa-digits : (n : ℕ) → All (λ c. (48 ≤ c) × (c ≤ 57)) (itoa n)
unfolding itoa
itoa-digits n = print_digits-digits (suc n) n

-- `%d`
unfoldable pub show_int : ℤ → Str
unfolding itoa
show_int (pos n) = itoa n
show_int (negsuc n) = b'-' ∷ itoa (suc n)
