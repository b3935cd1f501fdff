-- ===== src/Base/Decimal.antt =====
-- The decimal notation is read back, and is the only notation of its number that `is_whole` accepts.
use Prim.Native.Nat.{ℕ, zero, suc, ◌+◌, ◌-◌, ◌*◌, ◌/◌, ◌%◌, ◌<◌}
use mathlib.Core.Path.{◌≡◌, refl, ◌∙◌, ap}
use mathlib.Core.Logic.{inl, inr}
use mathlib.Core.Bool.{true, false}
use mathlib.Core.List.{[], ◌∷◌, ◌++◌}
use native.Mathlib.Omega.{arith}
use native.Mathlib.Nat.{zero-add}
use agrilink_backend.Base.Tests.{ltb, Bool-cases}
use agrilink_backend.Base.Lists.{all}
use agrilink_backend.Base.Codes.{Text, is_digit, is_whole, read_digits, emit, print}

pub read_digits-append :
    (n : ℕ) (s t : Text) → read_digits n (s ++ t) ≡ read_digits (read_digits n s) t
read_digits-append n [] t = refl
read_digits-append n (c ∷ s) t = read_digits-append (n * 10 + (c - b'0')) s t

-- The last digit of `n` behind the digits before it.
last_digit : (n : ℕ) → n / 10 * 10 + (b'0' + n % 10 - b'0') ≡ n
last_digit n = omega arith

read_digits-emit : (f n : ℕ) (out : Text) → n < f → read_digits 0 (emit f n out) ≡ read_digits n out
unfolding emit
read_digits-emit zero n out h = elim h [ ]
read_digits-emit (suc f) n out h = elim (Bool-cases (ltb n 10)) [
  | inl small ↦ rw small (ap (λ k. read_digits k out) (omega arith))
  | inr large ↦ rw large (
      read_digits-emit f (n / 10) ((b'0' + n % 10) ∷ out) (ground arith)
      ∙ ap (λ k. read_digits k out) (last_digit n))
]

pub read_digits-print : (n : ℕ) → read_digits 0 (print n) ≡ n
unfolding print
read_digits-print n = read_digits-emit (suc n) n [] (omega arith)

emit-is_whole :
    (f n : ℕ) (out : Text)
    → n < f
    → 0 < n
    → all is_digit out ≡ true
    → is_whole (emit f n out) ≡ true
unfolding emit
emit-is_whole zero n out h pos digits = elim h [ ]
emit-is_whole (suc f) n out h pos digits = elim (Bool-cases (ltb n 10)) [
  | inl small ↦ rw small (ground arith)
  | inr large ↦ rw large (
      emit-is_whole f (n / 10) ((b'0' + n % 10) ∷ out) (ground arith) (ground arith) (ground arith))
]

pub print-is_whole : (n : ℕ) → is_whole (print n) ≡ true
unfolding print emit
print-is_whole zero = refl
print-is_whole (suc n) = emit-is_whole (suc (suc n)) (suc n) [] (omega arith) (omega arith) refl

-- Any fuel above the number gives the same digits.
emit_fuel : (f g n : ℕ) (out : Text) → n < f → n < g → emit f n out ≡ emit g n out
unfolding emit
emit_fuel zero g n out h k = elim h [ ]
emit_fuel (suc f) zero n out h k = elim k [ ]
emit_fuel (suc f) (suc g) n out h k = elim (Bool-cases (ltb n 10)) [
  | inl small ↦ rw small
  | inr large ↦
      rw large (emit_fuel f g (n / 10) ((b'0' + n % 10) ∷ out) (ground arith) (ground arith))
]

-- Printing undoes one step of reading, behind a number that has digits of its own.
emit_step :
    (n c : ℕ) (out : Text)
    → 0 < n
    → is_digit c ≡ true
    → emit (suc (n * 10 + (c - b'0'))) (n * 10 + (c - b'0')) out ≡ emit (suc n) n (c ∷ out)
unfolding emit
emit_step n c out pos digit =
    let m = n * 10 + (c - b'0') in
    let large : ltb m 10 ≡ false = ground arith in
    let quotient : m / 10 ≡ n = ground arith in
    let last : b'0' + m % 10 ≡ c = ground arith in
    rw (large, quotient, last) (emit_fuel m (suc n) n (c ∷ out) (ground arith) (omega arith))

print-read_digits :
    (n : ℕ) (s : Text) → 0 < n → all is_digit s ≡ true → print (read_digits n s) ≡ emit (suc n) n s
print-read_digits n [] pos h = unfold print in refl
print-read_digits n (c ∷ s) pos h =
    print-read_digits (n * 10 + (c - b'0')) s (omega arith) (ground arith)
    ∙ emit_step n c s pos (ground arith)

emit_digit :
    (c : ℕ) (out : Text) → is_digit c ≡ true → emit (suc (c - b'0')) (c - b'0') out ≡ c ∷ out
unfolding emit
emit_digit c out digit =
    let small : ltb (c - b'0') 10 ≡ true = ground arith in
    let same : b'0' + (c - b'0') ≡ c = ground arith in rw (small, same)

-- The only notation that `is_whole` accepts for a number is the printed one.
pub print-read_digits_whole : (s : Text) → is_whole s ≡ true → print (read_digits 0 s) ≡ s
unfolding print
print-read_digits_whole [] h = cc
print-read_digits_whole (c ∷ []) h = rw zero-add (emit_digit c [] (ground arith))
print-read_digits_whole (c ∷ d ∷ s) h = rw zero-add (
    print-read_digits (c - b'0') (d ∷ s) (ground arith) (ground arith)
    ∙ emit_digit c (d ∷ s) (ground arith))

pub all_digits-is_whole : (s : Text) → is_whole s ≡ true → all is_digit s ≡ true
all_digits-is_whole [] h = refl
all_digits-is_whole (c ∷ []) h = ground arith
all_digits-is_whole (c ∷ d ∷ s) h = ground arith
