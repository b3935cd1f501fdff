-- ===== src/Base/Codes.antt =====
-- Texts as lists of code units, and the decimal notation of a BigInt.
use Prim.Native.Nat.{ℕ, zero, suc, ◌+◌, ◌-◌, ◌*◌, ◌/◌, ◌%◌}
use Prim.Native.Char.{code}
use Prim.Native.String.{String}
use mathlib.Core.Bool.{Bool, true, false, ◌&&◌, ◌||◌}
use mathlib.Core.List.{List, [], ◌∷◌, ◌++◌}
use agrilink_backend.Base.Tests.{ltb, leb, ◌==◌, if◌then◌else◌}
use agrilink_backend.Base.Lists.{length, replicate, all}

abbrev pub Text : Type 0
Text = List ℕ

abbrev pub codes : String → Text
codes String.[] = []
codes (String.◌∷◌ c s) = code c ∷ codes s

abbrev pub text_eq : Text → Text → Bool
text_eq [] [] = true
text_eq [] (d ∷ t) = false
text_eq (c ∷ s) [] = false
text_eq (c ∷ s) (d ∷ t) = c == d && text_eq s t

-- `\d` and `[1-9]`
abbrev pub is_digit : ℕ → Bool
is_digit c = leb b'0' c && leb c b'9'

abbrev pub is_positive_digit : ℕ → Bool
is_positive_digit c = leb b'1' c && leb c b'9'

abbrev pub is_empty : Text → Bool
is_empty [] = true
is_empty (c ∷ s) = false

-- /^(0|[1-9]\d*)$/
abbrev pub is_whole : Text → Bool
is_whole [] = false
is_whole (c ∷ s) = (c == b'0' && is_empty s) || (is_positive_digit c && all is_digit s)

-- `BigInt(text)` behind the number `n`, on a text of digits
abbrev pub read_digits : ℕ → Text → ℕ
read_digits n [] = n
read_digits n (c ∷ s) = read_digits (n * 10 + (c - b'0')) s

-- The digits of `n` in front of `out`. Fuel above `n` is enough: each round divides by ten.
unfoldable pub emit : ℕ → ℕ → Text → Text
emit zero n out = out
emit (suc f) n out =
    let rest = emit f (n / 10) ((b'0' + n % 10) ∷ out) in
    if ltb n 10 then (b'0' + n) ∷ out else rest

-- `BigInt.prototype.toString`
unfoldable pub print : ℕ → Text
unfolding emit
print n = emit (suc n) n []

abbrev pub pad_start : ℕ → ℕ → Text → Text
pad_start n c s = replicate (n - length s) c ++ s

abbrev pub pad_end : ℕ → ℕ → Text → Text
pad_end n c s = s ++ replicate (n - length s) c
