-- ===== src/Commerce/Quantity.antt =====
-- `Quantity` of modules/commerce/domain/commerce-values.ts: thousandths of a unit. A BigInt that the
-- code keeps non-negative is a natural number.
pub mod RoundTrip
use agrilink_backend.Base.{
  ℕ, zero, suc, ◌/◌, ◌%◌, Bool, true, false, ◌&&◌, Option, none, some, [], ◌∷◌, ◌++◌, Result, ok,
  err, quantity_validation, Text, is_digit, is_whole, read_digits, is_empty, print, pad_start,
  pad_end, length, all, ltb, leb, ◌==◌, if◌then◌else◌,
}

pub record Quantity : Type 0 where
  pub thousandths : ℕ

-- `input.split('.')` as far as its first dot: the part before it, and the part behind it if there
-- is one. A text that the pattern accepts has no second dot.
unfoldable pub split_dot : Text → Text × Option Text
split_dot [] = ([], none)
split_dot (c ∷ s) =
    let (whole, fraction) = split_dot s in if c == b'.' then ([], some s) else (c ∷ whole, fraction)

-- (\.\d{1,3})?, behind the dot
abbrev pub is_fraction : Option Text → Bool
is_fraction none = true
is_fraction (some s) = leb 1 (length s) && leb (length s) 3 && all is_digit s

-- `fraction = ''`
abbrev pub fraction_or_empty : Option Text → Text
fraction_or_empty none = []
fraction_or_empty (some s) = s

-- The part of `parse` behind the split.
unfoldable pub parse_parts : Text → Option Text → Result Quantity
parse_parts whole fraction =
    let n = read_digits 0 (whole ++ pad_end 3 b'0' (fraction_or_empty fraction)) in
    if is_whole whole && is_fraction fraction
    then (if n == 0 then err quantity_validation else ok (record { thousandths = n }))
    else err quantity_validation

unfoldable pub parse : Text → Result Quantity
parse input = let (whole, fraction) = split_dot input in parse_parts whole fraction

-- `.replace(/0+$/, '')`
unfoldable pub strip_zeros : Text → Text
strip_zeros [] = []
strip_zeros (c ∷ s) =
    let rest = strip_zeros s in if c == b'0' && is_empty rest then [] else c ∷ rest

unfoldable pub fraction_text : ℕ → Text
unfolding print strip_zeros
fraction_text n = strip_zeros (pad_start 3 b'0' (print n))

abbrev pub render : Text → Text → Text
render whole fraction = if is_empty fraction then whole else whole ++ b'.' ∷ fraction

unfoldable pub to_string : Quantity → Text
to_string q = render (print (q.thousandths / 1000)) (fraction_text (q.thousandths % 1000))
