-- ===== src/Commerce/Quantity/RoundTrip.antt =====
-- `Quantity.parse` reads back the text that `toString` writes, and returns positive quantities only.
use agrilink_backend.Base.{
  ℕ, zero, suc, ◌+◌, ◌/◌, ◌%◌, ◌<◌, ◌≡◌, refl, Bool, true, false, ◌&&◌, ◌||◌, Option, none, some,
  [], ◌∷◌, ◌++◌, ok, Text, arith, is_digit, is_empty, read_digits, print, ◌==◌, pad_end, text_eq,
  all, Bool-cases, inl, inr, if◌then◌else◌,
}
use agrilink_backend.Base.Decimal.{
  read_digits-append, read_digits-print, print-is_whole, all_digits-is_whole,
}
use agrilink_backend.Commerce.Quantity.{
  Quantity, split_dot, render, is_fraction, fraction_or_empty, parse_parts, parse, fraction_text,
  to_string,
}

-- What the fraction of a number below 1000 has to satisfy, tested on every such number.
abbrev fraction_fits : ℕ → Bool
fraction_fits n =
    text_eq (pad_end 3 b'0' (fraction_text n))
      ((b'0' + n / 100) ∷ (b'0' + n / 10 % 10) ∷ (b'0' + n % 10) ∷ [])
    && (is_empty (fraction_text n) || is_fraction (some (fraction_text n)))

-- A test that every number under a bound passes.
module _ (test : ℕ → Bool) where
  passes_under : ℕ → Bool
  passes_under zero = true
  passes_under (suc bound) = let earlier = passes_under bound in earlier && test bound

  passes_under_lem : (bound : ℕ) → passes_under bound ≡ true → (n : ℕ) → n < bound → test n ≡ true
  unfolding passes_under
  passes_under_lem zero passed n small = elim small [ ]
  passes_under_lem (suc bound) passed n small = elim (Bool-cases (n == bound)) [
    | inl same ↦ ground (arith, same)
    | inr other ↦ passes_under_lem bound (ground arith) n (ground (arith, other))
  ]

fraction_fits_lem : (n : ℕ) → n < 1000 → fraction_fits n ≡ true
unfolding passes_under fraction_text
fraction_fits_lem = passes_under_lem fraction_fits 1000 refl

text_eq_sound : (s t : Text) → text_eq s t ≡ true → s ≡ t
text_eq_sound [] [] h = refl
text_eq_sound [] (d ∷ t) h = cc
text_eq_sound (c ∷ s) [] h = cc
text_eq_sound (c ∷ s) (d ∷ t) h = ground (arith, text_eq_sound s t)

-- The padded fraction has the three digits of its number.
pad_end-fraction_text :
    (n : ℕ)
    → n < 1000
    → pad_end 3 b'0' (fraction_text n)
      ≡ (b'0' + n / 100) ∷ (b'0' + n / 10 % 10) ∷ (b'0' + n % 10) ∷ []
pad_end-fraction_text n h = text_eq_sound _ _ (ground (arith, fraction_fits_lem n h))

fraction_text-is_fraction :
    (n : ℕ)
    → n < 1000
    → is_empty (fraction_text n) ≡ false
    → is_fraction (some (fraction_text n)) ≡ true
fraction_text-is_fraction n h e = ground (arith, fraction_fits_lem n h)

split_dot-digits : (s : Text) → all is_digit s ≡ true → split_dot s ≡ (s, none)
unfolding split_dot
split_dot-digits [] h = refl
split_dot-digits (c ∷ s) h = ground (arith, split_dot-digits s)

split_dot-append : (s t : Text) → all is_digit s ≡ true → split_dot (s ++ b'.' ∷ t) ≡ (s, some t)
unfolding split_dot
split_dot-append [] t h = refl
split_dot-append (c ∷ s) t h = ground (arith, split_dot-append s t)

-- The two parts of a printed quantity are read as the quantity.
parse_parts-print :
    (n : ℕ) (fraction : Option Text)
    → 0 < n
    → is_fraction fraction ≡ true
    → fraction_or_empty fraction ≡ fraction_text (n % 1000)
    → parse_parts (print (n / 1000)) fraction ≡ ok (record { thousandths = n })
unfolding parse_parts
parse_parts-print n fraction pos valid same =
    let digits : read_digits 0 (print (n / 1000) ++ pad_end 3 b'0' (fraction_or_empty fraction))
        ≡ n =
      rw
        (
          same,
          pad_end-fraction_text (n % 1000) (omega arith),
          read_digits-append 0 (print (n / 1000)),
          read_digits-print (n / 1000),
        )
        (omega arith) in
    rw (print-is_whole (n / 1000), valid, digits) (ground arith)

-- The split of a rendered text gives its two parts.
split_dot-render :
    (whole fraction : Text)
    → all is_digit whole ≡ true
    → split_dot (render whole fraction)
      ≡ (whole, (if is_empty fraction then none else some fraction))
split_dot-render whole [] h = split_dot-digits whole h
split_dot-render whole (c ∷ s) h = split_dot-append whole (c ∷ s) h

fraction_or_empty_lem : (s : Text) → fraction_or_empty (if is_empty s then none else some s) ≡ s
fraction_or_empty_lem [] = refl
fraction_or_empty_lem (c ∷ s) = refl

is_fraction_lem :
    (n : ℕ)
    → n < 1000
    → is_fraction (if is_empty (fraction_text n) then none else some (fraction_text n)) ≡ true
is_fraction_lem n h = elim (Bool-cases (is_empty (fraction_text n))) [
  | inl e ↦ rw e
  | inr e ↦ rw e (fraction_text-is_fraction n h e)
]

-- Every positive quantity is read back from its text.
pub quantity_parse-to_string : (q : Quantity) → 0 < q.thousandths → parse (to_string q) ≡ ok q
unfolding parse to_string
quantity_parse-to_string q pos =
    let n = q.thousandths in
    rw
      (split_dot-render (print (n / 1000)) (fraction_text (n % 1000))
        (all_digits-is_whole (print (n / 1000)) (print-is_whole (n / 1000))))
      (parse_parts-print n
        (if is_empty (fraction_text (n % 1000)) then none else some (fraction_text (n % 1000))) pos
        (is_fraction_lem (n % 1000) (omega arith))
        (fraction_or_empty_lem (fraction_text (n % 1000))))

-- No text is read as a quantity of zero.
pub quantity_parse_positive : (s : Text) (q : Quantity) → parse s ≡ ok q → 0 < q.thousandths
unfolding parse parse_parts
quantity_parse_positive s q h = ground arith
