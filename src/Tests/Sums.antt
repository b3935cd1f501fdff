-- ===== src/Tests/Sums.antt =====
-- A sum of quantities that is read back: what the SUM of the database is taken to do can be done.
use agrilink_backend.Base.{
  ℕ, ◌<◌, ◌≡◌, ◌≢◌, Bool, true, refl, List, [], ◌∷◌, Bool-cases, inl, inr, Result, Result-cases, ok,
  err, Text, codes, arith, read_digits, all, all-append, replicate, length, ◌-◌, zero, suc, ◌==◌,
  pad_end,
}
use agrilink_backend.Commerce.Quantity
use agrilink_backend.Commerce.Quantity.{Quantity}
use agrilink_backend.Commerce.Quantity.RoundTrip.{quantity_parse-to_string, quantity_parse_positive}
use agrilink_backend.Contracts.PurchaseRequest.{is_zero_text, parse_allocated}
use agrilink_backend.Contracts.ContractRepository.Allocation.{total_of, ReadsSum}

abbrev is_zero : ℕ → Bool
is_zero c = c == b'0'

read_digits_zeros : (s : Text) → all is_zero s ≡ true → read_digits 0 s ≡ 0
read_digits_zeros [] h = refl
read_digits_zeros (c ∷ s) h =
    let first : c ≡ b'0' = ground arith in rw first (read_digits_zeros s (ground arith))

replicate_zeros : (n : ℕ) → all is_zero (replicate n b'0') ≡ true
replicate_zeros zero = refl
replicate_zeros (suc n) = replicate_zeros n

no_quantity :
    (s : Text) (q : Quantity)
    → Quantity.parse (b'0' ∷ b'.' ∷ s) ≡ ok q
    → read_digits 0 (pad_end 3 b'0' s) ≢ 0
unfolding Quantity.parse Quantity.parse_parts Quantity.split_dot
no_quantity s q k zeros = ground (arith, zeros)

-- No quantity has a text that is read as zero.
zero_text_unread : (s : Text) (q : Quantity) → is_zero_text s ≡ true → Quantity.parse s ≢ ok q
unfolding Quantity.parse Quantity.parse_parts Quantity.split_dot
zero_text_unread [] q h k = ground arith
zero_text_unread (c ∷ []) q h k = ground arith
zero_text_unread (c ∷ d ∷ s) q h k =
    let whole : c ≡ b'0' = ground arith in
    let dot : d ≡ b'.' = ground arith in
    let zeros : read_digits 0 (pad_end 3 b'0' s) ≡ 0 = read_digits_zeros (pad_end 3 b'0' s) (
      all-append is_zero s (replicate (3 - length s) b'0') (ground arith)
        (replicate_zeros (3 - length s))) in
    no_quantity s q (rw (whole, dot) at k) zeros

-- The sum, printed as a quantity.
abbrev print_total : Result ℕ → Text
print_total (err e) = codes "0"
print_total (ok n) = Quantity.to_string (record { thousandths = n })

abbrev pub exact_sum : List Text → Text
exact_sum qs = print_total (total_of qs)

total_of_positive : (q : Text) (qs : List Text) (n : ℕ) → total_of (q ∷ qs) ≡ ok n → 0 < n
unfolding total_of
total_of_positive q qs n h = elim (Result-cases (Quantity.parse q)) [
  | inl (e, failed) ↦ absurd (ground (arith, failed))
  | inr (v, parsed) ↦ ground (arith, parsed, quantity_parse_positive q v parsed)
]

parse_allocated-to_string :
    (n : ℕ) → 0 < n → parse_allocated (Quantity.to_string (record { thousandths = n })) ≡ ok n
unfolding parse_allocated
parse_allocated-to_string n pos =
    let q : Quantity = record { thousandths = n } in
    let parsed = quantity_parse-to_string q pos in
    elim (Bool-cases (is_zero_text (Quantity.to_string q))) [
      | inl z ↦ absurd (zero_text_unread (Quantity.to_string q) q z parsed)
      | inr other ↦ rw (other, parsed)
    ]

pub exact_sum-ReadsSum : ReadsSum exact_sum
exact_sum-ReadsSum q qs n h = rw h (parse_allocated-to_string n (total_of_positive q qs n h))
