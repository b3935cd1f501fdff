-- ===== src/Contracts/ContractRepository/Allocation.antt =====
-- The quantities of the contracts of a purchase request never exceed what the request needs.
use agrilink_backend.Base.{
  ℕ, ◌+◌, ◌≤◌, true, false, ◌≡◌, refl, sym, subst, inl, inr, some, List, [], ◌∷◌, ◌++◌, Bool,
  Bool-cases, Result, Result-cases, ok, Text, codes, arith, ◌==◌, ==_eq, ==_refl, All,
}
use agrilink_backend.Base.Errors.{◌>>=◌}
use agrilink_backend.Base.Table.{find_one, update_where}
use agrilink_backend.Base.TableLaws.{find_one_sound}
use agrilink_backend.Base.Keyed.{IsKeyed, found_unique, All-map, All-map_two, All-find_one}
use agrilink_backend.Commerce.Operations.Replay.{idempotent_preserves}
use agrilink_backend.Commerce.Quantity
use agrilink_backend.Commerce.Quantity.{Quantity}
use agrilink_backend.Contracts.PurchaseRequest.{
  PurchaseRequest, PurchaseRequestValues, parse_allocated, rehydrate, allocate,
}
use agrilink_backend.Contracts.RequestRepository.{
  request_to_domain, is_for, quantities_for, allocated_for,
}
use agrilink_backend.Contracts.ContractRepository.{
  new_row, find_by_id, create_from_request_atomically, sign_atomically, transition_atomically,
}
use agrilink_backend.Contracts.ContractRepository.Calls
use agrilink_backend.Contracts.ContractRepository.Calls.{ContractCall}
use agrilink_backend.Contracts.ContractRepository.Replay.{find_by_id-Reads}
use agrilink_backend.Contracts.ContractRepository.Updates.{
  transition_body-Moved, sign_body-Signed, create_body-Created,
}
use agrilink_backend.Store.{Store, ContractRow, PurchaseRequestRow}

-- The sum of quantities, in thousandths.
unfoldable pub total_of : List Text → Result ℕ
total_of [] = ok 0
total_of (t ∷ ts) = do q ← Quantity.parse t; n ← total_of ts; ok (q.thousandths + n)

-- PostgreSQL prints the SUM of a column of quantities as a number that is read as their sum.
abbrev pub ReadsSum : (List Text → Text) → Type 0
ReadsSum sum_quantities =
    (q : Text) (qs : List Text) (n : ℕ)
    → total_of (q ∷ qs) ≡ ok n
    → parse_allocated (sum_quantities (q ∷ qs)) ≡ ok n

total_of-append :
    (ts : List Text) (t : Text) (n : ℕ) (q : Quantity)
    → total_of ts ≡ ok n
    → Quantity.parse t ≡ ok q
    → total_of (ts ++ t ∷ []) ≡ ok (n + q.thousandths)
unfolding total_of
total_of-append [] t n q h k = rw k (ground arith)
total_of-append (u ∷ ts) t n q h k = elim (Result-cases (Quantity.parse u)) [
  | inl (e, failed) ↦ absurd (ground (arith, failed))
  | inr (v, parsed) ↦ elim (Result-cases (total_of ts)) [
    | inl (e, failed) ↦ absurd (ground (arith, failed, parsed))
    | inr (m, rest) ↦ rw (parsed, total_of-append ts t m q rest k) (ground (arith, rest, parsed))
  ]
]

quantities_for-append_mine :
    (id : ℕ) (cs : List ContractRow) (c : ContractRow)
    → is_for id c ≡ true
    → quantities_for id (cs ++ c ∷ []) ≡ quantities_for id cs ++ c.quantity ∷ []
unfolding quantities_for
quantities_for-append_mine id [] c h = rw h
quantities_for-append_mine id (x ∷ cs) c h = elim (Bool-cases (is_for id x)) [
  | inl mine ↦ rw (mine, quantities_for-append_mine id cs c h)
  | inr other ↦ rw (other, quantities_for-append_mine id cs c h)
]

quantities_for-append_other :
    (id : ℕ) (cs : List ContractRow) (c : ContractRow)
    → is_for id c ≡ false
    → quantities_for id (cs ++ c ∷ []) ≡ quantities_for id cs
unfolding quantities_for
quantities_for-append_other id [] c h = rw h
quantities_for-append_other id (x ∷ cs) c h = rw (quantities_for-append_other id cs c h)

quantities_for-update_where :
    (id : ℕ) (q : ContractRow → Bool) (f : ContractRow → ContractRow) (cs : List ContractRow)
    → ((c : ContractRow)
        → ((f c).purchase_request_id ≡ c.purchase_request_id) × ((f c).quantity ≡ c.quantity))
    → quantities_for id (update_where q f cs) ≡ quantities_for id cs
unfolding quantities_for update_where
quantities_for-update_where id q f [] keeps = refl
quantities_for-update_where id q f (x ∷ cs) keeps = elim (Bool-cases (q x)) [
  | inl e ↦ rw (e, (keeps x).0, (keeps x).1, quantities_for-update_where id q f cs keeps)
  | inr e ↦ rw (e, quantities_for-update_where id q f cs keeps)
]

-- What a request that loads has been loaded as.
rehydrate_sound :
    (v : PurchaseRequestValues) (r : PurchaseRequest)
    → rehydrate v ≡ ok r
    → (Quantity.parse v.quantity_needed ≡ ok r.quantity_needed)
      × (parse_allocated v.allocated_quantity ≡ ok r.allocated)
unfolding rehydrate
rehydrate_sound v r h = (ground arith, ground arith)

allocate_sound :
    (q : Quantity) (r next : PurchaseRequest)
    → allocate q r ≡ ok next
    → r.allocated + q.thousandths ≤ r.quantity_needed.thousandths
unfolding allocate
allocate_sound q r next h = ground arith

-- The contracts of a request stay within the quantity that it needs.
pub record IsWithin (contracts : List ContractRow) (r : PurchaseRequestRow) : Type 0 where
  pub needed : Quantity
  pub total : ℕ
  pub needed_parses : Quantity.parse r.quantity_needed ≡ ok needed
  pub total_parses : total_of (quantities_for r.id contracts) ≡ ok total
  pub within : total ≤ needed.thousandths

pub record IsAllocated (s : Store) : Type 0 where
  pub ids : IsKeyed (λ r. r.id) s.purchase_requests
  pub within : All (IsWithin s.contracts) s.purchase_requests

-- What the contracts sum up to is what the repository reads.
allocated_for_lem :
    (sum_quantities : List Text → Text) (id : ℕ) (s : Store) (n : ℕ)
    → ReadsSum sum_quantities
    → total_of (quantities_for id s.contracts) ≡ ok n
    → parse_allocated (allocated_for sum_quantities id s) ≡ ok n
unfolding allocated_for total_of parse_allocated
allocated_for_lem sum id s n reads h = allocated (quantities_for id s.contracts) h
  where
    allocated :
        (qs : List Text)
        → total_of qs ≡ ok n
        → parse_allocated (elim qs [ [] ↦ codes "0" | q ∷ qs ↦ sum (q ∷ qs) ]) ≡ ok n
    allocated [] h = h
    allocated (q ∷ qs) h = reads q qs n h

-- The request of a new contract, which was allocated its quantity.
grown-IsWithin :
    (sum_quantities : List Text → Text) (s : Store) (request : PurchaseRequestRow)
    (domain next : PurchaseRequest) (quantity : Quantity) (c : ContractRow)
    → ReadsSum sum_quantities
    → request_to_domain request (allocated_for sum_quantities request.id s) ≡ ok domain
    → Quantity.parse c.quantity ≡ ok quantity
    → allocate quantity domain ≡ ok next
    → is_for request.id c ≡ true
    → IsWithin s.contracts request
    → IsWithin (s.contracts ++ c ∷ []) request
unfolding request_to_domain
grown-IsWithin sum s request domain next quantity c reads loaded parsed allowed mine old =
    let (needed, allocated) =
      rehydrate_sound
        (record {
          buyer_id = request.buyer_id;
          quantity_needed = request.quantity_needed;
          allocated_quantity = allocated_for sum request.id s;
          status = request.status;
        })
        domain loaded in
    let read = allocated_for_lem sum request.id s old.total reads old.total_parses in
    let same : domain.allocated ≡ old.total = ground (arith, allocated, read) in
    let fits = allocate_sound quantity domain next allowed in
    record {
      needed = domain.quantity_needed;
      total = old.total + quantity.thousandths;
      needed_parses = needed;
      total_parses = rw (quantities_for-append_mine request.id s.contracts c mine) (
          total_of-append (quantities_for request.id s.contracts) c.quantity old.total quantity
            old.total_parses parsed);
      within = omega (arith, same, fits);
    }

other-IsWithin :
    (cs : List ContractRow) (c : ContractRow) (r : PurchaseRequestRow)
    → is_for r.id c ≡ false
    → IsWithin cs r
    → IsWithin (cs ++ c ∷ []) r
other-IsWithin cs c r other old = record {
  needed = old.needed;
  total = old.total;
  needed_parses = old.needed_parses;
  total_parses = rw (quantities_for-append_other r.id cs c other) old.total_parses;
  within = old.within;
}

update-IsWithin :
    (cs : List ContractRow) (q : ContractRow → Bool) (f : ContractRow → ContractRow)
    (r : PurchaseRequestRow)
    → ((c : ContractRow)
        → ((f c).purchase_request_id ≡ c.purchase_request_id) × ((f c).quantity ≡ c.quantity))
    → IsWithin cs r
    → IsWithin (update_where q f cs) r
update-IsWithin cs q f r keeps old = record {
  needed = old.needed;
  total = old.total;
  needed_parses = old.needed_parses;
  total_parses = rw (quantities_for-update_where r.id q f cs keeps) old.total_parses;
  within = old.within;
}

update-IsAllocated :
    (s t : Store) (q : ContractRow → Bool) (f : ContractRow → ContractRow)
    → ((c : ContractRow)
        → ((f c).purchase_request_id ≡ c.purchase_request_id) × ((f c).quantity ≡ c.quantity))
    → t.contracts ≡ update_where q f s.contracts
    → t.purchase_requests ≡ s.purchase_requests
    → IsAllocated s
    → IsAllocated t
update-IsAllocated s t q f keeps contracts requests h = record {
  ids = rw requests h.ids;
  within =
      rw (contracts, requests)
        (All-map _ _ (λ r. update-IsWithin s.contracts q f r keeps) s.purchase_requests h.within);
}

-- A contract that names the request `id` changes what is allocated of that request alone.
append-IsAllocated :
    (s t : Store) (id : ℕ) (request : PurchaseRequestRow) (c : ContractRow)
    → c.purchase_request_id ≡ some id
    → find_one (λ (r : PurchaseRequestRow). r.id == id) s.purchase_requests ≡ some request
    → t.contracts ≡ s.contracts ++ c ∷ []
    → t.purchase_requests ≡ s.purchase_requests
    → (IsWithin s.contracts request → IsWithin (s.contracts ++ c ∷ []) request)
    → IsAllocated s
    → IsAllocated t
append-IsAllocated s t id request c names found contracts requests step h =
    let grown =
      step (All-find_one (IsWithin s.contracts) _ s.purchase_requests request h.within found) in
    record {
      ids = rw requests h.ids;
      within =
          rw (contracts, requests)
            (All-map_two (IsWithin s.contracts) (λ r. (r.id == id) ≡ true → r ≡ request) _
              (λ r old only. elim (Bool-cases (r.id == id)) [
                | inl mine ↦ subst (IsWithin (s.contracts ++ c ∷ [])) (sym (only mine)) grown
                | inr other ↦ other-IsWithin s.contracts c r (rw names (ground (arith, other))) old
              ])
              s.purchase_requests h.within
              (found_unique (λ r. r.id) id s.purchase_requests request h.ids found));
    }

run_call-IsAllocated :
    (sum_quantities : List Text → Text) (c : ContractCall) (s : Store)
    → ReadsSum sum_quantities
    → IsAllocated s
    → IsAllocated (Calls.run_call sum_quantities c s)
unfolding create_from_request_atomically sign_atomically transition_atomically allocated_for
run_call-IsAllocated sum (Calls.create draw input) s reads h =
    idempotent_preserves (λ m. m) find_by_id find_by_id-Reads IsAllocated _ _ _ s
      (λ b t ran.
        let done = create_body-Created sum draw input _ _ t b ran in
        let same : done.request.id ≡ input.purchase_request_id =
          ==_eq done.request.id input.purchase_request_id
            (find_one_sound _ s.purchase_requests done.request done.found) in
        append-IsAllocated s t input.purchase_request_id done.request (new_row draw input) refl
          done.found done.contracts done.requests
          (grown-IsWithin sum s done.request done.domain done.next done.quantity
            (new_row draw input) reads (rw same done.loaded) done.parsed done.allowed
            (rw same (==_refl input.purchase_request_id)))
          h)
      h
run_call-IsAllocated sum (Calls.sign draw input) s reads h =
    idempotent_preserves some find_by_id find_by_id-Reads IsAllocated _ _ _ s
      (λ b t ran.
        let done = sign_body-Signed draw input _ _ t b ran in
        update-IsAllocated s t _ _ (λ c. (refl, refl)) done.contracts done.requests h)
      h
run_call-IsAllocated sum (Calls.move draw input) s reads h =
    idempotent_preserves some find_by_id find_by_id-Reads IsAllocated _ _ _ s
      (λ b t ran.
        let done = transition_body-Moved draw input _ _ t b ran in
        update-IsAllocated s t _ _ (λ c. (refl, refl)) done.contracts done.requests h)
      h

-- If the SUM of the database is read as the sum, a store with the following properties keeps them,
-- whatever creations, signatures and transitions the contract repository gets, in any order and
-- whether they succeed or throw: the requests have distinct ids, and the quantities of the contracts
-- of a request never add up to more than it needs.
pub run_calls-IsAllocated :
    (sum_quantities : List Text → Text) (cs : List ContractCall) (s : Store)
    → ReadsSum sum_quantities
    → IsAllocated s
    → IsAllocated (Calls.run_calls sum_quantities cs s)
run_calls-IsAllocated sum [] s reads h = h
run_calls-IsAllocated sum (c ∷ cs) s reads h =
    run_calls-IsAllocated sum cs (Calls.run_call sum c s) reads
      (run_call-IsAllocated sum c s reads h)
