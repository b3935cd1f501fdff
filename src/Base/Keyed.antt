-- ===== src/Base/Keyed.antt =====
-- Tables with a primary key, and predicates of all rows under insertion and update.
use Prim.Native.Nat.{ℕ}
use mathlib.Core.Path.{◌≡◌, refl, sym, subst, ◌∙◌}
use mathlib.Core.Logic.{inl, inr}
use mathlib.Core.Bool.{Bool, true, false}
use mathlib.Core.Option.{none, some}
use mathlib.Core.List.{List, [], ◌∷◌, ◌++◌}
use native.Mathlib.Omega.{arith}
use agrilink_backend.Base.Tests.{◌==◌, if◌then◌else◌, Bool-cases, ==_eq, ==_refl}
use agrilink_backend.Base.Lists.{All}
use agrilink_backend.Base.Table.{find_one, select, update_where, count_where}
use agrilink_backend.Base.TableLaws.{find_one-update_where, find_one_sound, found-update_where}

module _ {R : Type 0} where
  pub All-update_where :
      (P : R → Type 0) (q : R → Bool) (f : R → R) (rs : List R)
      → All P rs
      → All (λ r. P r → q r ≡ true → P (f r)) rs
      → All P (update_where q f rs)
  unfolding update_where
  All-update_where P q f [] h k = tt
  All-update_where P q f (r ∷ rs) (p, h) (step, k) = elim (Bool-cases (q r)) [
    | inl e ↦ rw e (step p e, All-update_where P q f rs h k)
    | inr e ↦ rw e (p, All-update_where P q f rs h k)
  ]

  pub All-map : (P Q : R → Type 0) → ((r : R) → P r → Q r) → (rs : List R) → All P rs → All Q rs
  All-map P Q f [] h = tt
  All-map P Q f (r ∷ rs) (p, h) = (f r p, All-map P Q f rs h)

  pub All-map_two :
      (P Q S : R → Type 0)
      → ((r : R) → P r → Q r → S r)
      → (rs : List R) → All P rs
      → All Q rs
      → All S rs
  All-map_two P Q S f [] h k = tt
  All-map_two P Q S f (r ∷ rs) (p, h) (q, k) = (f r p q, All-map_two P Q S f rs h k)

  pub All-updated :
      (P : R → Type 0) (q : R → Bool) (f : R → R) (rs : List R)
      → All (λ r. P (if q r then f r else r)) rs
      → All P (update_where q f rs)
  unfolding update_where
  All-updated P q f [] h = tt
  All-updated P q f (r ∷ rs) (p, h) = (p, All-updated P q f rs h)

  pub All-select : (P : R → Type 0) (q : R → Bool) (rs : List R) → All P rs → All P (select q rs)
  unfolding select
  All-select P q [] h = tt
  All-select P q (r ∷ rs) (p, h) = elim (Bool-cases (q r)) [
    | inl e ↦ rw e (p, All-select P q rs h)
    | inr e ↦ rw e (All-select P q rs h)
  ]

  -- A condition that selects a row finds one.
  pub found_of_count :
      (q : R → Bool) (rs : List R) → count_where q rs ≡ 1 → (r : R) × (find_one q rs ≡ some r)
  unfolding count_where find_one
  found_of_count q [] h = absurd (omega arith)
  found_of_count q (x ∷ rs) h = elim (Bool-cases (q x)) [
    | inl e ↦ (x, rw e)
    | inr e ↦ rw e (found_of_count q rs (rw e at h))
  ]

  pub not_found-append :
      (p : R → Bool) (rs : List R) (r : R)
      → find_one p rs ≡ none
      → p r ≡ false
      → find_one p (rs ++ r ∷ []) ≡ none
  unfolding find_one
  not_found-append p [] r h e = rw e
  not_found-append p (x ∷ rs) r h e = ground (arith, not_found-append p rs r)

  pub All-find_one :
      (P : R → Type 0) (p : R → Bool) (rs : List R) (r : R)
      → All P rs
      → find_one p rs ≡ some r
      → P r
  unfolding find_one
  All-find_one P p [] r h e = absurd (cc)
  All-find_one P p (x ∷ rs) r (px, h) e = elim (Bool-cases (p x)) [
    | inl yes_x ↦ subst P (ground (arith, yes_x)) px
    | inr no_x ↦ All-find_one P p rs r h (ground (arith, no_x))
  ]

  -- A condition under which nothing is found holds of no row.
  pub All-not_found :
      (q : R → Bool) (rs : List R) → find_one q rs ≡ none → All (λ r. q r ≡ false) rs
  unfolding find_one
  All-not_found q [] h = tt
  All-not_found q (x ∷ rs) h = elim (Bool-cases (q x)) [
    | inl e ↦ absurd (ground (arith, e))
    | inr e ↦ (e, All-not_found q rs (ground (arith, e)))
  ]

  module _ (key : R → ℕ) where
    -- No two rows have one key.
    abbrev pub IsKeyed : List R → Type 0
    IsKeyed [] = Unit
    IsKeyed (r ∷ rs) = (find_one (λ x. key x == key r) rs ≡ none) × IsKeyed rs

    pub not_found-All :
        (k : ℕ) (rs : List R)
        → find_one (λ x. key x == k) rs ≡ none
        → All (λ x. (key x == k) ≡ false) rs
    unfolding find_one
    not_found-All k [] h = tt
    not_found-All k (x ∷ rs) h = elim (Bool-cases (key x == k)) [
      | inl e ↦ absurd (ground (arith, e))
      | inr e ↦ (e, not_found-All k rs (ground (arith, e)))
    ]

    -- In a keyed table the row that is found is the only one with its key.
    pub found_unique :
        (k : ℕ) (rs : List R) (r : R)
        → IsKeyed rs
        → find_one (λ x. key x == k) rs ≡ some r
        → All (λ x. (key x == k) ≡ true → x ≡ r) rs
    unfolding find_one
    found_unique k [] r u h = tt
    found_unique k (x ∷ rs) r (first, u) h = elim (Bool-cases (key x == k)) [
      | inl e ↦
          let none_left =
            not_found-All k rs
              (subst (λ m. find_one (λ y. key y == m) rs ≡ none) (==_eq (key x) k e) first) in
          (
            (λ _. ground (arith, e)),
            All-map _ _ (λ y other same. absurd (ground arith)) rs none_left,
          )
      | inr e ↦ ((λ same. absurd (ground arith)), found_unique k rs r u (ground (arith, e)))
    ]

    -- In a keyed table a row that is found under its key and more is the row of the key.
    pub find_one-key :
        (q : R → Bool) (k : ℕ) (rs : List R) (r : R)
        → IsKeyed rs
        → ((x : R) → q x ≡ true → (key x == k) ≡ true)
        → find_one q rs ≡ some r
        → find_one (λ x. key x == k) rs ≡ some r
    unfolding find_one
    find_one-key q k [] r u named h = absurd (cc)
    find_one-key q k (x ∷ rs) r (first, u) named h = elim (Bool-cases (q x)) [
      | inl e ↦ let own = named x e in rw own (rw e at h)
      | inr e ↦
          let later : find_one q rs ≡ some r = rw e at h in
          elim (Bool-cases (key x == k)) [
            | inr other ↦ rw other (find_one-key q k rs r u named later)
            | inl same ↦
                let none_left = not_found-All k rs (
                  subst (λ m. find_one (λ y. key y == m) rs ≡ none) (==_eq (key x) k same) first) in
                let away : (key r == k) ≡ false =
                  All-find_one (λ y. (key y == k) ≡ false) q rs r none_left later in
                absurd (ground (arith, named r (find_one_sound q rs r later), away))
          ]
    ]

    pub IsKeyed-append :
        (rs : List R) (r : R)
        → IsKeyed rs
        → find_one (λ x. key x == key r) rs ≡ none
        → IsKeyed (rs ++ r ∷ [])
    unfolding find_one
    IsKeyed-append [] r u h = (refl, tt)
    IsKeyed-append (x ∷ rs) r (first, u) h =
        let other : (key x == key r) ≡ false = ground arith in
        (
          not_found-append (λ y. key y == key x) rs r first (ground arith),
          IsKeyed-append rs r u (ground arith),
        )

    pub IsKeyed-update_where :
        (q : R → Bool) (f : R → R) (rs : List R)
        → ((r : R) → key (f r) ≡ key r)
        → IsKeyed rs
        → IsKeyed (update_where q f rs)
    unfolding update_where
    IsKeyed-update_where q f [] keeps u = tt
    IsKeyed-update_where q f (x ∷ rs) keeps (first, u) =
        let same : key (if q x then f x else x) ≡ key x = ground (arith, keeps x) in
        (
          rw same
              (find_one-update_where (λ y. key y == key x) q f rs (λ r. rw (keeps r)) ∙ rw first),
          IsKeyed-update_where q f rs keeps u,
        )

    -- An update that touches only the row that was found keeps what that row keeps.
    pub All-update_found :
        (P : R → Type 0) (k : ℕ) (rs : List R) (r : R) (q : R → Bool) (f : R → R)
        → IsKeyed rs
        → find_one (λ x. key x == k) rs ≡ some r
        → ((x : R) → q x ≡ true → key x ≡ key r)
        → All P rs
        → P (f r)
        → All P (update_where q f rs)
    All-update_found P k rs r q f keyed found touches h step =
        let same : key r ≡ k = ==_eq (key r) k (find_one_sound (λ x. key x == k) rs r found) in
        All-update_where P q f rs h (
          All-map _ _
            (λ x only _ touched.
              subst (λ y. P (f y)) (sym (only (rw (touches x touched, same) (==_refl k)))) step)
            rs (found_unique k rs r keyed found))

    -- The row that was found is found again, under its own key, in the updated table.
    pub found_again :
        (k : ℕ) (rs rs' : List R) (r : R) (q : R → Bool) (f : R → R)
        → ((x : R) → key (f x) ≡ key x)
        → find_one (λ x. key x == k) rs ≡ some r
        → rs' ≡ update_where q f rs
        → (r' : R) × (find_one (λ x. key x == key r) rs' ≡ some r')
    found_again k rs rs' r q f keeps found updated =
        let same : key r ≡ k = ==_eq (key r) k (find_one_sound (λ x. key x == k) rs r found) in
        let (r', still) = found-update_where (λ x. key x == k) q f rs r (λ x. rw (keeps x)) found in
        (r', rw (updated, same) still)

    -- A condition that selects one row, and only rows with the key of the row that was found,
    -- selects that row.
    pub selects_found :
        (k : ℕ) (rs : List R) (r : R) (q : R → Bool)
        → IsKeyed rs
        → find_one (λ x. key x == k) rs ≡ some r
        → ((x : R) → q x ≡ true → key x ≡ key r)
        → count_where q rs ≡ 1
        → q r ≡ true
    selects_found k rs r q keyed found touches one =
        let same : key r ≡ k = ==_eq (key r) k (find_one_sound (λ x. key x == k) rs r found) in
        let (x, selected) = found_of_count q rs one in
        let holds = find_one_sound q rs x selected in
        let only =
          All-find_one (λ y. (key y == k) ≡ true → y ≡ r) q rs x (found_unique k rs r keyed found)
            selected in
        subst (λ y. q y ≡ true) (only (rw (touches x holds, same) (==_refl k))) holds

    -- After an update of the row that was found, a predicate holds of all rows if it holds of that
    -- row as written, and follows for the rows with other keys.
    pub All-update_one :
        (P Q : R → Type 0) (k : ℕ) (rs : List R) (r : R) (q : R → Bool) (f : R → R)
        → IsKeyed rs
        → find_one (λ x. key x == k) rs ≡ some r
        → ((x : R) → q x ≡ true → key x ≡ key r)
        → count_where q rs ≡ 1
        → ((x : R) → (key r == key x) ≡ false → P x → Q x)
        → All P rs
        → Q (f r)
        → All Q (update_where q f rs)
    All-update_one P Q k rs r q f keyed found touches one others h step =
        let same : key r ≡ k = ==_eq (key r) k (find_one_sound (λ x. key x == k) rs r found) in
        let selected : q r ≡ true = selects_found k rs r q keyed found touches one in
        All-updated Q q f rs (
          All-map_two P (λ x. (key x == k) ≡ true → x ≡ r) (λ x. Q (if q x then f x else x))
            (λ x p only. elim (Bool-cases (key x == k)) [
              | inl mine ↦
                  subst (λ y. Q (if q y then f y else y)) (sym (only mine)) (rw selected step)
              | inr other ↦ elim (Bool-cases (q x)) [
                | inl touched ↦ absurd (ground (arith, touches x touched))
                | inr left ↦ rw left (others x (ground arith) p)
              ]
            ])
            rs h (found_unique k rs r keyed found))
