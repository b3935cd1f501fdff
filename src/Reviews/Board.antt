-- ===== src/Reviews/Board.antt =====
-- What reviews are for, without rows: a board of entries under their ids, its steps, and what no
-- run of steps changes.
use agrilink_backend.Base.{
  ℕ, Bool, true, false, ◌≡◌, ◌≢◌, refl, ap, ◌∙◌, inl, inr, Option, none, some, List, [], ◌∷◌, Text,
  arith, ◌==◌, if◌then◌else◌, Bool-cases, ==_eq,
}
use agrilink_backend.Reviews.Repository.{is_rating}

pub record Entry : Type 0 where
  pub reviewer : ℕ
  pub seller : Option ℕ
  pub product : Option ℕ
  pub rating : ℕ
  pub reply : Option Text
  pub hidden : Bool

abbrev pub Board : Type 0
Board = ℕ → Option Entry

abbrev pub put : ℕ → Entry → Board → Board
put id e b k = if k == id then some e else b k

abbrev pub answered : Text → Entry → Entry
answered text e = record e { reply = some text }

abbrev pub set_hidden : Bool → Entry → Entry
set_hidden hidden e = record e { hidden = hidden }

-- What somebody asks of the board: a reviewer submits a review of the product of a seller, a seller
-- answers a review, and a moderator hides or shows one.
pub data Act : Type 0 where
  submits : (id reviewer product rating : ℕ) → Act
  answers : (id seller : ℕ) (text : Text) → Act
  hides : (id : ℕ) → Act
  shows : (id : ℕ) → Act
  rests : Act

-- One step of the board on an act: the first review of the product of somebody else, an answer by
-- the seller of the review where there is no reply, the hiding of a visible review and the showing
-- of a hidden one.
pub data Step : Act → Board → Board → Type 0 where
  submit :
      {b : Board} (id reviewer seller product rating : ℕ)
      → b id ≡ none
      → reviewer ≢ seller
      → is_rating rating ≡ true
      → ((k : ℕ) (e : Entry) → b k ≡ some e → e.product ≡ some product → e.reviewer ≢ reviewer)
      → Step (submits id reviewer product rating) b (
          put id
            (record {
              reviewer = reviewer;
              seller = some seller;
              product = some product;
              rating = rating;
              reply = none;
              hidden = false;
            })
            b)
  answer :
      {b : Board} (id seller : ℕ) (e : Entry) (text : Text)
      → b id ≡ some e
      → e.seller ≡ some seller
      → e.reply ≡ none
      → Step (answers id seller text) b (put id (answered text e) b)
  hide :
      {b : Board} (id : ℕ) (e : Entry)
      → b id ≡ some e
      → e.hidden ≡ false
      → Step (hides id) b (put id (set_hidden true e) b)
  show :
      {b : Board} (id : ℕ) (e : Entry)
      → b id ≡ some e
      → e.hidden ≡ true
      → Step (shows id) b (put id (set_hidden false e) b)

-- When an act may be refused: an answer only where there is no review of that seller without a reply,
-- hiding only where there is no visible review, and showing only where there is no hidden one. That
-- a submission is refused can have reasons that the board does not show.
abbrev pub IsRefusable : Act → Board → Type 0
IsRefusable (submits id reviewer product rating) b = Unit
IsRefusable (answers id seller text) b =
    (e : Entry) → b id ≡ some e → e.seller ≡ some seller → e.reply ≢ none
IsRefusable (hides id) b = (e : Entry) → b id ≡ some e → e.hidden ≢ false
IsRefusable (shows id) b = (e : Entry) → b id ≡ some e → e.hidden ≢ true
IsRefusable rests b = Unit

-- What the board goes through on a sequence of acts, each of which makes its step or is refused.
pub data Reach : List Act → Board → Board → Type 0 where
  stop : {b : Board} → Reach [] b b
  next :
      {a : Act} {acts : List Act} {b c d : Board}
      → Step a b c
      → Reach acts c d
      → Reach (a ∷ acts) b d
  refuse :
      {a : Act} {acts : List Act} {b c : Board}
      → IsRefusable a b
      → Reach acts b c
      → Reach (a ∷ acts) b c

-- What a later entry keeps of an earlier one: everything but the visibility, and the reply where
-- there was one.
pub record Keeps (e e' : Entry) : Type 0 where
  pub reviewer : e'.reviewer ≡ e.reviewer
  pub seller : e'.seller ≡ e.seller
  pub product : e'.product ≡ e.product
  pub rating : e'.rating ≡ e.rating
  pub reply : (text : Text) → e.reply ≡ some text → e'.reply ≡ some text

abbrev pub Stays : Entry → Option Entry → Type 0
Stays e found = (e' : Entry) × (found ≡ some e') × Keeps e e'

Keeps-self : (e : Entry) → Keeps e e
Keeps-self e = record {
  reviewer = refl;
  seller = refl;
  product = refl;
  rating = refl;
  reply = λ t h. h;
}

put-Stays :
    (b : Board) (id k : ℕ) (old new e : Entry)
    → b id ≡ some old
    → Keeps old new
    → b k ≡ some e
    → Stays e (put id new b k)
put-Stays b id k old new e there keeps found = elim (Bool-cases (k == id)) [
  | inl here ↦
      let same : e ≡ old = ground (arith, ap b (==_eq k id here)) in
      rw (here, same) (new, refl, keeps)
  | inr other ↦ rw other (e, found, Keeps-self e)
]

Step-Stays : {a : Act} {b c : Board} (k : ℕ) (e : Entry) → Step a b c → b k ≡ some e → Stays e (c k)
Step-Stays k e (submit {b} id reviewer seller product rating empty other range first) found =
    elim (Bool-cases (k == id)) [
      | inl here ↦ absurd (ground (arith, ap b (==_eq k id here)))
      | inr away ↦ rw away (e, found, Keeps-self e)
    ]
Step-Stays k e (answer {b} id seller old text there own unreplied) found =
    put-Stays b id k old (answered text old) e there
      (record {
        reviewer = refl;
        seller = refl;
        product = refl;
        rating = refl;
        reply = λ t h. absurd (ground arith);
      })
      found
Step-Stays k e (hide {b} id old there shown) found =
    put-Stays b id k old (set_hidden true old) e there
      (record { reviewer = refl; seller = refl; product = refl; rating = refl; reply = λ t h. h })
      found
Step-Stays k e (show {b} id old there hidden) found =
    put-Stays b id k old (set_hidden false old) e there
      (record { reviewer = refl; seller = refl; product = refl; rating = refl; reply = λ t h. h })
      found

pub Reach-Stays :
    {acts : List Act} {b c : Board} (k : ℕ) (e : Entry)
    → Reach acts b c
    → b k ≡ some e
    → Stays e (c k)
Reach-Stays k e stop found = (e, found, Keeps-self e)
Reach-Stays k e (refuse idle rest) found = Reach-Stays k e rest found
Reach-Stays k e (next step rest) found =
    let (e', there, kept) = Step-Stays k e step found in
    let (e'', then_there, still) = Reach-Stays k e' rest there in
    (
      e'',
      then_there,
      record {
        reviewer = still.reviewer ∙ kept.reviewer;
        seller = still.seller ∙ kept.seller;
        product = still.product ∙ kept.product;
        rating = still.rating ∙ kept.rating;
        reply = λ t h. still.reply t (kept.reply t h);
      },
    )
