-- ===== src/IntervalTree/Order.antt =====
-- The order of the intervals, by `low` and then `high`, and the list operations that stand for
-- `insert` and `remove`.
use packet_classifier.Prelude.{
  ◌≡◌, refl, true, false, List, [], ◌∷◌, ◌++◌, arith, All, All-map, Ordered, ◌∙◌, if◌then◌else◌,
  Bool-cases, inl, inr,
}
use packet_classifier.IntervalTree.{Interval, less, same}

-- No later interval comes before an earlier one.
abbrev pub IsOrdered : List Interval → Type 0
IsOrdered = Ordered λ a b. less b a ≡ false

-- Each interval comes before the later ones.
abbrev pub IsStrict : List Interval → Type 0
IsStrict = Ordered λ a b. less a b ≡ true

-- In front of the first interval that comes after it.
unfoldable pub insert_sorted : Interval → List Interval → List Interval
insert_sorted n [] = n ∷ []
insert_sorted n (x ∷ xs) = if less n x then n ∷ x ∷ xs else x ∷ insert_sorted n xs

-- Without the first interval that equals the target in both ends and the id.
unfoldable pub erase : Interval → List Interval → List Interval
erase target [] = []
erase target (x ∷ xs) = if same x target then xs else x ∷ erase target xs

pub All-append {κ} :
    (P : Interval → Type κ) (xs ys : List Interval) → All P (xs ++ ys) → All P xs × All P ys
All-append P [] ys h = (tt, h)
All-append P (x ∷ xs) ys (h, hs) = let rest = All-append P xs ys hs in ((h, rest.0), rest.1)

pub All-append_join {κ} :
    (P : Interval → Type κ) (xs ys : List Interval) → All P xs → All P ys → All P (xs ++ ys)
All-append_join P [] ys h k = k
All-append_join P (x ∷ xs) ys h k = (h.0, All-append_join P xs ys h.1 k)

-- A list in order around an element: its two halves, and how they stand to the element.
pub record Split {κ} (R : Interval → Interval → Type κ) (i : Interval) (xs ys : List Interval)
    : Type κ where
  pub left : Ordered R xs
  pub right : Ordered R ys
  pub before : All (λ x. R x i) xs
  pub after : All (R i) ys

pub Ordered-Split {κ} :
    (R : Interval → Interval → Type κ) (i : Interval) (xs ys : List Interval)
    → Ordered R (xs ++ i ∷ ys)
    → Split R i xs ys
Ordered-Split R i [] ys o = record { left = tt; right = o.1; before = tt; after = o.0 }
Ordered-Split R i (x ∷ xs) ys o =
    let rest = Ordered-Split R i xs ys o.1 in
    let parts = All-append (R x) xs (i ∷ ys) o.0 in
    record {
      left = (parts.0, rest.left);
      right = rest.right;
      before = (parts.1.0, rest.before);
      after = rest.after;
    }

pub less_trans_left : (n i x : Interval) → less n i ≡ false → less i x ≡ false → less n x ≡ false
less_trans_left n i x p q = ground arith

less_trans_right : (n x y : Interval) → less n x ≡ true → less y x ≡ false → less y n ≡ false
less_trans_right n x y p q = ground arith

-- An insertion goes to the side of an element on which it belongs.
pub insert_sorted-left :
    (n i : Interval) (xs ys : List Interval)
    → less n i ≡ true
    → insert_sorted n (xs ++ i ∷ ys) ≡ insert_sorted n xs ++ i ∷ ys
unfolding insert_sorted
insert_sorted-left n i [] ys h = rw h
insert_sorted-left n i (x ∷ xs) ys h = elim (Bool-cases (less n x)) [
  | inl low ↦ rw low
  | inr high ↦ rw (high, insert_sorted-left n i xs ys h)
]

pub insert_sorted-right :
    (n i : Interval) (xs ys : List Interval)
    → less n i ≡ false
    → All (λ x. less i x ≡ false) xs
    → insert_sorted n (xs ++ i ∷ ys) ≡ xs ++ i ∷ insert_sorted n ys
unfolding insert_sorted
insert_sorted-right n i [] ys h before = rw h
insert_sorted-right n i (x ∷ xs) ys h before =
    rw (less_trans_left n i x h before.0, insert_sorted-right n i xs ys h before.1)

All-insert_sorted {κ} :
    (P : Interval → Type κ) (n : Interval) (xs : List Interval)
    → P n
    → All P xs
    → All P (insert_sorted n xs)
unfolding insert_sorted
All-insert_sorted P n [] p h = (p, tt)
All-insert_sorted P n (x ∷ xs) p h = elim (Bool-cases (less n x)) [
  | inl low ↦ rw low (p, h)
  | inr high ↦ rw high (h.0, All-insert_sorted P n xs p h.1)
]

pub insert_sorted-IsOrdered :
    (n : Interval) (xs : List Interval) → IsOrdered xs → IsOrdered (insert_sorted n xs)
unfolding insert_sorted
insert_sorted-IsOrdered n [] o = (tt, tt)
insert_sorted-IsOrdered n (x ∷ xs) o = elim (Bool-cases (less n x)) [
  | inl low ↦ rw low ((ground arith, All-map (λ y h. less_trans_right n x y low h) xs o.0), o)
  | inr high ↦
      rw high
        (All-insert_sorted (λ b. less b x ≡ false) n xs high o.0, insert_sorted-IsOrdered n xs o.1)
]

-- Two ordered lists around an element that is between them.
pub join-IsOrdered :
    (i : Interval) (xs ys : List Interval)
    → IsOrdered xs
    → IsOrdered ys
    → All (λ x. less i x ≡ false) xs
    → All (λ y. less y i ≡ false) ys
    → IsOrdered (xs ++ i ∷ ys)
join-IsOrdered i [] ys ox oy before after = (after, oy)
join-IsOrdered i (x ∷ xs) ys ox oy before after = (
  All-append_join (λ b. less b x ≡ false) xs (i ∷ ys) ox.0
      (before.0, All-map (λ y h. less_trans_left y i x h before.0) ys after),
  join-IsOrdered i xs ys ox.1 oy before.1 after,
)

-- An element that is not the target, as the order shows.
pub less-same : (x target : Interval) → less x target ≡ true → same x target ≡ false
less-same x target h = ground arith

pub greater-same : (x target : Interval) → less target x ≡ true → same x target ≡ false
greater-same x target h = ground arith

pub less_trans : (a b c : Interval) → less a b ≡ true → less b c ≡ true → less a c ≡ true
less_trans a b c p q = ground arith

pub less_irrefl : (a : Interval) → less a a ≡ false
less_irrefl a = ground arith

pub same_refl : (a : Interval) → same a a ≡ true
same_refl a = ground arith

pub erase_absent :
    (target : Interval) (xs : List Interval)
    → All (λ x. same x target ≡ false) xs
    → erase target xs ≡ xs
unfolding erase
erase_absent target [] h = refl
erase_absent target (x ∷ xs) h = rw (h.0, erase_absent target xs h.1)

pub erase-append :
    (target : Interval) (xs ys : List Interval)
    → All (λ x. same x target ≡ false) xs
    → erase target (xs ++ ys) ≡ xs ++ erase target ys
unfolding erase
erase-append target [] ys h = refl
erase-append target (x ∷ xs) ys h = rw (h.0, erase-append target xs ys h.1)

pub erase-left :
    (target : Interval) (xs ys : List Interval)
    → All (λ y. same y target ≡ false) ys
    → erase target (xs ++ ys) ≡ erase target xs ++ ys
unfolding erase
erase-left target [] ys h = erase_absent target ys h
erase-left target (x ∷ xs) ys h = elim (Bool-cases (same x target)) [
  | inl here ↦ rw here
  | inr other ↦ rw (other, erase-left target xs ys h)
]

pub before-same :
    (x i target : Interval) → less x i ≡ true → same i target ≡ true → same x target ≡ false
before-same x i target p q = ground arith

-- The target itself is erased from a strictly ordered list.
pub erase_here :
    (target i : Interval) (xs ys : List Interval)
    → IsStrict (xs ++ i ∷ ys)
    → same i target ≡ true
    → erase target (xs ++ i ∷ ys) ≡ xs ++ ys
unfolding erase
erase_here target i xs ys strict here =
    let s = Ordered-Split (λ a b. less a b ≡ true) i xs ys strict in
    erase-append target xs (i ∷ ys) (All-map (λ x lt. before-same x i target lt here) xs s.before)
    ∙ rw here

unequal_before :
    (x i target : Interval)
    → less x i ≡ true
    → less target i ≡ false
    → less i target ≡ false
    → same x target ≡ false
unequal_before x i target p q r = ground arith

unequal_after :
    (x i target : Interval)
    → less i x ≡ true
    → less target i ≡ false
    → less i target ≡ false
    → same x target ≡ false
unequal_after x i target p q r = ground arith

-- An interval with the ends of the target and another id hides it from nobody.
pub erase_unequal :
    (target i : Interval) (xs ys : List Interval)
    → IsStrict (xs ++ i ∷ ys)
    → less target i ≡ false
    → less i target ≡ false
    → same i target ≡ false
    → erase target (xs ++ i ∷ ys) ≡ xs ++ i ∷ ys
erase_unequal target i xs ys strict p q other =
    let s = Ordered-Split (λ a b. less a b ≡ true) i xs ys strict in
    erase_absent target (xs ++ i ∷ ys) (
      All-append_join (λ x. same x target ≡ false) xs (i ∷ ys)
        (All-map (λ x lt. unequal_before x i target lt p q) xs s.before)
        (other, All-map (λ x gt. unequal_after x i target gt p q) ys s.after))
