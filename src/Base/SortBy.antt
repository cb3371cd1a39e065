-- ===== src/Base/SortBy.antt =====
-- `sort.Slice` with a test, as a stable insertion sort.
use mathlib.Core.List.{Perm}
use mathlib.Core.List.Perm
use mathlib.Core.Path.{◌≡◌, refl}
use mathlib.Core.Bool.{Bool, true, false, not, ◌||◌}
use mathlib.Core.Logic.{inl, inr}
use mathlib.Core.List.{List, [], ◌∷◌, map}
use native.Mathlib.Omega.{arith}
use nexus_go_ccnf_ref.Base.Tests.{if◌then◌else◌, Bool-cases}
use nexus_go_ccnf_ref.Base.Lists.{All}
use nexus_go_ccnf_ref.Base.Texts.{
  Text, text_eq, text_eq_iff, text_leb, text_leb_total, text_leb_antisymm, text_leb_trans,
}
use nexus_go_ccnf_ref.Base.Sets.{member}
use nexus_go_ccnf_ref.Base.Sort.{insert, sort_strings}

pub member-insert :
    (k x : Text) (l : List Text) → member k (insert x l) ≡ (text_eq x k || member k l)
unfolding insert member
member-insert k x [] = refl
member-insert k x (y ∷ l) = ground (arith, member-insert k x l)

pub member-sort_strings : (k : Text) (l : List Text) → member k (sort_strings l) ≡ member k l
unfolding sort_strings member
member-sort_strings k [] = refl
member-sort_strings k (x ∷ l) =
    ground (arith, member-insert k x (sort_strings l), member-sort_strings k l)

-- `s < t`
abbrev pub text_less : Text → Text → Bool
text_less s t = not (text_leb t s)

-- the tests of two keys
abbrev pub pair_less : Text → Text → Text → Text → Bool
pair_less a b c d = if text_eq a c then text_less b d else text_less a c

module _ {ℓ} {A : Type ℓ} (less : A → A → Bool) where
  unfoldable pub insert_by : A → List A → List A
  insert_by x [] = x ∷ []
  insert_by x (y ∷ ys) = if less y x then y ∷ insert_by x ys else x ∷ y ∷ ys

  unfoldable pub sort_slice : List A → List A
  unfolding insert_by
  sort_slice [] = []
  sort_slice (x ∷ xs) = insert_by x (sort_slice xs)

  pub member-insert_by :
      (key : A → Text) (k : Text) (x : A) (xs : List A)
      → member k (map key (insert_by x xs)) ≡ (text_eq (key x) k || member k (map key xs))
  unfolding insert_by member
  member-insert_by key k x [] = refl
  member-insert_by key k x (y ∷ ys) = ground (arith, member-insert_by key k x ys)

  -- Sorting keeps the keys.
  pub member-sort_slice :
      (key : A → Text) (k : Text) (xs : List A)
      → member k (map key (sort_slice xs)) ≡ member k (map key xs)
  unfolding sort_slice member
  member-sort_slice key k [] = refl
  member-sort_slice key k (x ∷ xs) =
      ground (arith, member-insert_by key k x (sort_slice xs), member-sort_slice key k xs)

  All-insert_by_lem {κ} :
      (P : A → Type κ) (x : A) (l : List A) → P x → All P l → All P (insert_by x l)
  unfolding insert_by
  All-insert_by_lem P x [] h k = (h, tt)
  All-insert_by_lem P x (y ∷ l) h k = elim (Bool-cases (less y x)) [
    | inl before ↦ rw before (k.0, All-insert_by_lem P x l h k.1)
    | inr behind ↦ rw behind (h, k)
  ]

  pub All-sort_slice {κ} : (P : A → Type κ) (l : List A) → All P l → All P (sort_slice l)
  unfolding sort_slice
  All-sort_slice P [] h = tt
  All-sort_slice P (x ∷ l) h = All-insert_by_lem P x (sort_slice l) h.0 (All-sort_slice P l h.1)

  insert_by-perm : (x : A) (l : List A) → Perm (insert_by x l) (x ∷ l)
  unfolding insert_by
  insert_by-perm x [] = Perm.refl _
  insert_by-perm x (y ∷ l) = elim (Bool-cases (less y x)) [
    | inl before ↦ rw before (Perm.trans (Perm.cons y (insert_by-perm x l)) (Perm.swap x y l))
    | inr behind ↦ rw behind (Perm.refl _)
  ]

  pub sort_slice-perm : (l : List A) → Perm (sort_slice l) l
  unfolding sort_slice
  sort_slice-perm [] = Perm.refl _
  sort_slice-perm (x ∷ l) =
      Perm.trans (insert_by-perm x (sort_slice l)) (Perm.cons x (sort_slice-perm l))

  -- No element is less than one before it.
  abbrev pub IsSortedBy : List A → Type ℓ
  IsSortedBy [] = Unit
  IsSortedBy (x ∷ xs) = All (λ y. less y x ≡ false) xs × IsSortedBy xs

  -- What `sort.Slice` asks of its test.
  pub record IsWeakOrder : Type ℓ where
    pub asymmetric : (x y : A) → less x y ≡ true → less y x ≡ false
    pub transitive : (x y z : A) → less y x ≡ false → less z y ≡ false → less z x ≡ false

  module _ (order : IsWeakOrder) where
    All-after :
        (x y : A) (l : List A)
        → less y x ≡ false
        → All (λ z. less z y ≡ false) l
        → All (λ z. less z x ≡ false) l
    All-after x y [] h k = tt
    All-after x y (z ∷ l) h k = (order.transitive x y z h k.0, All-after x y l h k.1)

    All-insert_by :
        (z x : A) (l : List A)
        → less x z ≡ false
        → All (λ y. less y z ≡ false) l
        → All (λ y. less y z ≡ false) (insert_by x l)
    unfolding insert_by
    All-insert_by z x [] h k = (h, tt)
    All-insert_by z x (y ∷ l) h k = elim (Bool-cases (less y x)) [
      | inl before ↦ rw before (k.0, All-insert_by z x l h k.1)
      | inr behind ↦ rw behind (h, k)
    ]

    insert_by-IsSortedBy : (x : A) (l : List A) → IsSortedBy l → IsSortedBy (insert_by x l)
    unfolding insert_by
    insert_by-IsSortedBy x [] h = (tt, tt)
    insert_by-IsSortedBy x (y ∷ l) h = elim (Bool-cases (less y x)) [
      | inl before ↦
          rw before
            (All-insert_by y x l (order.asymmetric y x before) h.0, insert_by-IsSortedBy x l h.1)
      | inr behind ↦ rw behind ((behind, All-after x y l behind h.0), h)
    ]

    pub sort_slice-IsSortedBy : (l : List A) → IsSortedBy (sort_slice l)
    unfolding sort_slice
    sort_slice-IsSortedBy [] = tt
    sort_slice-IsSortedBy (x ∷ l) = insert_by-IsSortedBy x (sort_slice l) (sort_slice-IsSortedBy l)

pub text_less-IsWeakOrder {ℓ} :
    {A : Type ℓ} → (f : A → Text) → IsWeakOrder (λ x y. text_less (f x) (f y))
text_less-IsWeakOrder f = record {
  asymmetric = λ x y h. ground (arith, text_leb_total (f y) (f x), h);
  transitive = λ x y z h k. ground (arith, text_leb_trans (f x) (f y) (f z), h, k);
}

pub pair_less-IsWeakOrder {ℓ} :
    {A : Type ℓ} → (f g : A → Text) → IsWeakOrder (λ x y. pair_less (f x) (g x) (f y) (g y))
pair_less-IsWeakOrder f g = record {
  asymmetric = λ x y h. ground (
    arith,
    text_leb_total (f y) (f x),
    text_leb_total (g y) (g x),
    text_eq_iff (f x) (f y),
    text_eq_iff (f y) (f x),
    h,
  );
  transitive = λ x y z h k. ground (
    arith,
    text_leb_trans (f x) (f y) (f z),
    text_leb_trans (g x) (g y) (g z),
    text_leb_antisymm (f x) (f y),
    text_leb_antisymm (f y) (f z),
    text_eq_iff (f y) (f x),
    text_eq_iff (f z) (f y),
    text_eq_iff (f z) (f x),
    h,
    k,
  );
}
