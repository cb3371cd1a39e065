-- ===== src/Base/Sort.antt =====
-- `sort.Strings`, and what it promises: a sorted permutation, whatever the order of its input.
use mathlib.Core.List.{Perm}
use mathlib.Core.List.Perm
use nexus_go_ccnf_ref.Base.Tests.{if◌then◌else◌, Bool-cases}
use nexus_go_ccnf_ref.Base.Lists.{All}
use nexus_go_ccnf_ref.Base.Texts.{Text, text_leb, text_leb_total, text_leb_antisymm, text_leb_trans}
use mathlib.Core.Path.{◌≡◌}
use mathlib.Core.Bool.{true}
use mathlib.Core.Logic.{inl, inr}
use mathlib.Core.List.{List, [], ◌∷◌}
use native.Mathlib.Omega.{arith}

unfoldable pub insert : Text → List Text → List Text
insert x [] = x ∷ []
insert x (y ∷ ys) = if text_leb x y then x ∷ y ∷ ys else y ∷ insert x ys

unfoldable pub sort_strings : List Text → List Text
unfolding insert
sort_strings [] = []
sort_strings (x ∷ xs) = insert x (sort_strings xs)

abbrev pub IsSorted : List Text → Type 0
IsSorted [] = Unit
IsSorted (x ∷ xs) = All (λ y. text_leb x y ≡ true) xs × IsSorted xs

pub insert_comm : (x y : Text) (l : List Text) → insert x (insert y l) ≡ insert y (insert x l)
unfolding insert
insert_comm x y [] = ground (arith, text_leb_total x y, text_leb_total y x, text_leb_antisymm x y)
insert_comm x y (z ∷ l) = ground (
  arith,
  text_leb_total x y,
  text_leb_total y x,
  text_leb_antisymm x y,
  text_leb_trans x y z,
  text_leb_trans y x z,
  insert_comm x y l,
)

All-le :
    (x y : Text) (l : List Text)
    → text_leb x y ≡ true
    → All (λ z. text_leb y z ≡ true) l
    → All (λ z. text_leb x z ≡ true) l
All-le x y [] h k = tt
All-le x y (z ∷ l) h k = (text_leb_trans x y z h k.0, All-le x y l h k.1)

All-insert :
    (z x : Text) (l : List Text)
    → text_leb z x ≡ true
    → All (λ y. text_leb z y ≡ true) l
    → All (λ y. text_leb z y ≡ true) (insert x l)
unfolding insert
All-insert z x [] h k = (h, tt)
All-insert z x (y ∷ l) h k = elim (Bool-cases (text_leb x y)) [
  | inl le ↦ rw le (h, k)
  | inr gt ↦ rw gt (k.0, All-insert z x l h k.1)
]

insert-IsSorted : (x : Text) (l : List Text) → IsSorted l → IsSorted (insert x l)
unfolding insert
insert-IsSorted x [] h = (tt, tt)
insert-IsSorted x (y ∷ l) h = elim (Bool-cases (text_leb x y)) [
  | inl le ↦ rw le ((le, All-le x y l le h.0), h)
  | inr gt ↦ rw gt (All-insert y x l (text_leb_total x y gt) h.0, insert-IsSorted x l h.1)
]

pub sort_strings-IsSorted : (l : List Text) → IsSorted (sort_strings l)
unfolding sort_strings
sort_strings-IsSorted [] = tt
sort_strings-IsSorted (x ∷ l) = insert-IsSorted x (sort_strings l) (sort_strings-IsSorted l)

insert-perm : (x : Text) (l : List Text) → Perm (insert x l) (x ∷ l)
unfolding insert
insert-perm x [] = Perm.refl _
insert-perm x (y ∷ l) = elim (Bool-cases (text_leb x y)) [
  | inl le ↦ rw le (Perm.refl _)
  | inr gt ↦ rw gt (Perm.trans (Perm.cons y (insert-perm x l)) (Perm.swap x y l))
]

pub sort_strings-perm : (l : List Text) → Perm (sort_strings l) l
unfolding sort_strings
sort_strings-perm [] = Perm.refl _
sort_strings-perm (x ∷ l) =
    Perm.trans (insert-perm x (sort_strings l)) (Perm.cons x (sort_strings-perm l))
