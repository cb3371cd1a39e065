-- ===== src/Base/Sets.antt =====
-- Go's `map[string]bool` as a set: the keys that hold `true`.
use mathlib.Core.Path.{◌≡◌, refl}
use mathlib.Core.Bool.{Bool, true, false, not, ◌&&◌, ◌||◌}
use mathlib.Core.List.{List, [], ◌∷◌, ◌++◌}
use Prim.Native.Nat.{ℕ, suc, ◌≤◌, ◌<◌}
use native.Mathlib.Omega.{arith}
use nexus_go_ccnf_ref.Base.Tests.{if◌then◌else◌}
use nexus_go_ccnf_ref.Base.Lists.{length}
use nexus_go_ccnf_ref.Base.Texts.{Text, text_eq, text_eq_iff}

-- `s[k]`
unfoldable pub member : Text → List Text → Bool
member k [] = false
member k (x ∷ s) = text_eq x k || member k s

-- `delete(s, k)`
unfoldable pub delete : Text → List Text → List Text
delete k [] = []
delete k (x ∷ s) = let rest = delete k s in if text_eq x k then rest else x ∷ rest

pub member-delete :
    (k j : Text) (s : List Text) → member k (delete j s) ≡ (member k s && not (text_eq j k))
unfolding member delete
member-delete k j [] = refl
member-delete k j (x ∷ s) =
    ground (arith, member-delete k j s, text_eq_iff x j, text_eq_iff x k, text_eq_iff j k)

pub member-append : (k : Text) (s t : List Text) → member k (s ++ t) ≡ (member k s || member k t)
unfolding member
member-append k [] t = refl
member-append k (x ∷ s) t = ground (arith, member-append k s t)

-- How many of the listed keys are not in a set.
unfoldable pub missing : List Text → List Text → ℕ
missing [] s = 0
missing (x ∷ u) s = let rest = missing u s in if member x s then rest else suc rest

pub missing-le :
    (u s t : List Text)
    → ((k : Text) → member k s ≡ true → member k t ≡ true)
    → missing u t ≤ missing u s
unfolding missing
missing-le [] s t h = omega arith
missing-le (x ∷ u) s t h = ground (arith, missing-le u s t h, h x)

-- A listed key that joins the set is missing no more.
pub missing-lt :
    (u s t : List Text) (k : Text)
    → ((j : Text) → member j s ≡ true → member j t ≡ true)
    → member k u ≡ true
    → member k s ≡ false
    → member k t ≡ true
    → missing u t < missing u s
unfolding missing member
missing-lt [] s t k h i a b = cc
missing-lt (x ∷ u) s t k h i a b =
    ground (arith, missing-lt u s t k h, missing-le u s t h, h x, text_eq_iff x k)

pub missing-nil : (u : List Text) → missing u [] ≡ length u
unfolding missing member
missing-nil [] = refl
missing-nil (x ∷ u) = ground (arith, missing-nil u)
