-- ===== src/Base/Sort.antt =====
-- `slices.Sort` and `slices.Compact` as the code uses them: what they keep is membership and order.
use Prim.Native.Nat.{ℕ}
use mathlib.Core.Path.{◌≡◌, refl}
use mathlib.Core.Bool.{Bool, true, false, ◌&&◌, ◌||◌}
use mathlib.Core.List.{List, [], ◌∷◌}
use native.Mathlib.Omega.{arith}
use app_listener.Base.Tests.{if◌then◌else◌, ltb, eqb}
use app_listener.Base.Eq.{EqTest, ◌==◌}
use app_listener.Base.Lists.{contains}

module _ {ℓ} {A : Type ℓ} (le : A → A → Bool) where
  abbrev pub insert_sorted : A → List A → List A
  insert_sorted a [] = a ∷ []
  insert_sorted a (x ∷ xs) = if le a x then a ∷ x ∷ xs else x ∷ insert_sorted a xs

  abbrev pub sort : List A → List A
  sort [] = []
  sort (x ∷ xs) = insert_sorted x (sort xs)

module _ {ℓ} {A : Type ℓ} ⦃e : EqTest A⦄ where
  -- Drops an element equal to its successor.
  abbrev pub compact : List A → List A
  compact [] = []
  compact (x ∷ []) = x ∷ []
  compact (x ∷ y ∷ r) = let rest = compact (y ∷ r) in if x == y then rest else x ∷ rest

  pub contains-insert_sorted :
      (le : A → A → Bool) (a b : A) (xs : List A)
      → contains (insert_sorted le a xs) b ≡ ((a == b) || contains xs b)
  contains-insert_sorted le a b [] = ground arith
  contains-insert_sorted le a b (x ∷ xs) = ground (arith, contains-insert_sorted le a b xs)

  pub contains-sort :
      (le : A → A → Bool) (b : A) (xs : List A) → contains (sort le xs) b ≡ contains xs b
  contains-sort le b [] = refl
  contains-sort le b (x ∷ xs) =
      ground (arith, contains-insert_sorted le x b (sort le xs), contains-sort le b xs)

  pub contains-compact : (b : A) (xs : List A) → contains (compact xs) b ≡ contains xs b
  contains-compact b [] = refl
  contains-compact b (x ∷ []) = refl
  contains-compact b (x ∷ y ∷ r) =
      ground (arith, e.beq_iff x y, e.beq_iff x b, e.beq_iff y b, contains-compact b (y ∷ r))

-- Go compares strings byte by byte.
abbrev pub bytes_leb : List ℕ → List ℕ → Bool
bytes_leb [] ys = true
bytes_leb (x ∷ xs) [] = false
bytes_leb (x ∷ xs) (y ∷ ys) = ltb x y || (eqb x y && bytes_leb xs ys)
