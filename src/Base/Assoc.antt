-- ===== src/Base/Assoc.antt =====
-- Go's maps as association lists. The list order stands for an iteration order of the map.
use mathlib.Core.Path.{◌≡◌, refl, ap, ◌∙◌}
use mathlib.Core.Bool.{Bool, true, false, ◌||◌}
use mathlib.Core.List.{List, [], ◌∷◌}
use mathlib.Core.Option.{Option, none, some}
use native.Mathlib.Omega.{arith}
use app_listener.Base.Tests.{if◌then◌else◌, if_cases}
use app_listener.Base.Eq.{EqTest, ◌==◌}
use app_listener.Base.Lists.{length, all}
use Prim.Native.Nat.{suc}

module _ {ℓ κ} {K : Type ℓ} {V : Type κ} ⦃e : EqTest K⦄ where
  abbrev pub lookup : K → List (K × V) → Option V
  lookup k [] = none
  lookup k ((j, v) ∷ m) = if j == k then some v else lookup k m

  abbrev pub insert : K → V → List (K × V) → List (K × V)
  insert k v [] = (k, v) ∷ []
  insert k v ((j, w) ∷ m) = if j == k then (k, v) ∷ m else (j, w) ∷ insert k v m

  abbrev pub delete : K → List (K × V) → List (K × V)
  delete k [] = []
  delete k ((j, w) ∷ m) = if j == k then delete k m else (j, w) ∷ delete k m

  abbrev pub has_key : K → List (K × V) → Bool
  has_key k [] = false
  has_key k ((j, v) ∷ m) = (j == k) || has_key k m

  pub lookup-insert :
      (k j : K) (v : V) (m : List (K × V))
      → lookup j (insert k v m) ≡ (if k == j then some v else lookup j m)
  lookup-insert k j v [] = refl
  lookup-insert k j v ((i, w) ∷ m) =
      ground (arith, e.beq_iff k j, e.beq_iff i k, e.beq_iff i j, lookup-insert k j v m)

  pub lookup-delete :
      (k j : K) (m : List (K × V)) → lookup j (delete k m) ≡ (if k == j then none else lookup j m)
  lookup-delete k j [] = ground arith
  lookup-delete k j ((i, w) ∷ m) =
      ground (arith, e.beq_iff k j, e.beq_iff i k, e.beq_iff i j, lookup-delete k j m)

  pub has_key-lookup : (k : K) (m : List (K × V)) → lookup k m ≡ none → has_key k m ≡ false
  has_key-lookup k [] h = refl
  has_key-lookup k ((j, v) ∷ m) h = ground (arith, has_key-lookup k m)

  pub has_key-insert :
      (k j : K) (v : V) (m : List (K × V)) → has_key j (insert k v m) ≡ ((k == j) || has_key j m)
  has_key-insert k j v [] = ground arith
  has_key-insert k j v ((i, w) ∷ m) =
      ground (arith, e.beq_iff k j, e.beq_iff i k, e.beq_iff i j, has_key-insert k j v m)

  pub length-insert_new :
      (k : K) (v : V) (m : List (K × V))
      → lookup k m ≡ none
      → length (insert k v m) ≡ suc (length m)
  length-insert_new k v [] h = refl
  length-insert_new k v ((j, w) ∷ m) h = ground (arith, length-insert_new k v m)

  pub length-insert_old :
      (k : K) (u v : V) (m : List (K × V)) → lookup k m ≡ some u → length (insert k v m) ≡ length m
  length-insert_old k u v [] h = absurd cc
  length-insert_old k u v ((j, w) ∷ m) h = ground (arith, length-insert_old k u v m)

  pub all-insert :
      (p : K × V → Bool) (k : K) (v : V) (m : List (K × V))
      → all p m ≡ true
      → p (k, v) ≡ true
      → all p (insert k v m) ≡ true
  all-insert p k v [] h g = ground arith
  all-insert p k v ((j, w) ∷ m) h g = ground (arith, all-insert p k v m)

  pub all-lookup :
      (p : K × V → Bool) (k : K) (v : V) (m : List (K × V))
      → all p m ≡ true
      → lookup k m ≡ some v
      → p (k, v) ≡ true
  all-lookup p k v [] h = λ g. absurd cc
  all-lookup p k v ((j, w) ∷ m) h =
      if_cases (λ o. o ≡ some v → p (k, v) ≡ true) (j == k) (some w) (lookup k m)
        (λ here g. ap p (same_pair ((e.beq_iff j k).0 here) g) ∙ (ground arith))
        λ other g. all-lookup p k v m (ground arith) g
    where
      same_pair : j ≡ k → some w ≡ some v → ◌≡◌ {A = K × V} (k, v) (j, w)
      same_pair a b = cc
