-- ===== src/Base/State.antt =====
-- Go functions that change state and return an error: what was written before an error stays.
use mathlib.Core.Path.{◌≡◌, refl}
use mathlib.Core.Bool.{Bool, true, false}
use mathlib.Core.List.{List, [], ◌∷◌}

-- The errors that callers tell apart or that end an operation.
pub data Error : Type 0 where
  kernel_fault row_changed guard_stopped no_trust_guard : Error
  not_whitelist own_binary is_inspector is_blocked bad_event : Error
  shutting_down session_active not_guarded unresolved nothing_to_change : Error
  journal_failed no_free_slot empty_request no_tag_left unclassified : Error

pub data Result {ℓ} (A : Type ℓ) : Type ℓ where
  ok : A → Result A
  err : Error → Result A

abbrev pub M : Type 0 → Type 0 → Type 0
M S A = S → Result A × S

module _ {S : Type 0} where
  unfoldable pub pure : {A : Type 0} → A → M S A
  pure a s = (ok a, s)

  unfoldable pub throw : {A : Type 0} → Error → M S A
  throw e s = (err e, s)

  infixl 5 ◌>>=◌ ◌>>◌
  unfoldable pub ◌>>=◌ : {A B : Type 0} → M S A → (A → M S B) → M S B
  ◌>>=◌ m f s = let (r, s') = m s in elim r [ ok a ↦ f a s' | err e ↦ (err e, s') ]

  unfoldable pub ◌>>◌ : {B : Type 0} → M S (Unit {0}) → M S B → M S B
  unfolding ◌>>=◌
  m >> k = m >>= λ _. k

  unfoldable pub when : Bool → M S (Unit {0}) → M S (Unit {0})
  unfolding pure
  when true m = m
  when false m = pure tt

  unfoldable pub guard : Bool → Error → M S (Unit {0})
  unfolding pure throw
  guard true e = pure tt
  guard false e = throw e

  -- A `range` loop whose body may return an error.
  unfoldable pub each {ℓ} : {A : Type ℓ} → (A → M S (Unit {0})) → List A → M S (Unit {0})
  unfolding pure ◌>>◌
  each f [] = pure tt
  each f (x ∷ xs) = do f x; each f xs

  unfoldable pub get : M S S
  get s = (ok s, s)

  unfoldable pub modify : (S → S) → M S (Unit {0})
  modify f s = (ok tt, f s)

-- A bind runs its second part after a success, and ends after an error.
pub bind_cases {ℓ} :
    {S A B : Type 0} (P : Result B × S → Type ℓ) (m : M S A) (f : A → M S B) (s : S)
    → ((a : A) → (m s).0 ≡ ok a → P (f a (m s).1))
    → ((e : Error) → (m s).0 ≡ err e → P (err e, (m s).1))
    → P ((m >>= f) s)
unfolding ◌>>=◌
bind_cases {S = S} {A = A} {B = B} P m f s good bad = go (m s).0 refl
  where
    after : Result A → Result B × S
    after r = elim r [ ok a ↦ f a (m s).1 | err e ↦ (err e, (m s).1) ]

    go : (r : Result A) → (m s).0 ≡ r → P (after r)
    go (ok a) e = good a e
    go (err x) e = bad x e
