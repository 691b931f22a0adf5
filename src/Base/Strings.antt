-- ===== src/Base/Strings.antt =====
-- Go's strings as lists of bytes, and the `strings` functions that the code calls.
use Prim.Native.Nat.{ℕ}
use Prim.Native.Char.{code}
use Prim.Native.String.{String}
use mathlib.Core.Path.{◌≡◌, refl, ap}
use mathlib.Core.Bool.{Bool, true, false, ◌&&◌}
use mathlib.Core.List.{List, [], ◌∷◌, ◌++◌}
use native.Mathlib.Omega.{arith}
use mathlib.Core.Logic.{◌≢◌, ◌↔◌}
use mathlib.Core.Path.{◌∙◌}
use app_listener.Base.Sort.{sort, insert_sorted, compact, contains-sort, contains-compact}
use app_listener.Base.Tests.{if◌then◌else◌}
use app_listener.Base.Eq.{◌==◌, nat_eq, list_eq}
use app_listener.Base.Lists.{contains}

abbrev pub Bytes : Type 0
Bytes = List ℕ

-- The bytes of an ASCII text.
abbrev pub codes : String → Bytes
codes String.[] = []
codes (String.◌∷◌ c s) = code c ∷ codes s

-- `strings.Join` with a separator of one byte.
abbrev pub join : ℕ → List Bytes → Bytes
join sep [] = []
join sep (p ∷ []) = p
join sep (p ∷ q ∷ r) = p ++ sep ∷ join sep (q ∷ r)

-- What `strings.Split` does at a byte: close a field, or lengthen the first one.
abbrev pub lengthen : ℕ → List Bytes → List Bytes
lengthen c [] = (c ∷ []) ∷ []
lengthen c (f ∷ fs) = (c ∷ f) ∷ fs

-- `strings.Split` with a separator of one byte.
unfoldable pub split : ℕ → Bytes → List Bytes
split sep [] = [] ∷ []
split sep (c ∷ s) = let rest = split sep s in if c == sep then [] ∷ rest else lengthen c rest

-- `strings.HasPrefix`
abbrev pub has_prefix : Bytes → Bytes → Bool
has_prefix s [] = true
has_prefix [] (c ∷ p) = false
has_prefix (d ∷ s) (c ∷ p) = (d == c) && has_prefix s p

-- A first field, put before the fields of a rest that begins with a separator.
split-append :
    (sep : ℕ) (p s : Bytes) → contains p sep ≡ false → split sep (p ++ sep ∷ s) ≡ p ∷ split sep s
unfolding split
split-append sep [] s h = ground arith
split-append sep (c ∷ p) s h = ground (arith, split-append sep p s)

split_single : (sep : ℕ) (p : Bytes) → contains p sep ≡ false → split sep p ≡ p ∷ []
unfolding split
split_single sep [] h = refl
split_single sep (c ∷ p) h = ground (arith, split_single sep p)

pub split-nil : (sep : ℕ) → split sep [] ≡ [] ∷ []
unfolding split
split-nil sep = refl

-- No path holds the separator.
abbrev pub Clean : ℕ → List Bytes → Type 0
Clean sep [] = Unit
Clean sep (p ∷ ps) = (contains p sep ≡ false) × Clean sep ps

-- `Split` takes `Join` apart.
pub split-join :
    (sep : ℕ) (p : Bytes) (ps : List Bytes)
    → Clean sep (p ∷ ps)
    → split sep (join sep (p ∷ ps)) ≡ p ∷ ps
split-join sep p [] h = split_single sep p h.0
split-join sep p (q ∷ r) h =
    ground (arith, split-append sep p (join sep (q ∷ r)) h.0, split-join sep q r h.1)

pub split-join_any :
    (sep : ℕ) (ps : List Bytes) → ps ≢ [] → Clean sep ps → split sep (join sep ps) ≡ ps
split-join_any sep [] h c = absurd (h refl)
split-join_any sep (p ∷ ps) h c = split-join sep p ps c

-- `Clean` survives what `slices.Sort` and `slices.Compact` do, and both keep a list non-empty.
pub Clean-insert_sorted :
    (sep : ℕ) (le : Bytes → Bytes → Bool) (p : Bytes) (ps : List Bytes)
    → contains p sep ≡ false
    → Clean sep ps
    → Clean sep (insert_sorted le p ps)
Clean-insert_sorted sep le p [] h c = (h, tt)
Clean-insert_sorted sep le p (q ∷ ps) h c = ground (arith, Clean-insert_sorted sep le p ps h c.1)

pub Clean-sort :
    (sep : ℕ) (le : Bytes → Bytes → Bool) (ps : List Bytes) → Clean sep ps → Clean sep (sort le ps)
Clean-sort sep le [] c = tt
Clean-sort sep le (p ∷ ps) c =
    Clean-insert_sorted sep le p (sort le ps) c.0 (Clean-sort sep le ps c.1)

pub Clean-compact : (sep : ℕ) (ps : List Bytes) → Clean sep ps → Clean sep (compact ps)
Clean-compact sep [] c = tt
Clean-compact sep (p ∷ []) c = c
Clean-compact sep (p ∷ q ∷ r) c = ground (arith, Clean-compact sep (q ∷ r) c.1)

insert_sorted-ne-nil {ℓ} :
    {A : Type ℓ} (le : A → A → Bool) (a : A) (xs : List A) → insert_sorted le a xs ≢ []
insert_sorted-ne-nil le a [] = λ e. cc
insert_sorted-ne-nil le a (x ∷ xs) = ground arith

compact-ne-nil : (ps : List Bytes) → ps ≢ [] → compact ps ≢ []
compact-ne-nil [] h = h
compact-ne-nil (p ∷ []) h = h
compact-ne-nil (p ∷ q ∷ r) h = ground (arith, compact-ne-nil (q ∷ r))

-- The key of a set of paths names exactly those paths.
pub contains-split_key :
    (sep : ℕ) (le : Bytes → Bytes → Bool) (p q : Bytes) (ps : List Bytes)
    → Clean sep (p ∷ ps)
    → contains (split sep (join sep (compact (sort le (p ∷ ps))))) q ≡ contains (p ∷ ps) q
contains-split_key sep le p q ps c =
    ap (λ l. contains l q)
      (split-join_any sep _ (compact-ne-nil _ (insert_sorted-ne-nil le p (sort le ps)))
        (Clean-compact sep _ (Clean-sort sep le (p ∷ ps) c)))
    ∙ contains-compact q (sort le (p ∷ ps))
    ∙ contains-sort le q (p ∷ ps)

pub bytes_iff : (a b : Bytes) → ((a == b) ≡ true) ↔ (a ≡ b)
bytes_iff a b = list_eq.beq_iff a b
