-- ===== src/Guard/Taint/Intersect.antt =====
-- internal/guard/taintset.go, `intersectAllows`: the whitelist that a taint set and the reserved slot use.
use app_listener.Base.{
  ℕ, ◌≡◌, refl, ◌∙◌, ◌⊎◌, Bool, true, false, ◌||◌, Option, none, some, List, [], ◌∷◌, ◌==◌, nat_eq,
  if◌then◌else◌, any, all, arith,
}
use app_listener.Base.Assoc.{lookup}
use app_listener.Guard.Keys.{InodeKey, inode_eq, AllowSet, guard_allow, guard_allow_root}
use app_listener.Guard.Taint.{intersect_with, intersect_rest, intersect_allows}

-- The action that two whitelists agree on: none unless both have one, and the root-only one wins.
abbrev pub meet : Option ℕ → Option ℕ → Option ℕ
meet none b = none
meet (some a) none = none
meet (some a) (some b) =
    if (b == guard_allow_root) || (a == guard_allow_root) then some guard_allow_root else some a

lookup-intersect_with :
    (k : InodeKey) (inter set : AllowSet)
    → lookup k (intersect_with inter set) ≡ meet (lookup k inter) (lookup k set)
lookup-intersect_with k [] set = refl
lookup-intersect_with k ((j, a) ∷ inter) set =
    ground (arith, lookup-intersect_with k inter set, inode_eq.beq_iff j k)

abbrev holds : InodeKey → AllowSet → Bool
holds k set = elim (lookup k set) [ none ↦ false | some a ↦ true ]

abbrev root_only : InodeKey → AllowSet → Bool
root_only k set = elim (lookup k set) [ none ↦ false | some a ↦ a == guard_allow_root ]

-- What the whitelists of a resource hold: an allow, for everyone or for root.
abbrev pub IsPermit : Option ℕ → Type 0
IsPermit o = (o ≡ none) ⊎ (o ≡ some guard_allow) ⊎ (o ≡ some guard_allow_root)

abbrev pub Permits : InodeKey → List AllowSet → Type 0
Permits k [] = Unit
Permits k (set ∷ sets) = IsPermit (lookup k set) × Permits k sets

-- The agreement of many whitelists, with no order in it.
abbrev pub agreed : InodeKey → List AllowSet → Option ℕ
agreed k sets =
    if all (holds k) sets
    then (if any (root_only k) sets then some guard_allow_root else some guard_allow)
    else none

meet_step :
    (k : InodeKey) (inter set : AllowSet) (sets : List AllowSet)
    → IsPermit (lookup k inter)
    → IsPermit (lookup k set)
    → agreed k (intersect_with inter set ∷ sets) ≡ agreed k (inter ∷ set ∷ sets)
meet_step k inter set sets p q = ground (arith, lookup-intersect_with k inter set)

meet-IsPermit :
    (k : InodeKey) (inter set : AllowSet)
    → IsPermit (lookup k inter)
    → IsPermit (lookup k set)
    → IsPermit (lookup k (intersect_with inter set))
meet-IsPermit k inter set p q = rw (lookup-intersect_with k inter set) (ground arith)

lookup-intersect_rest :
    (k : InodeKey) (inter : AllowSet) (sets : List AllowSet)
    → IsPermit (lookup k inter)
    → Permits k sets
    → lookup k (intersect_rest inter sets) ≡ agreed k (inter ∷ sets)
lookup-intersect_rest k inter [] p ps = ground arith
lookup-intersect_rest k inter (set ∷ sets) p (q, ps) =
    lookup-intersect_rest k (intersect_with inter set) sets (meet-IsPermit k inter set p q) ps
    ∙ meet_step k inter set sets p q

-- The intersection holds an executable exactly when every whitelist does, with the root-only action
-- as soon as one whitelist has it; the order of the whitelists does not show.
pub lookup-intersect_allows :
    (k : InodeKey) (set : AllowSet) (sets : List AllowSet)
    → Permits k (set ∷ sets)
    → lookup k (intersect_allows (set ∷ sets)) ≡ agreed k (set ∷ sets)
unfolding intersect_allows
lookup-intersect_allows k set sets ps = lookup-intersect_rest k set sets ps.0 ps.1
