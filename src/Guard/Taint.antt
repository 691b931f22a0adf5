-- ===== src/Guard/Taint.antt =====
-- internal/guard/taintset.go: which slot judges an executable's taint, and the rows of each set.
-- A set of executables that several resources whitelist is named by the paths of those resources.
pub mod Owners
pub mod Intersect
use app_listener.Base.{
  ℕ, Bool, true, false, not, ◌||◌, none, some, List, [], ◌∷◌, ◌++◌, map, ◌==◌, nat_eq, list_eq,
  if◌then◌else◌, leb, filter, contains, Bytes,
}
use app_listener.Base.Assoc.{lookup, insert, has_key}
use app_listener.Base.Sort.{sort, compact, bytes_leb}
use app_listener.Base.Strings.{join, split}
use app_listener.Guard.Keys.{InodeKey, inode_eq, AllowSet, guard_allow_root, tagged, real}

-- `resInfo`
pub record ResInfo : Type 0 where
  pub path : Bytes
  pub readonly : Bool

-- `taintOwner`: a resource slot, or the set that a key names.
pub record TaintOwner : Type 0 where
  pub res : ℕ
  pub set_key : Bytes

abbrev pub set_key_of : List Bytes → Bytes
set_key_of = join 0

abbrev pub set_paths : Bytes → List Bytes
set_paths = split 0

abbrev pub Allows : Type 0
Allows = List (ℕ × AllowSet)

abbrev pub Info : Type 0
Info = List (ℕ × ResInfo)

abbrev pub Members : Type 0
Members = List (InodeKey × List ℕ)

-- `members[exe]`, nil where the key is missing.
abbrev pub members_of : InodeKey → Members → List ℕ
members_of exe m = elim (lookup exe m) [ none ↦ [] | some rs ↦ rs ]

-- The inner loop: `members[exe] = append(members[exe], res)`.
abbrev pub add_members : ℕ → AllowSet → Members → Members
add_members res [] m = m
add_members res ((exe, a) ∷ set) m =
    add_members res set (insert exe (members_of exe m ++ res ∷ []) m)

-- The outer loop, over the live resources.
abbrev pub collect_members : Info → Allows → Members → Members
collect_members info [] m = m
collect_members info ((res, set) ∷ allows) m =
    collect_members info allows (if has_key res info then add_members res set m else m)

-- `info[r]`, the zero value where the slot is not live.
abbrev pub info_of : Info → ℕ → ResInfo
info_of info r = elim (lookup r info) [ none ↦ record { path = []; readonly = false } | some i ↦ i ]

-- The switch on the number of resources that can taint.
abbrev pub owner_of : Info → List ℕ → List ℕ → TaintOwner
owner_of info [] [] = record { res = 0; set_key = [] }
owner_of info (r ∷ rs) [] = record { res = r; set_key = [] }
owner_of info rs (t ∷ []) = record { res = t; set_key = [] }
owner_of info rs (t ∷ u ∷ ts) = record {
  res = 0;
  set_key = set_key_of (compact (sort bytes_leb (map (λ r. (info_of info r).path) (t ∷ u ∷ ts))));
}

abbrev pub tainting : Info → List ℕ → List ℕ
tainting info = filter (λ r. not (info_of info r).readonly)

-- The loop body over `members`.
unfoldable pub plan_owner : Info → List ℕ → TaintOwner
plan_owner info members = let rs = sort leb members in owner_of info rs (tainting info rs)

abbrev plan_each : Info → Members → List (InodeKey × TaintOwner)
plan_each info [] = []
plan_each info ((exe, rs) ∷ m) = insert exe (plan_owner info rs) (plan_each info m)

-- `planTaintOwners`
unfoldable pub plan_taint_owners : Allows → Info → List (InodeKey × TaintOwner)
plan_taint_owners allows info = plan_each info (collect_members info allows [])

-- The loop of `intersectAllows` over the entries that are left.
abbrev pub intersect_with : AllowSet → AllowSet → AllowSet
intersect_with [] set = []
intersect_with ((k, a) ∷ inter) set =
    let rest = intersect_with inter set in
    elim (lookup k set) [
      | none ↦ rest
      | some other ↦
          (if (other == guard_allow_root) || (a == guard_allow_root)
            then (k, guard_allow_root) ∷ rest
            else (k, a) ∷ rest)
    ]

abbrev pub intersect_rest : AllowSet → List AllowSet → AllowSet
intersect_rest inter [] = inter
intersect_rest inter (set ∷ sets) = intersect_rest (intersect_with inter set) sets

-- `intersectAllows`
unfoldable pub intersect_allows : List AllowSet → AllowSet
intersect_allows [] = []
intersect_allows (set ∷ sets) = intersect_rest set sets

-- `isSubset`
unfoldable pub is_subset : List Bytes → List Bytes → Bool
is_subset [] b = true
is_subset (p ∷ a) b = if contains b p then is_subset a b else false

-- `withRealKeys`, for one resource: adds the file's own key of every applet key.
abbrev pub add_real_keys : AllowSet → AllowSet → AllowSet
add_real_keys [] cp = cp
add_real_keys ((k, a) ∷ set) cp =
    add_real_keys set
      (if tagged k then (if has_key (real k) cp then cp else insert (real k) a cp) else cp)

unfoldable pub with_real_keys : Allows → Allows
with_real_keys [] = []
with_real_keys ((res, set) ∷ allows) = (res, add_real_keys set set) ∷ with_real_keys allows
