-- ===== src/Guard/Taint/Owners.antt =====
-- internal/guard/taintset.go, `planTaintOwners`: the owner of an executable's taint is exactly the
-- set of the resources that whitelist it and can taint.
use app_listener.Base.{
  ℕ, ◌≡◌, refl, sym, ◌∙◌, ap, ◌≢◌, ◌↔◌, inl, inr, Bool, true, false, not, ◌&&◌, ◌||◌, Option, none,
  some, List, [], ◌∷◌, ◌++◌, map, ◌==◌, nat_eq, list_eq, leb, contains, contains-append,
  contains-filter, beq_refl, Bytes, arith, Bool-cases,
}
use app_listener.Base.Assoc.{lookup, insert, has_key, lookup-insert}
use app_listener.Base.Sort.{sort, bytes_leb, contains-sort}
use app_listener.Base.Strings.{Clean, contains-split_key, split-nil}
use app_listener.Guard.Keys.{InodeKey, inode_eq, AllowSet}
use app_listener.Guard.Taint.{
  TaintOwner, set_paths, Allows, Info, Members, members_of, add_members, collect_members, info_of,
  owner_of, tainting, plan_owner, plan_each, plan_taint_owners,
}

-- Resource `r` is live and its whitelist holds `exe`.
abbrev pub allows_exe : Info → Allows → InodeKey → ℕ → Bool
allows_exe info [] exe r = false
allows_exe info ((res, set) ∷ allows) exe r =
    (has_key res info && (has_key exe set && (res == r))) || allows_exe info allows exe r

contains-add_members :
    (res : ℕ) (exe : InodeKey) (r : ℕ) (set : AllowSet) (m : Members)
    → contains (members_of exe (add_members res set m)) r
      ≡ (contains (members_of exe m) r || (has_key exe set && (res == r)))
contains-add_members res exe r [] m = ground arith
contains-add_members res exe r ((k, a) ∷ set) m = ground (
  arith,
  contains-add_members res exe r set (insert k (members_of k m ++ res ∷ []) m),
  lookup-insert k exe (members_of k m ++ res ∷ []) m,
  contains-append (members_of k m) (res ∷ []) r,
  inode_eq.beq_iff k exe,
)

contains-collect_members :
    (info : Info) (exe : InodeKey) (r : ℕ) (allows : Allows) (m : Members)
    → contains (members_of exe (collect_members info allows m)) r
      ≡ (contains (members_of exe m) r || allows_exe info allows exe r)
contains-collect_members info exe r [] m = ground arith
contains-collect_members info exe r ((res, set) ∷ allows) m = elim (Bool-cases (has_key res info)) [
  | inl live ↦
      rw
        (
          live,
          contains-collect_members info exe r allows (add_members res set m),
          contains-add_members res exe r set m,
        )
        (ground arith)
  | inr dead ↦ rw (dead, contains-collect_members info exe r allows m) (ground arith)
]

lookup-plan_each :
    (info : Info) (exe : InodeKey) (m : Members)
    → lookup exe (plan_each info m)
      ≡ elim (lookup exe m) [ none ↦ none | some rs ↦ some (plan_owner info rs) ]
lookup-plan_each info exe [] = refl
lookup-plan_each info exe ((k, rs) ∷ m) = ground (
  arith,
  lookup-plan_each info exe m,
  lookup-insert k exe (plan_owner info rs) (plan_each info m),
  inode_eq.beq_iff k exe,
)

-- The resources whose paths can stand in a set.
abbrev taints : Info → List ℕ → ℕ → Bool
taints info rs r = contains rs r && not (info_of info r).readonly

contains-tainting :
    (info : Info) (rs : List ℕ) (r : ℕ)
    → contains (tainting info (sort leb rs)) r ≡ taints info rs r
contains-tainting info rs r =
    contains-filter (λ q. not (info_of info q).readonly) (sort leb rs) r
    ∙ ap (λ b. b && not (info_of info r).readonly) (contains-sort leb r rs)

-- The paths of the table hold no NUL byte.
abbrev pub CleanInfo : Info → Type 0
CleanInfo [] = Unit
CleanInfo ((r, i) ∷ info) = (contains i.path 0 ≡ false) × CleanInfo info

abbrev path_of : Info → ℕ → Bytes
path_of info r = (info_of info r).path

path_of-Clean : (info : Info) (rs : List ℕ) → CleanInfo info → Clean 0 (map (path_of info) rs)
path_of-Clean info [] c = tt
path_of-Clean info (r ∷ rs) c = (one info c, path_of-Clean info rs c)
  where
    one : (i : Info) → CleanInfo i → contains (path_of i r) 0 ≡ false
    one [] c = refl
    one ((s, i) ∷ info) c = ground (arith, one info c.1)

owner_of-set :
    (info : Info) (rs ts : List ℕ) (p : Bytes)
    → CleanInfo info
    → (owner_of info rs ts).set_key ≢ []
    → contains (set_paths (owner_of info rs ts).set_key) p ≡ contains (map (path_of info) ts) p
owner_of-set info [] [] p c h = absurd (h refl)
owner_of-set info (r ∷ rs) [] p c h = absurd (h refl)
owner_of-set info [] (t ∷ []) p c h = absurd (h refl)
owner_of-set info (r ∷ rs) (t ∷ []) p c h = absurd (h refl)
owner_of-set info [] (t ∷ u ∷ ts) p c h =
    contains-split_key 0 bytes_leb (path_of info t) p (map (path_of info) (u ∷ ts))
      (path_of-Clean info (t ∷ u ∷ ts) c)
owner_of-set info (r ∷ rs) (t ∷ u ∷ ts) p c h =
    contains-split_key 0 bytes_leb (path_of info t) p (map (path_of info) (u ∷ ts))
      (path_of-Clean info (t ∷ u ∷ ts) c)

contains-map→ :
    (f : ℕ → Bytes) (ts : List ℕ) (p : Bytes)
    → contains (map f ts) p ≡ true
    → (r : ℕ) × (contains ts r ≡ true) × (f r ≡ p)
contains-map→ f [] p h = cc
contains-map→ f (t ∷ ts) p h = elim (Bool-cases (f t == p)) [
  | inl e ↦ (t, ground arith, (list_eq.beq_iff (f t) p).0 e)
  | inr e ↦ let (r, m, q) = contains-map→ f ts p (ground arith) in (r, ground arith, q)
]

contains-map← :
    (f : ℕ → Bytes) (ts : List ℕ) (r : ℕ) → contains ts r ≡ true → contains (map f ts) (f r) ≡ true
contains-map← f [] r h = cc
contains-map← f (t ∷ ts) r h = elim (Bool-cases (t == r)) [
  | inl e ↦ rw (ap f ((nat_eq.beq_iff t r).0 e), beq_refl (f r))
  | inr e ↦ ground (arith, contains-map← f ts r)
]

set_key-ne-nil :
    (info : Info) (t u r : ℕ) (ts : List ℕ)
    → CleanInfo info
    → contains (t ∷ u ∷ ts) r ≡ true
    → path_of info r ≢ []
    → (owner_of info [] (t ∷ u ∷ ts)).set_key ≢ []
set_key-ne-nil info t u r ts c m p e = p (
    sym (
      (list_eq.beq_iff [] (path_of info r)).0 (
        ground (
          arith,
          ap (λ k. contains (set_paths k) (path_of info r)) e,
          ap (λ l. contains l (path_of info r)) (split-nil 0),
          contains-split_key 0 bytes_leb (path_of info t) (path_of info r)
              (map (path_of info) (u ∷ ts)) (path_of-Clean info (t ∷ u ∷ ts) c),
          contains-map← (path_of info) (t ∷ u ∷ ts) r m,
        ))))

owner_of-single :
    (info : Info) (rs ts : List ℕ) (r : ℕ)
    → CleanInfo info
    → contains ts r ≡ true
    → path_of info r ≢ []
    → (owner_of info rs ts).set_key ≡ []
    → (owner_of info rs ts).res ≡ r
owner_of-single info rs [] r c m p e = cc
owner_of-single info [] (t ∷ []) r c m p e = ground arith
owner_of-single info (s ∷ rs) (t ∷ []) r c m p e = ground arith
owner_of-single info [] (t ∷ u ∷ ts) r c m p e = absurd (set_key-ne-nil info t u r ts c m p e)
owner_of-single info (s ∷ rs) (t ∷ u ∷ ts) r c m p e = absurd (set_key-ne-nil info t u r ts c m p e)

-- The resources whose whitelist has `exe` and whose mode can taint.
abbrev pub can_taint : Info → Allows → InodeKey → ℕ → Bool
can_taint info allows exe r = allows_exe info allows exe r && not (info_of info r).readonly

-- The members that the plan of `exe` was made from.
planned :
    (info : Info) (allows : Allows) (exe : InodeKey) (o : TaintOwner)
    → lookup exe (plan_taint_owners allows info) ≡ some o
    → (rs : List ℕ) × (o ≡ plan_owner info rs)
      × ((r : ℕ) → contains rs r ≡ allows_exe info allows exe r)
unfolding plan_taint_owners
planned info allows exe o h = go (lookup exe (collect_members info allows [])) refl
  where
    go :
        (l : Option (List ℕ))
        → lookup exe (collect_members info allows []) ≡ l
        → (rs : List ℕ) × (o ≡ plan_owner info rs)
          × ((r : ℕ) → contains rs r ≡ allows_exe info allows exe r)
    go none e = ground (arith, lookup-plan_each info exe (collect_members info allows []))
    go (some rs) e = (
      rs,
      ground (arith, lookup-plan_each info exe (collect_members info allows [])),
      λ r. ground (arith, contains-collect_members info exe r allows []),
    )

-- A set's key names exactly the paths of the live resources that whitelist the executable and are
-- not read-only.
pub plan-set :
    (allows : Allows) (info : Info) (exe : InodeKey) (o : TaintOwner) (p : Bytes)
    → CleanInfo info
    → lookup exe (plan_taint_owners allows info) ≡ some o
    → o.set_key ≢ []
    → (contains (set_paths o.set_key) p ≡ true)
      ↔ ((r : ℕ) × (can_taint info allows exe r ≡ true) × ((info_of info r).path ≡ p))
unfolding plan_owner
plan-set allows info exe o p c h n =
    let (rs, e, same) = planned info allows exe o h in
    let ts = tainting info (sort leb rs) in
    let set : contains (set_paths o.set_key) p ≡ contains (map (path_of info) ts) p =
      rw e (owner_of-set info (sort leb rs) ts p c (rw e at n)) in
    let member : (r : ℕ) → contains ts r ≡ can_taint info allows exe r =
      λ r. contains-tainting info rs r ∙ ap (λ b. b && not (info_of info r).readonly) (same r) in
    (
      λ m.
          let (r, k, q) = contains-map→ (path_of info) ts p (sym set ∙ m) in
          (r, sym (member r) ∙ k, q),
      λ (r, k, q).
          set
          ∙ ap (contains (map (path_of info) ts)) (sym q)
          ∙ contains-map← (path_of info) ts r (member r ∙ k),
    )

-- An owner that is no set is the only resource with a path that whitelists the executable and is
-- not read-only, if there is one.
pub plan-single :
    (allows : Allows) (info : Info) (exe : InodeKey) (o : TaintOwner) (r : ℕ)
    → CleanInfo info
    → lookup exe (plan_taint_owners allows info) ≡ some o
    → o.set_key ≡ []
    → can_taint info allows exe r ≡ true
    → (info_of info r).path ≢ []
    → o.res ≡ r
unfolding plan_owner
plan-single allows info exe o r c h n k p =
    let (rs, e, same) = planned info allows exe o h in
    let member : contains (tainting info (sort leb rs)) r ≡ true =
      contains-tainting info rs r ∙ ap (λ b. b && not (info_of info r).readonly) (same r) ∙ k in
    rw e (owner_of-single info (sort leb rs) (tainting info (sort leb rs)) r c member p (rw e at n))
