-- ===== src/Maintainer/Links.antt =====
-- internal/maintainer: where a symlink of a run leads, links.go. What the live tree has at a path
-- (`os.Lstat`, `os.Readlink`) and `RootPlacedName` are a parameter.
pub mod Hops
use app_listener.Base.{
  ℕ, zero, suc, ◌+◌, Bool, true, false, not, ◌&&◌, ◌||◌, Option, none, some, List, [], ◌∷◌, ◌++◌,
  ◌==◌, nat_eq, list_eq, if◌then◌else◌, leb, ltb, length, drop, Bytes, codes,
}
use app_listener.Base.Assoc.{lookup, insert}
use app_listener.Base.Strings.{has_prefix, split}
use app_listener.DaemonConfig.Text.{clean, is_abs, trim_prefix}
use app_listener.Maintainer.{OpKind, op_delete, op_dir, op_link, op_file, Op, LibPlan}

-- `maxLinkHops`
abbrev pub max_link_hops : ℕ
max_link_hops = 40

-- `entryKind`, a link with its target.
pub data Entry : Type 0 where
  entry_missing entry_dir entry_file : Entry
  entry_link : Bytes → Entry

-- The live tree; none is an error.
pub record LiveTree : Type 0 where
  pub entry_at : Bytes → Option Entry
  pub root_placed : Bytes → Bool

-- `linkView`, without its cache.
pub record LinkView : Type 0 where
  pub libs : List Bytes
  pub ops : List (Bytes × Op)

-- `path.Join` and `path.Dir`
abbrev pub join_path : Bytes → Bytes → Bytes
join_path [] [] = []
join_path [] (c ∷ b) = clean (c ∷ b)
join_path (c ∷ a) [] = clean (c ∷ a)
join_path (c ∷ a) (d ∷ b) = clean ((c ∷ a) ++ 47 ∷ d ∷ b)

abbrev pub all_but_last : List Bytes → List Bytes
all_but_last [] = []
all_but_last (p ∷ []) = []
all_but_last (p ∷ q ∷ ps) = p ∷ all_but_last (q ∷ ps)

abbrev pub join_slash : List Bytes → Bytes
join_slash [] = []
join_slash (p ∷ ps) = p ++ 47 ∷ join_slash ps

abbrev pub path_dir : Bytes → Bytes
path_dir p = clean (join_slash (all_but_last (split 47 p)))

-- `newLinkView`
abbrev pub add_ops : Bytes → List Op → List (Bytes × Op) → List (Bytes × Op)
add_ops dir [] m = m
add_ops dir (o ∷ os) m = add_ops dir os (insert (join_path dir o.rel) o m)

abbrev pub ops_of : List LibPlan → List (Bytes × Op) → List (Bytes × Op)
ops_of [] m = m
ops_of (l ∷ ls) m = ops_of ls (add_ops l.dir l.ops m)

abbrev pub clean_all : List Bytes → List Bytes
clean_all [] = []
clean_all (d ∷ ds) = clean d ∷ clean_all ds

abbrev pub new_link_view : List Bytes → List LibPlan → LinkView
new_link_view dirs libs = record { libs = clean_all dirs; ops = ops_of libs [] }

-- The loop of `linkTarget`: true is a ".." after a name.
abbrev pub climbs_late : Bool → List Bytes → Bool
climbs_late named [] = false
climbs_late named (c ∷ cs) =
    if (c == []) || (c == codes ".")
    then climbs_late named cs
    else if c == codes ".."
    then named || climbs_late named cs
    else climbs_late true cs

-- `linkTarget`
unfoldable pub link_target : Bytes → Bytes → Option Bytes
link_target abs target =
    if climbs_late false (split 47 target) || (target == [])
    then none
    else some (if is_abs target then clean target else join_path (path_dir abs) target)

-- `libOf`
abbrev pub lib_from : Bytes → Bytes → List Bytes → Bytes
lib_from p best [] = best
lib_from p best (l ∷ ls) =
    lib_from p
      (if ((p == l) || has_prefix p (l ++ codes "/")) && ltb (length best) (length l)
        then l
        else best)
      ls

abbrev pub entry_of : Op → Entry
entry_of o = elim o.kind [
  | op_delete ↦ entry_missing
  | op_dir ↦ entry_dir
  | op_link ↦ entry_link o.target
  | op_file ↦ entry_file
]

-- What `resolve` says of a path.
pub data Verdict : Type 0 where
  leads_in leads_astray out_of_fuel : Verdict

module _ (live : LiveTree) (v : LinkView) where
  -- `kind`
  abbrev pub is_replaced : Option Op → Bool
  is_replaced none = false
  is_replaced (some o) = o.opaque

  abbrev pub planned_entry : Bytes → Option Op → Option Entry
  planned_entry p (some o) = some (entry_of o)
  planned_entry p none =
      if is_replaced (lookup (path_dir p) v.ops) then some entry_missing else live.entry_at p

  unfoldable pub kind : Bytes → Option Entry
  kind p = planned_entry p (lookup p v.ops)

  -- A link that the walk meets, with the parts that are left.
  abbrev pub join_rest : Bytes → List Bytes → Bytes
  join_rest next [] = clean next
  join_rest next (c ∷ cs) = join_path next (join_slash (c ∷ cs))

  abbrev pub follow_link : (Bytes → Verdict) → List Bytes → Option Bytes → Verdict
  follow_link follow rest none = leads_astray
  follow_link follow rest (some next) = follow (join_rest next rest)

  abbrev pub at_entry : (Bytes → Verdict) → Bytes → List Bytes → Verdict → Option Entry → Verdict
  at_entry follow cur rest more none = leads_astray
  at_entry follow cur rest more (some entry_missing) = leads_in
  at_entry follow cur rest more (some entry_file) = leads_in
  at_entry follow cur rest more (some entry_dir) = more
  at_entry follow cur rest more (some (entry_link target)) =
      follow_link follow rest (link_target cur target)

  -- The loop of `resolve` over the parts below the lib_dir.
  abbrev pub walk : (Bytes → Verdict) → Bytes → List Bytes → Verdict
  walk follow cur [] = leads_in
  walk follow cur (c ∷ cs) =
      let skip = walk follow cur cs in
      let next = cur ++ 47 ∷ c in
      let more = walk follow next cs in
      if c == [] then skip else at_entry follow next cs more (kind next)

  abbrev pub below : Bytes → Bytes → List Bytes
  below lib p = split 47 (trim_prefix (drop (length lib) p) (codes "/"))

  -- `resolve`; a call spends one unit of fuel.
  abbrev pub resolve : ℕ → Bytes → ℕ → Verdict
  resolve zero p hops = out_of_fuel
  resolve (suc fuel) p hops =
      let lib = lib_from p [] v.libs in
      let found = walk (λ next. resolve fuel next (suc hops)) lib (below lib p) in
      if ltb max_link_hops hops
      then leads_astray
      else if lib == []
      then (if live.root_placed p then leads_in else leads_astray)
      else found

  -- The loop body of `checkLinks`; `resolve` starts with one hop.
  abbrev pub check_target : Option Bytes → Bool
  check_target none = false
  check_target (some next) = elim (resolve 41 next 1) [ leads_in ↦ true | _ ↦ false ]

  abbrev pub check_link : Bytes → Op → Bool
  check_link dir o = elim o.kind [
    | op_link ↦ check_target (link_target (join_path dir o.rel) o.target)
    | _ ↦ true
  ]

  -- `checkLinks`
  unfoldable pub check_links : Bytes → List Op → Bool
  check_links dir [] = true
  check_links dir (o ∷ os) = check_link dir o && check_links dir os
