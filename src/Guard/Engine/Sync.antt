-- ===== src/Guard/Engine/Sync.antt =====
-- internal/guard: the cross-resource views that the engine keeps in step with every allow and deny:
-- the union, the taint sets' whitelists and members, and the reserved slot's whitelist.
use app_listener.Base.{
  Option, ℕ, Bool, true, false, not, ◌&&◌, ◌||◌, none, some, List, [], ◌∷◌, ◌++◌, map, ◌==◌, nat_eq,
  list_eq, pair_eq, if◌then◌else◌, contains, Bytes,
}
use app_listener.Base.Assoc.{lookup, insert, delete, has_key}
use app_listener.Base.State.{kernel_fault, ok, pure, throw, ◌>>=◌, ◌>>◌, when, each}
use app_listener.Guard.Keys.{InodeKey, inode_eq, ResInodeKey, AllowSet, res_global, real}
use app_listener.Guard.Taint.{
  Allows, Info, TaintOwner, set_paths, plan_taint_owners, intersect_allows, is_subset,
  with_real_keys,
}
use app_listener.Guard.Kernel.{Kernel, action_row, union_row, member_row}
use app_listener.Guard.Engine.{
  Engine, Act, put_row, delete_row, set_engine, on_engine, alloc_set_slot, live_res_info,
}

-- `e.allows[res]`, the nil map where the key is missing.
abbrev pub allows_of : ℕ → Allows → AllowSet
allows_of res allows = elim (lookup res allows) [ none ↦ [] | some set ↦ set ]

-- `allowSets`: the whitelists of the live resources that a set names.
abbrev pub member_sets : Info → Allows → List Bytes → List AllowSet
member_sets [] allows paths = []
member_sets ((res, i) ∷ info) allows paths =
    if contains paths i.path
    then allows_of res allows ∷ member_sets info allows paths
    else member_sets info allows paths

-- `used`: the slots of the union that are taint sets.
abbrev pub used_sets : Engine → List (InodeKey × ℕ) → List ℕ
used_sets e [] = []
used_sets e ((exe, slot) ∷ union) =
    if has_key slot e.set_at then slot ∷ used_sets e union else used_sets e union

-- The two inner loops of `planMemberRows`, for the set in `slot` with those paths.
abbrev pub resource_members : ℕ → List Bytes → Info → List (ℕ × ℕ)
resource_members slot paths [] = []
resource_members slot paths ((res, i) ∷ info) =
    if contains paths i.path
    then (slot, res) ∷ resource_members slot paths info
    else resource_members slot paths info

abbrev pub subset_members : ℕ → List Bytes → List ℕ → List (Bytes × ℕ) → List (ℕ × ℕ)
subset_members slot paths used [] = []
subset_members slot paths used ((key, other) ∷ sets) =
    if contains used other && (not (other == slot) && is_subset (set_paths key) paths)
    then (slot, other) ∷ subset_members slot paths used sets
    else subset_members slot paths used sets

-- The outer loop, over the sets that are left, with all of them at hand.
abbrev pub member_rows_from : List (Bytes × ℕ) → List (Bytes × ℕ) → Info → List ℕ → List (ℕ × ℕ)
member_rows_from [] all info used = []
member_rows_from ((key, slot) ∷ sets) all info used =
    let rest = member_rows_from sets all info used in
    if contains used slot
    then resource_members slot (set_paths key) info
      ++ (subset_members slot (set_paths key) used all ++ rest)
    else rest

-- `planMemberRows`
unfoldable pub plan_member_rows : List (Bytes × ℕ) → Info → List ℕ → List (ℕ × ℕ)
plan_member_rows sets info used = member_rows_from sets sets info used

-- `cur, ok := have[exe]; ok && cur == v`
abbrev pub row_is : InodeKey → ℕ → List (InodeKey × ℕ) → Bool
row_is exe v have = elim (lookup exe have) [ none ↦ false | some cur ↦ cur == v ]

module _ (K : Kernel) where
  -- The two loops of `syncSetRowsLocked`.
  abbrev pub drop_set_row : ℕ → AllowSet → InodeKey × ℕ → Act K (Unit {0})
  drop_set_row slot want (exe, a) =
      if has_key exe want
      then pure tt
      else delete_row K (action_row (record { res = slot; exe = exe }))

  abbrev pub write_set_row : ℕ → AllowSet → InodeKey × ℕ → Act K (Unit {0})
  write_set_row slot have (exe, a) =
      if row_is exe a have
      then pure tt
      else put_row K (action_row (record { res = slot; exe = exe })) a

  -- `syncSetRowsLocked`
  unfoldable pub sync_set_rows : ℕ → AllowSet → Act K (Unit {0})
  sync_set_rows slot want = on_engine K λ e.
      let have = allows_of slot e.set_rows in
      (do
        each (drop_set_row slot want) have
        each (write_set_row slot have) want
        set_engine K λ e. record e { set_rows = insert slot want e.set_rows })

  -- The two loops of `syncU32Map`, over guard_exe_union: puts first.
  abbrev pub write_union_row : List (InodeKey × ℕ) → InodeKey × ℕ → Act K (Unit {0})
  write_union_row have (exe, slot) =
      if row_is exe slot have then pure tt else put_row K (union_row exe) slot

  abbrev pub drop_union_row : List (InodeKey × ℕ) → InodeKey × ℕ → Act K (Unit {0})
  drop_union_row want (exe, slot) =
      if has_key exe want then pure tt else delete_row K (union_row exe)

  -- `syncU32Map`
  unfoldable pub sync_union_map : List (InodeKey × ℕ) → List (InodeKey × ℕ) → Act K (Unit {0})
  sync_union_map have want = do each (write_union_row have) want; each (drop_union_row want) have

  -- The two loops of `syncSetMap`, over guard_taint_members.
  abbrev pub write_member_row : List (ℕ × ℕ) → ℕ × ℕ → Act K (Unit {0})
  write_member_row have (s, m) =
      if contains have (s, m) then pure tt else put_row K (member_row s m) 1

  abbrev pub drop_member_row : List (ℕ × ℕ) → ℕ × ℕ → Act K (Unit {0})
  drop_member_row want (s, m) =
      if contains want (s, m) then pure tt else delete_row K (member_row s m)

  -- `syncSetMap`
  unfoldable pub sync_member_map : List (ℕ × ℕ) → List (ℕ × ℕ) → Act K (Unit {0})
  sync_member_map have want = do each (write_member_row have) want; each (drop_member_row want) have

  -- The body of the first loop of `syncSetsLocked`.
  abbrev pub sync_one_set : Info → Bytes × ℕ → Act K (Unit {0})
  sync_one_set info (key, slot) =
      on_engine K
        λ e. sync_set_rows slot (intersect_allows (member_sets info e.allows (set_paths key)))

  -- `syncSetsLocked`
  unfoldable pub sync_sets : Info → List (InodeKey × ℕ) → Act K (Unit {0})
  sync_sets info union = on_engine K λ e.
      let members = plan_member_rows e.sets info (used_sets e union) in
      (do
        each (sync_one_set info) e.sets
        sync_member_map e.member_rows members
        set_engine K λ e. record e { member_rows = members })

  -- The slot that an owner's taint lands in; the reserved one when no slot is free for a new set.
  abbrev pub owner_slot : TaintOwner → Act K ℕ
  owner_slot o =
      if o.set_key == []
      then pure o.res
      else on_engine K λ e. elim (lookup o.set_key e.sets) [
        | some slot ↦ pure slot
        | none ↦ alloc_set_slot K o.set_key
      ]

  -- The loop over the planned owners. A full table answers slot 0, which is the reserved slot.
  unfoldable pub build_union :
      List (InodeKey × TaintOwner) → List (InodeKey × ℕ) → Act K (List (InodeKey × ℕ))
  build_union [] union = pure union
  build_union ((exe, o) ∷ owners) union = do
    slot ← owner_slot o
    build_union owners (insert exe slot union)

  -- `syncTaintLocked`
  unfoldable pub sync_taint : Act K (Unit {0})
  sync_taint = on_engine K λ e.
      let info = live_res_info e.slots in
      when e.started (do
        union ← build_union (plan_taint_owners (with_real_keys e.allows) info) []
        sync_sets info union
        on_engine K λ e. sync_union_map e.union_rows union
        set_engine K λ e. record e { union_rows = union })

  -- `clearGlobalAllowsLocked`
  abbrev pub clear_key : ResInodeKey → Act K (Unit {0})
  clear_key k = if k.res == res_global then delete_row K (action_row k) else pure tt

  -- What the iterator listed, or its error.
  abbrev pub clear_keys : Option (List ResInodeKey) → Act K (Unit {0})
  clear_keys none = throw kernel_fault
  clear_keys (some ks) = each clear_key ks

  unfoldable pub clear_global_allows : Act K (Unit {0})
  clear_global_allows w = clear_keys (K.action_keys w.kernel) w

  abbrev pub put_global : InodeKey × ℕ → Act K (Unit {0})
  put_global (exe, action) = put_row K (action_row (record { res = res_global; exe = exe })) action

  -- `allowIntersectionLocked`
  abbrev pub allow_intersection : Engine → AllowSet
  allow_intersection e = intersect_allows (map (λ (res, set). set) e.allows)

  -- `refreshGlobalLocked`
  unfoldable pub refresh_global : Act K (Unit {0})
  refresh_global =
      on_engine K
        λ e. when e.started (do clear_global_allows; each put_global (allow_intersection e))

  -- `syncSharedLocked`
  unfoldable pub sync_shared : Act K (Unit {0})
  sync_shared = do sync_taint; refresh_global

  -- `noteAllow`
  unfoldable pub note_allow : ℕ → InodeKey → ℕ → Act K (Unit {0})
  note_allow res exe action = do
    set_engine K λ e. record e {
      allows = insert res (insert exe action (allows_of res e.allows)) e.allows;
      allows_made = true;
    }
    sync_shared

  -- `noteDeny`
  unfoldable pub note_deny : ℕ → InodeKey → Act K (Unit {0})
  note_deny res exe = on_engine K λ e.
      if has_key exe (allows_of res e.allows)
      then (do
        set_engine K
            λ e. record e { allows = insert res (delete exe (allows_of res e.allows)) e.allows }
        sync_shared)
      else pure tt

  -- `forgetResource`; a failed refresh is only logged.
  unfoldable pub forget_resource : ℕ → Act K (Unit {0})
  forget_resource res w =
      let (r, w') =
        sync_shared
          (record w { engine = record (w.engine) { allows = delete res w.engine.allows } }) in
      if not w.engine.allows_made then (ok tt, w) else (ok tt, w')

-- `admitsExe`
abbrev pub is_inspector : Engine → InodeKey → Bool
is_inspector e exe = has_key exe e.inspectors

abbrev allows_real : InodeKey → AllowSet → Bool
allows_real exe [] = false
allows_real exe ((k, a) ∷ set) = (real k == exe) || allows_real exe set

abbrev any_allows : InodeKey → Allows → Bool
any_allows exe [] = false
any_allows exe ((res, set) ∷ allows) = allows_real exe set || any_allows exe allows

unfoldable pub admits_exe : Engine → InodeKey → Bool
admits_exe e exe = is_inspector e exe || any_allows exe e.allows
