-- ===== src/Samples/Guarding.antt =====
-- Concrete runs of internal/guard's tables and plans.
use app_listener.Base.{
  ℕ, ◌+◌, ◌<◌, ◌≤◌, ◌≡◌, refl, ◌⊎◌, inl, inr, ◌↔◌, true, false, none, some, List, [], ◌∷◌, nat_eq,
  list_eq, if◌then◌else◌, contains, Bytes, codes, bytes_iff, arith,
}
use app_listener.Base.Assoc.{lookup}
use app_listener.Base.Bits.{bit_at, and_not}
use app_listener.Guard.Keys.{InodeKey, inode_eq, AllowSet, guard_allow, guard_block, whitelist}
use app_listener.Guard.Taint.{
  Info, Allows, TaintOwner, plan_owner, plan_taint_owners, set_paths, info_of, intersect_allows,
}
use app_listener.Guard.Taint.Owners.{can_taint, plan-set}
use app_listener.Guard.Taint.Intersect.{agreed, lookup-intersect_allows}
use app_listener.Guard.Engine.{SlotGuard, Engine, slot_busy, alloc_slot, free_resource_slots}
use app_listener.Guard.Engine.Slots.{with_slot, alloc_slot_lem}
use app_listener.Guard.Events.{
  event, event_mask, EventType, mask, out_of_range, in_range, allowed, asked, event_mask-allowed,
}
use app_listener.Guard.Multicall.{applet_tag}
use app_listener.Guard.Multicall.Tags.{IsTagTable, Tagged, applet_tag-Tagged}
use app_listener.Guard.Rows.{ExeRow}
use app_listener.Guard.Temp.{
  TempBinary, TempRow, new_row, change, mask_put, mask_delete, plan_temp_allow, plan_temp_block,
}
use app_listener.Guard.Temp.Plan.{
  lets, lets_after, ruled, plan_temp_block-narrows, plan_temp_allow-ruled,
}

abbrev key : ℕ → InodeKey
key n = record { dev = 1; ino = n }

abbrev two_live : Info
two_live =
    (1, record { path = codes "/a"; readonly = false })
    ∷ (2, record { path = codes "/b"; readonly = false })
    ∷ []

abbrev both_allow : Allows
both_allow = (1, (key 7, 2) ∷ []) ∷ (2, (key 7, 2) ∷ []) ∷ []

abbrev set_owner : TaintOwner
set_owner = record { res = 0; set_key = 47 ∷ 97 ∷ 0 ∷ 47 ∷ 98 ∷ [] }

owned_by_set : lookup (key 7) (plan_taint_owners both_allow two_live) ≡ some set_owner
unfolding plan_taint_owners plan_owner
owned_by_set = refl

plan-set_example : (contains (set_paths set_owner.set_key) (codes "/a") ≡ true) ↔ (
    (r : ℕ) × (can_taint two_live both_allow (key 7) r ≡ true)
    × ((info_of two_live r).path ≡ codes "/a"))
plan-set_example =
    plan-set both_allow two_live (key 7) set_owner (codes "/a") (refl, (refl, tt)) owned_by_set
      (λ e. cc)

abbrev three_sets : List AllowSet
three_sets =
    ((key 7, 2) ∷ (key 8, 2) ∷ []) ∷ ((key 7, 3) ∷ []) ∷ ((key 8, 2) ∷ (key 7, 2) ∷ []) ∷ []

lookup-intersect_allows_example :
    lookup (key 7) (intersect_allows three_sets) ≡ agreed (key 7) three_sets
lookup-intersect_allows_example =
    lookup-intersect_allows (key 7) ((key 7, 2) ∷ (key 8, 2) ∷ [])
      (((key 7, 3) ∷ []) ∷ ((key 8, 2) ∷ (key 7, 2) ∷ []) ∷ [])
      (inr (inl refl), (inr (inr refl), (inr (inl refl), tt)))

abbrev etc_guard : SlotGuard
etc_guard = record { path = codes "/etc"; mode = whitelist; canonical_root = true }

abbrev one_live : Engine
one_live = record {
  slots = (1, etc_guard) ∷ [];
  started = true;
  refs = 1;
  allows = [];
  allows_made = true;
  sets = [];
  set_at = [];
  set_rows = [];
  union_rows = [];
  member_rows = [];
  successor = [];
  inspectors = [];
  prev_owner = [];
  mc_tags = [];
  mc_builds = [];
  mc_names = [];
}

alloc_slot_lem_example :
    ((alloc_slot one_live etc_guard ≡ none) × (free_resource_slots one_live ≡ 0))
    ⊎ ((id : ℕ) × (alloc_slot one_live etc_guard ≡ some (id, with_slot one_live id etc_guard))
        × (1 ≤ id)
        × (id < 512)
        × (slot_busy one_live id ≡ false)
        × ((j : ℕ) → 1 ≤ j → j < id → slot_busy one_live j ≡ true)
        × (free_resource_slots (with_slot one_live id etc_guard) + 1
            ≡ free_resource_slots one_live))
alloc_slot_lem_example = alloc_slot_lem one_live etc_guard

abbrev reads : List EventType
reads = event 1 ∷ []

event_mask-allowed_example :
    ((in_range reads ≡ false) × (event_mask reads ≡ out_of_range))
    ⊎ ((in_range reads ≡ true)
        × ((i : ℕ)
            → (m : ℕ) × (event_mask reads ≡ mask m)
              × (bit_at m i ≡ (if allowed reads i then 1 else 0))))
event_mask-allowed_example = event_mask-allowed reads

abbrev one_tag : List (Bytes × ℕ)
one_tag = (codes "ls", 1) ∷ []

one_tag-IsTagTable : IsTagTable one_tag
one_tag-IsTagTable = record {
  range = λ n t e. ground (arith, bytes_iff (codes "ls") n);
  distinct = λ n m t e f. ground (arith, bytes_iff (codes "ls") n, bytes_iff (codes "ls") m);
  small = omega arith;
}

applet_tag-Tagged_example : Tagged (codes "cat") one_tag (applet_tag (codes "cat") one_tag)
applet_tag-Tagged_example = applet_tag-Tagged (codes "cat") one_tag one_tag-IsTagTable

abbrev cat : TempBinary
cat = record { path = codes "/bin/cat"; key = key 9; runtime = 0 }

abbrev allowed_row : ExeRow
allowed_row = record { has_action = true; action = 2; has_mask = true; mask = 7 }

abbrev narrowed : TempRow
narrowed = record (new_row cat allowed_row) { mask_op = mask_put; new_mask = 5 }

-- A mask that outlived its action.
abbrev stale_row : ExeRow
stale_row = record { has_action = false; action = 0; has_mask = true; mask = 1 }

abbrev cleared_row : TempRow
cleared_row = record (new_row cat stale_row) { new_action = 2; mask_op = mask_delete }

plans_narrow : plan_temp_block (new_row cat allowed_row) reads ≡ change narrowed
unfolding plan_temp_block and_not
plans_narrow = refl

abbrev no_events : List EventType
no_events = []

plans_allow : plan_temp_allow (new_row cat stale_row) no_events ≡ change cleared_row
unfolding plan_temp_allow
plans_allow = refl

plan_temp_block-narrows_example :
    (allowed_row.has_action ≡ true)
    × (allowed_row.action ≡ guard_allow)
    × (((reads ≡ []) × (narrowed ≡ record (new_row cat allowed_row) { new_action = guard_block }))
        ⊎ ((narrowed.new_action ≡ 0)
            × (narrowed.mask_op ≡ mask_put)
            × ((i : ℕ)
                → i < 32
                → bit_at narrowed.new_mask i ≡ (if asked reads i then 0 else lets allowed_row i))))
plan_temp_block-narrows_example =
    plan_temp_block-narrows cat allowed_row reads narrowed plans_narrow

plan_temp_allow-ruled_example :
    (stale_row.has_action ≡ false)
    × (cleared_row.new_action ≡ guard_allow)
    × (in_range no_events ≡ true)
    × ((i : ℕ)
        → lets_after stale_row cleared_row.mask_op cleared_row.new_mask i ≡ ruled no_events i)
plan_temp_allow-ruled_example =
    plan_temp_allow-ruled cat stale_row no_events cleared_row plans_allow
