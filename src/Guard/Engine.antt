-- ===== src/Guard/Engine.antt =====
-- internal/guard/engine.go: the state of the shared engine, its slot table, and the operations on
-- the kernel's rows with their errors.
pub mod Slots
pub mod Sync
pub mod Quiet
pub mod Frame
use app_listener.Base.{
  ◌+◌, ◌*◌, ℕ, zero, suc, ◌+◌, Bool, true, false, not, ◌||◌, Option, none, some, List, [], ◌∷◌,
  ◌==◌, nat_eq, list_eq, if◌then◌else◌, Bytes,
}
use app_listener.Base.Assoc.{lookup, insert, has_key}
use app_listener.Base.State.{kernel_fault, ok, err, M, pure, ◌>>◌, modify}
use app_listener.Guard.Keys.{InodeKey, inode_eq, AllowSet, Mode, read_only}
use app_listener.Guard.Taint.{Allows, Info}
use app_listener.Guard.Kernel.{Kernel, Row, config_row, found, absent, fault, failed}

-- What the engine reads of a `Guard` in a slot.
pub record SlotGuard : Type 0 where
  pub path : Bytes
  pub mode : Mode
  pub canonical_root : Bool

-- `engine`: the fields that decisions depend on. A member row is a pair of a set and a member.
pub record Engine : Type 0 where
  pub slots : List (ℕ × SlotGuard)
  pub started : Bool
  pub refs : ℕ
  pub allows : Allows
  -- `e.allows != nil`
  pub allows_made : Bool
  pub sets : List (Bytes × ℕ)
  pub set_at : List (ℕ × Bytes)
  pub set_rows : List (ℕ × AllowSet)
  pub union_rows : List (InodeKey × ℕ)
  pub member_rows : List (ℕ × ℕ)
  pub successor : List (ℕ × ℕ)
  pub inspectors : List (InodeKey × Bytes)
  pub prev_owner : List (InodeKey × ℕ)
  -- `mcReg.tags`, `mcReg.builds` and `mcNames`
  pub mc_tags : List (Bytes × ℕ)
  pub mc_builds : List (InodeKey × List Bytes)
  pub mc_names : List (InodeKey × List Bytes)

-- The process and the kernel's maps.
pub record World (S : Type 0) : Type 0 where
  pub kernel : S
  pub engine : Engine

-- `GuardResConfig{Active, Mode, TaintSet}` packed into one number; the empty struct is 0.
abbrev pub config_of : ℕ → ℕ → ℕ → ℕ
config_of active mode taint_set = active + 2 * taint_set + 4 * mode

-- The row of a taint set's slot: active, in whitelist mode.
abbrev pub taint_set_config : ℕ
taint_set_config = config_of 1 1 1

abbrev pub is_read_only : Mode → Bool
is_read_only read_only = true
is_read_only _ = false

-- `liveResInfoLocked`
unfoldable pub live_res_info : List (ℕ × SlotGuard) → Info
live_res_info [] = []
live_res_info ((id, g) ∷ slots) =
    (id, record { path = g.path; readonly = is_read_only g.mode }) ∷ live_res_info slots

-- `e.setAt[slot] != ""`
abbrev pub names_set : ℕ → Engine → Bool
names_set id e = elim (lookup id e.set_at) [ none ↦ false | some key ↦ not (key == []) ]

abbrev pub slot_busy : Engine → ℕ → Bool
slot_busy e id = has_key id e.slots || names_set id e

module _ (K : Kernel) where
  abbrev pub Act : Type 0 → Type 0
  Act A = M (World K.State) A

  -- `Map.Put`
  unfoldable pub put_row : Row → ℕ → Act (Unit {0})
  put_row r v w =
      let (done, k) = K.put r v w.kernel in
      (if done then ok tt else err kernel_fault, record w { kernel = k })

  -- `Map.Delete`, with `ErrKeyNotExist` taken for success.
  unfoldable pub delete_row : Row → Act (Unit {0})
  delete_row r w =
      let (d, k) = K.delete r w.kernel in
      (elim d [ failed ↦ err kernel_fault | _ ↦ ok tt ], record w { kernel = k })

  -- `Map.Lookup`, with `ErrKeyNotExist` taken for absence.
  unfoldable pub lookup_row : Row → Act (Option ℕ)
  lookup_row r w =
      let (f, k) = K.lookup r w.kernel in
      (
        elim f [ found v ↦ ok (some v) | absent ↦ ok none | fault ↦ err kernel_fault ],
        record w { kernel = k },
      )

  unfoldable pub set_engine : (Engine → Engine) → Act (Unit {0})
  unfolding modify
  set_engine f = modify λ w. record w { engine = f w.engine }

  unfoldable pub on_engine : {B : Type 0} → (Engine → Act B) → Act B
  on_engine f w = f w.engine w

  -- The loop of `allocSetSlotLocked`, at `id` and below; slot 0 is the reserved one.
  unfoldable pub alloc_set_slot_from : ℕ → Bytes → Act ℕ
  alloc_set_slot_from zero key = pure 0
  alloc_set_slot_from (suc id) key =
      let below = alloc_set_slot_from id key in
      on_engine λ e. if slot_busy e (suc id) then below else (do
        put_row (config_row (suc id)) taint_set_config
        set_engine λ e. record e {
          set_at = insert (suc id) key e.set_at;
          sets = insert key (suc id) e.sets;
        }
        pure (suc id))

  -- `allocSetSlotLocked`
  unfoldable pub alloc_set_slot : Bytes → Act ℕ
  unfolding alloc_set_slot_from
  alloc_set_slot key = alloc_set_slot_from 511 key

-- The loop of `allocSlotLocked` from `id`, with the rounds that are left.
unfoldable pub alloc_slot_from : ℕ → ℕ → Engine → SlotGuard → Option (ℕ × Engine)
alloc_slot_from zero id e g = none
alloc_slot_from (suc rounds) id e g =
    let rest = alloc_slot_from rounds (suc id) e g in
    if slot_busy e id then rest else some (id, record e { slots = insert id g e.slots })

-- `allocSlotLocked`
unfoldable pub alloc_slot : Engine → SlotGuard → Option (ℕ × Engine)
unfolding alloc_slot_from
alloc_slot e g = alloc_slot_from 511 1 e g

unfoldable pub free_slots_from : ℕ → ℕ → Engine → ℕ
free_slots_from zero id e = 0
free_slots_from (suc rounds) id e =
    let rest = free_slots_from rounds (suc id) e in if slot_busy e id then rest else rest + 1

-- `FreeResourceSlots`
unfoldable pub free_resource_slots : Engine → ℕ
unfolding free_slots_from
free_resource_slots e = free_slots_from 511 1 e
