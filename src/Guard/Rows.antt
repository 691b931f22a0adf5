-- ===== src/Guard/Rows.antt =====
-- internal/guard: one guard's rows of the shared whitelist maps, read and written by an executable's key.
pub mod Sets
pub mod Holds
use app_listener.Base.{
  ℕ, ◌≡◌, refl, Bool, true, false, not, ◌&&◌, ◌||◌, Option, none, some, List, [], ◌∷◌, ◌==◌, nat_eq,
  bool_eq, EqTest, ◌↔◌, if◌then◌else◌, Bytes, arith,
}
use app_listener.Base.State.{Result, ok, err, pure, throw, ◌>>=◌, ◌>>◌, when, each}
use app_listener.Guard.Keys.{
  InodeKey, inode_eq, ResInodeKey, Mode, whitelist, blacklist, read_only, tagged, real, with_tag,
  mc_tag_none, guard_block, guard_allow, guard_allow_root,
}
use app_listener.Guard.Kernel.{Kernel, Row, action_row, event_row}
use app_listener.Guard.Engine.{World, Act, put_row, delete_row, lookup_row}
use app_listener.Guard.Engine.Sync.{note_allow, note_deny}
use app_listener.Guard.Multicall.{ensure_multicall}

-- `binaryVerifyState`: what demotion needs of it.
pub record VerifyState : Type 0 where
  pub key : InodeKey
  pub demoted : Bool

-- `Guard`: the fields that its whitelist rows depend on.
pub record GuardState : Type 0 where
  pub path : Bytes
  pub mode : Mode
  pub res_id : ℕ
  pub stopped : Bool
  pub self_key : Option InodeKey
  pub deployed : List (Bytes × InodeKey)
  pub verify_states : List (Bytes × VerifyState)

-- `exeRow`; a value is 0 where the row is absent.
pub record ExeRow : Type 0 where
  pub has_action : Bool
  pub action : ℕ
  pub has_mask : Bool
  pub mask : ℕ

abbrev pub exe_row_beq : ExeRow → ExeRow → Bool
exe_row_beq a b =
    (a.has_action == b.has_action)
    && ((a.action == b.action) && ((a.has_mask == b.has_mask) && (a.mask == b.mask)))

pub exe_row_beq_iff : (a b : ExeRow) → (exe_row_beq a b ≡ true) ↔ (a ≡ b)
exe_row_beq_iff a b =
    ground (arith, bool_eq.beq_iff a.has_action b.has_action, bool_eq.beq_iff a.has_mask b.has_mask)

-- `resKey`
abbrev pub res_key : GuardState → InodeKey → ResInodeKey
res_key g k = record { res = g.res_id; exe = k }

abbrev pub action_of : GuardState → InodeKey → Row
action_of g k = action_row (res_key g k)

abbrev pub events_of : GuardState → InodeKey → Row
events_of g k = event_row (res_key g k)

abbrev pub is_blacklist : Mode → Bool
is_blacklist blacklist = true
is_blacklist _ = false

abbrev pub is_whitelist : Mode → Bool
is_whitelist whitelist = true
is_whitelist _ = false

-- The row that two lookups make.
abbrev pub exe_row : Option ℕ → Option ℕ → ExeRow
exe_row none none = record { has_action = false; action = 0; has_mask = false; mask = 0 }
exe_row none (some m) = record { has_action = false; action = 0; has_mask = true; mask = m }
exe_row (some a) none = record { has_action = true; action = a; has_mask = false; mask = 0 }
exe_row (some a) (some m) = record { has_action = true; action = a; has_mask = true; mask = m }

-- `deployedKeyLocked`
abbrev pub any_deployed : InodeKey → List (Bytes × InodeKey) → Bool
any_deployed k [] = false
any_deployed k ((path, key) ∷ rest) = (key == k) || any_deployed k rest

abbrev pub deployed_key : GuardState → InodeKey → Bool
deployed_key g k = any_deployed k g.deployed

-- `demotedKeyLocked`
abbrev pub any_demoted : InodeKey → List (Bytes × VerifyState) → Bool
any_demoted k [] = false
any_demoted k ((path, st) ∷ rest) = ((st.key == k) && st.demoted) || any_demoted k rest

abbrev pub demoted_key : GuardState → InodeKey → Bool
demoted_key g k = any_demoted k g.verify_states

module _ (K : Kernel) where
  -- `readExeRow`
  unfoldable pub read_exe_row : GuardState → InodeKey → Act K ExeRow
  read_exe_row g k = do
    a ← lookup_row K (action_of g k)
    m ← lookup_row K (events_of g k)
    pure (exe_row a m)

  -- The block of an exec whose applet was not attested.
  abbrev pub block_unattested : GuardState → InodeKey → ℕ → Act K (Unit {0})
  block_unattested g k action =
      when ((action == guard_block) && is_blacklist g.mode)
        (put_row K (action_of g (with_tag k mc_tag_none)) action)

  -- The last step of `putExeAction`: the shared views follow an allow, and any other action.
  abbrev pub note_action : GuardState → InodeKey → ℕ → Act K (Unit {0})
  note_action g k action =
      if (action == guard_allow) || (action == guard_allow_root)
      then note_allow K g.res_id k action
      else note_deny K g.res_id k

  -- `putExeAction`
  unfoldable pub put_exe_action : GuardState → InodeKey → ℕ → Act K (Unit {0})
  put_exe_action g k action = do
    when (tagged k) (do ensure_multicall K (real k); block_unattested g k action)
    put_row K (action_of g k) action
    note_action g k action

  -- `restoreMask`: an absent value stands for `had` being false.
  unfoldable pub restore_mask : GuardState → InodeKey → Option ℕ → Act K (Unit {0})
  restore_mask g k none = delete_row K (events_of g k)
  restore_mask g k (some m) = put_row K (events_of g k) m

  -- The rows of `deleteExeRows`: the key's, and the unattested one that a blacklist wrote.
  abbrev pub rows_of_key : GuardState → InodeKey → List InodeKey
  rows_of_key g k =
      if tagged k && is_blacklist g.mode then k ∷ with_tag k mc_tag_none ∷ [] else k ∷ []

  -- `deleteExeRows`
  unfoldable pub delete_exe_rows : GuardState → InodeKey → Act K (Unit {0})
  delete_exe_rows g k = do
    each (λ r. delete_row K (action_of g r)) (rows_of_key g k)
    delete_row K (events_of g k)
    note_deny K g.res_id k
