-- ===== src/Guard/Temp.antt =====
-- internal/guard/tempgrant.go: temporary grants on one guard. A grant is planned from the rows as they
-- are, applied, and revoked where the rows still hold what it wrote.
pub mod Grant
pub mod Plan
pub mod Restore
pub mod RowLeads
pub mod RoundTrip
use app_listener.Base.{
  ℕ, ◌^◌, Bool, false, not, ◌&&◌, ◌||◌, Option, none, some, List, [], ◌∷◌, ◌==◌, nat_eq,
  if◌then◌else◌, bit_or, ltb, Bytes,
}
use app_listener.Base.Bits.{and_not, all_ones}
use app_listener.Base.State.{
  Error, guard_stopped, not_whitelist, own_binary, is_inspector as inspector, is_blocked, bad_event,
  Result, ok, err, pure, throw, ◌>>=◌,
}
use app_listener.Guard.Keys.{InodeKey, inode_eq, guard_block, guard_allow}
use app_listener.Guard.Events.{EventType, event, before, event_mask, mask, out_of_range, Mask}
use app_listener.Guard.Kernel.{Kernel}
use app_listener.Guard.Engine.{Act, on_engine}
use app_listener.Guard.Engine.Sync.{is_inspector}
use app_listener.Guard.Rows.{GuardState, ExeRow, is_whitelist, read_exe_row}

-- `TempBinary`: what the rows need of it.
pub record TempBinary : Type 0 where
  pub path : Bytes
  pub key : InodeKey
  pub runtime : ℕ

-- `TempRule`
pub record TempRule : Type 0 where
  pub allow : Bool
  pub events : List EventType

-- `tempMaskOp`
pub data MaskOp : Type 0 where
  mask_keep mask_put mask_delete : MaskOp

-- `tempRow`. A trust guard is known by a number.
pub record TempRow : Type 0 where
  pub bin : TempBinary
  pub prior : ExeRow
  pub new_action : ℕ
  pub mask_op : MaskOp
  pub new_mask : ℕ
  pub applied : Bool
  pub trust : Option ℕ
  pub trust_had : Bool
  pub trust_prior : ℕ
  pub trust_added : ℕ

-- The outcome of planning one row: the row to write, nothing to change, or an error.
pub data Planned : Type 0 where
  change : TempRow → Planned
  unchanged : Planned
  refused : Error → Planned

abbrev pub new_row : TempBinary → ExeRow → TempRow
new_row b prior = record {
  bin = b;
  prior = prior;
  new_action = 0;
  mask_op = mask_keep;
  new_mask = 0;
  applied = false;
  trust = none;
  trust_had = false;
  trust_prior = 0;
  trust_added = 0;
}

-- The mask part of `planTempAllow`.
abbrev pub allow_mask : TempRow → List EventType → Planned
allow_mask row [] =
    if row.prior.has_mask then change (record row { mask_op = mask_delete }) else change row
allow_mask row (t ∷ types) = elim (event_mask (t ∷ types)) [
  | mask m ↦ change (record row { new_mask = m; mask_op = mask_put })
  | out_of_range ↦ refused bad_event
]

-- `planTempAllow`
unfoldable pub plan_temp_allow : TempRow → List EventType → Planned
plan_temp_allow row types =
    if row.prior.has_action && (row.prior.action == guard_allow)
    then unchanged
    else if row.prior.has_action
    then refused is_blocked
    else allow_mask (record row { new_action = guard_allow }) types

-- The loop of `planTempBlock`: exact bits.
abbrev pub deny_bits : ℕ → List EventType → Mask
deny_bits deny [] = mask deny
deny_bits deny (before n ∷ types) = out_of_range
deny_bits deny (event t ∷ types) =
    let rest = deny_bits (bit_or deny (2 ^ t)) types in if ltb t 32 then rest else out_of_range

abbrev pub block_mask : TempRow → Mask → Planned
block_mask row out_of_range = refused bad_event
block_mask row (mask deny) = change (record row {
  new_mask = and_not (if row.prior.has_mask then row.prior.mask else all_ones) deny;
  mask_op = mask_put;
})

abbrev pub block_events : TempRow → List EventType → Planned
block_events row [] = change (record row { new_action = guard_block })
block_events row (t ∷ types) = block_mask row (deny_bits 0 (t ∷ types))

-- `planTempBlock`
unfoldable pub plan_temp_block : TempRow → List EventType → Planned
plan_temp_block row types =
    if not row.prior.has_action || not (row.prior.action == guard_allow)
    then unchanged
    else block_events row types

abbrev pub plan_row : TempRule → TempRow → Planned
plan_row rule row =
    if rule.allow then plan_temp_allow row rule.events else plan_temp_block row rule.events

-- `tempGrant`: the report names the binaries that are left alone.
pub record TempGrant : Type 0 where
  pub rows : List TempRow
  pub report : List TempBinary
  pub revoked : Bool

abbrev pub is_self : GuardState → InodeKey → Bool
is_self g k = elim g.self_key [ none ↦ false | some self ↦ k == self ]

module _ (K : Kernel) where
  -- The checks of one binary in `PlanTemporaryGrant`, and its row.
  abbrev pub plan_binary : GuardState → TempRule → TempBinary → Act K Planned
  plan_binary g rule b =
      if is_self g b.key
      then throw own_binary
      else on_engine K λ e.
        if is_inspector e b.key
        then throw inspector
        else (do prior ← read_exe_row K g b.key; pure (plan_row rule (new_row b prior)))

  -- The loop of `PlanTemporaryGrant`. A binary's row stands before those of later binaries.
  unfoldable pub plan_binaries : GuardState → TempRule → List TempBinary → Act K TempGrant
  plan_binaries g rule [] = pure (record { rows = []; report = []; revoked = false })
  plan_binaries g rule (b ∷ bins) = do
    planned ← plan_binary g rule b
    elim planned [
      | refused e ↦ throw e
      | change row ↦ (do t ← plan_binaries g rule bins; pure (record t { rows = row ∷ t.rows }))
      | unchanged ↦ (do t ← plan_binaries g rule bins; pure (record t { report = b ∷ t.report }))
    ]

  -- `PlanTemporaryGrant`
  unfoldable pub plan_temporary_grant : GuardState → List TempBinary → TempRule → Act K TempGrant
  plan_temporary_grant g bins rule =
      if not (is_whitelist g.mode)
      then throw not_whitelist
      else if g.stopped
      then throw guard_stopped
      else plan_binaries g rule bins
