-- ===== src/Guard/Temp/Grant.antt =====
-- internal/guard/tempgrant.go: writing a planned grant's rows and taking them back.
use app_listener.Base.{
  ℕ, Bool, true, false, not, ◌&&◌, ◌||◌, Option, none, some, List, [], ◌∷◌, ◌++◌, ◌==◌, nat_eq,
  if◌then◌else◌, bit_and, bit_or,
}
use app_listener.Base.Bits.{and_not}
use app_listener.Base.State.{
  Error, row_changed, guard_stopped, no_trust_guard, Result, ok, err, M, pure, throw, ◌>>=◌, ◌>>◌,
  when,
}
use app_listener.Guard.Keys.{ResInodeKey, guard_block, guard_allow, real}
use app_listener.Guard.Kernel.{Kernel, trust_row}
use app_listener.Guard.Engine.{World, Act, put_row, delete_row, lookup_row, on_engine}
use app_listener.Guard.Engine.Sync.{note_deny, admits_exe}
use app_listener.Guard.Rows.{
  GuardState, ExeRow, exe_row_beq, res_key, action_of, events_of, deployed_key, demoted_key,
  read_exe_row, put_exe_action, restore_mask,
}
use app_listener.Guard.Temp.{TempRow, TempGrant, mask_keep, mask_put, mask_delete}

-- `trustedBinary`
abbrev pub trusted_binary : ℕ
trusted_binary = 1

-- A row of the grant together with the world it is written to.
pub record RowWorld (S : Type 0) : Type 0 where
  pub world : World S
  pub row : TempRow

module _ (K : Kernel) where
  abbrev pub RowAct : Type 0 → Type 0
  RowAct A = M (RowWorld K.State) A

  unfoldable pub on_world : {A : Type 0} → Act K A → RowAct A
  on_world m s = let (r, w) = m s.world in (r, record s { world = w })

  unfoldable pub set_row : (TempRow → TempRow) → RowAct (Unit {0})
  set_row f s = (ok tt, record s { row = f s.row })

  -- The end of `trustTempRuntime`: what the row remembers of the trust row.
  abbrev pub remember : Option ℕ → Bool → ℕ → TempRow → RowAct (Unit {0})
  remember live had flags row = set_row λ r. record r {
    trust = live;
    trust_had = had;
    trust_prior = flags;
    trust_added = and_not row.bin.runtime flags;
  }

  -- The runtime's bits, ORed into the flags that were found.
  abbrev pub mark_runtime : Option ℕ → Option ℕ → TempRow → RowAct (Unit {0})
  mark_runtime live none row = do
    on_world (put_row K (trust_row (real row.bin.key)) row.bin.runtime)
    remember live false 0 row
  mark_runtime live (some flags) row =
      if not (bit_and flags trusted_binary == 0)
        || (bit_and flags row.bin.runtime == row.bin.runtime)
      then pure tt
      else (do
        on_world (put_row K (trust_row (real row.bin.key)) (bit_or flags row.bin.runtime))
        remember live true flags row)

  -- `trustTempRuntime`
  unfoldable pub trust_temp_runtime : Option ℕ → TempRow → RowAct (Unit {0})
  trust_temp_runtime none row = throw no_trust_guard
  trust_temp_runtime (some t) row = if row.bin.runtime == 0 then pure tt else (do
    found ← on_world (lookup_row K (trust_row (real row.bin.key)))
    mark_runtime (some t) found row)

  abbrev pub write_mask : GuardState → TempRow → Act K (Unit {0})
  write_mask g row = elim row.mask_op [
    | mask_put ↦ put_row K (events_of g row.bin.key) row.new_mask
    | mask_delete ↦ restore_mask K g row.bin.key none
    | mask_keep ↦ pure tt
  ]

  -- `writeTempRow`: an allow's mask first, a block's action first.
  unfoldable pub write_temp_row : GuardState → Option ℕ → TempRow → RowAct (Unit {0})
  write_temp_row g live row = do
    when (row.new_action == guard_block) (on_world (put_exe_action K g row.bin.key guard_block))
    on_world (write_mask g row)
    when (row.new_action == guard_allow)
        (do trust_temp_runtime live row; on_world (put_exe_action K g row.bin.key guard_allow))

  -- `applyTempRow`
  unfoldable pub apply_temp_row : GuardState → Option ℕ → TempRow → RowAct (Unit {0})
  apply_temp_row g live row = do
    cur ← on_world (read_exe_row K g row.bin.key)
    (if exe_row_beq cur row.prior
        then (do set_row λ r. record r { applied = true }; write_temp_row g live row)
        else throw row_changed)

  -- The loop of `Apply`: the rows as they stand when it ends, with its error.
  unfoldable pub apply_rows :
      GuardState
      → Option ℕ
      → List TempRow
      → World K.State
      → Result (Unit {0}) × List TempRow × World K.State
  apply_rows g live [] w = (ok tt, [], w)
  apply_rows g live (row ∷ rest) w =
      let (r, s) = apply_temp_row g live row (record { world = w; row = row }) in
      elim r [
        | ok u ↦ (let (r', rest', w') = apply_rows g live rest s.world in (r', s.row ∷ rest', w'))
        | err e ↦ (err e, s.row ∷ rest, s.world)
      ]

  -- `restoreTempAction`
  unfoldable pub restore_temp_action : GuardState → TempRow → ExeRow → Bool → Act K (Unit {0})
  restore_temp_action g row cur permanent =
      if (row.new_action == guard_allow) && (cur.has_action && (cur.action == guard_allow))
      then (do delete_row K (action_of g row.bin.key); note_deny K g.res_id row.bin.key)
      else if (row.new_action == guard_block)
          && ((cur.has_action && (cur.action == guard_block))
              && (permanent && not (demoted_key g row.bin.key)))
      then put_exe_action K g row.bin.key guard_allow
      else pure tt

  abbrev pub prior_mask : TempRow → Option ℕ
  prior_mask row = if row.prior.has_mask then some row.prior.mask else none

  -- The mask row still holds what the grant wrote.
  abbrev pub owns_mask : TempRow → ExeRow → Bool
  owns_mask row cur = elim row.mask_op [
    | mask_put ↦ cur.has_mask && (cur.mask == row.new_mask)
    | mask_delete ↦ not cur.has_mask
    | mask_keep ↦ false
  ]

  -- `restoreTempRowLocked`
  unfoldable pub restore_temp_row : GuardState → TempRow → Act K (Unit {0})
  restore_temp_row g row = do
    cur ← read_exe_row K g row.bin.key
    (if (row.new_action == guard_allow) && deployed_key g row.bin.key then pure tt else (do
      restore_temp_action g row cur (deployed_key g row.bin.key)
      (if owns_mask row cur then restore_mask K g row.bin.key (prior_mask row) else pure tt)))

  abbrev pub same_trust : Option ℕ → Option ℕ → Bool
  same_trust none none = true
  same_trust (some a) (some b) = a == b
  same_trust _ _ = false

  -- The trust row as it was before the grant, if it still holds what the grant wrote.
  abbrev pub put_trust_back : TempRow → Option ℕ → Act K (Unit {0})
  put_trust_back row none = pure tt
  put_trust_back row (some cur) =
      if not (cur == bit_or row.trust_prior row.trust_added)
      then pure tt
      else if row.trust_had
      then put_row K (trust_row (real row.bin.key)) row.trust_prior
      else delete_row K (trust_row (real row.bin.key))

  -- `untrustTempRuntime`: the action; the row forgets its trust bits besides.
  unfoldable pub untrust_temp_runtime : Option ℕ → TempRow → Act K (Unit {0})
  untrust_temp_runtime live row = on_engine K λ e.
      if (row.trust_added == 0)
        || (not (same_trust row.trust live) || admits_exe e (real row.bin.key))
      then pure tt
      else (do cur ← lookup_row K (trust_row (real row.bin.key)); put_trust_back row cur)

  abbrev pub errors_of : Result (Unit {0}) → List Error
  errors_of (ok u) = []
  errors_of (err e) = e ∷ []

  -- Both parts of taking a row back are tried, and their errors are collected; a stopped guard's rows
  -- are gone already.
  abbrev pub undo_row :
      Bool → Bool → GuardState → Option ℕ → TempRow → World K.State → List Error × World K.State
  undo_row false stopped g live row w = ([], w)
  undo_row true true g live row w =
      let (r, w') = untrust_temp_runtime live row w in (errors_of r, w')
  undo_row true false g live row w =
      let (r, w') = restore_temp_row g row w in
      let (r', w'') = untrust_temp_runtime live row w' in (errors_of r ++ errors_of r', w'')

  -- The loop body of `revokeLocked`
  unfoldable pub revoke_row :
      GuardState → Option ℕ → TempRow → World K.State → List Error × World K.State
  revoke_row g live row w = undo_row row.applied g.stopped g live row w

  -- The loop of `revokeLocked`, last row first.
  unfoldable pub revoke_rows :
      GuardState → Option ℕ → List TempRow → World K.State → List Error × World K.State
  revoke_rows g live [] w = ([], w)
  revoke_rows g live (row ∷ rest) w =
      let (es, w') = revoke_rows g live rest w in
      let (es', w'') = revoke_row g live row w' in (es ++ es', w'')

  abbrev pub forget_trust : TempRow → TempRow
  forget_trust row = if row.applied then record row { trust = none; trust_added = 0 } else row

  abbrev pub forget_all : List TempRow → List TempRow
  forget_all [] = []
  forget_all (row ∷ rest) = forget_trust row ∷ forget_all rest

  abbrev pub revoke_unless :
      Bool
      → GuardState
      → Option ℕ
      → TempGrant
      → World K.State
      → List Error × TempGrant × World K.State
  revoke_unless true g live t w = ([], t, w)
  revoke_unless false g live t w =
      let (es, w') = revoke_rows g live t.rows w in
      (es, record t { rows = forget_all t.rows; revoked = true }, w')

  -- `revokeLocked`, and so `Revoke`: the errors, the grant and the world.
  unfoldable pub revoke :
      GuardState → Option ℕ → TempGrant → World K.State → List Error × TempGrant × World K.State
  revoke g live t w = revoke_unless t.revoked g live t w

  -- The end of `Apply`: a failure undoes what was written, and only logs the errors of that.
  abbrev pub finish_apply :
      GuardState
      → Option ℕ
      → TempGrant
      → Result (Unit {0})
      → List TempRow
      → World K.State
      → Result (Unit {0}) × TempGrant × World K.State
  finish_apply g live t (ok u) rows w = (ok tt, record t { rows = rows }, w)
  finish_apply g live t (err e) rows w =
      let (es, t', w') = revoke g live (record t { rows = rows }) w in (err e, t', w')

  abbrev pub apply_unless :
      Bool
      → GuardState
      → Option ℕ
      → TempGrant
      → World K.State
      → Result (Unit {0}) × TempGrant × World K.State
  apply_unless true g live t w = (err guard_stopped, t, w)
  apply_unless false g live t w =
      let (r, rows', w') = apply_rows g live t.rows w in finish_apply g live t r rows' w'

  -- `Apply`
  unfoldable pub apply :
      GuardState
      → Option ℕ
      → TempGrant
      → World K.State
      → Result (Unit {0}) × TempGrant × World K.State
  apply g live t w = apply_unless g.stopped g live t w

-- `JournalRows`: the allow rows that `Apply` creates.
unfoldable pub journal_rows : GuardState → List TempRow → List ResInodeKey
journal_rows g [] = []
journal_rows g (row ∷ rest) =
    let others = journal_rows g rest in
    if row.new_action == guard_allow then res_key g row.bin.key ∷ others else others
