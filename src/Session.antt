-- ===== src/Session.antt =====
-- internal/usecase/tempgrant.go: one temporary access grant over several guards. The guards, the
-- binaries' resolution and the journal are behind an interface.
pub mod Flags
pub mod Guards
use app_listener.Base.{
  ℕ, ◌+◌, ◌-◌, Bool, true, false, not, ◌&&◌, ◌||◌, Option, none, some, List, [], ◌∷◌, ◌++◌, ◌==◌,
  nat_eq, list_eq, if◌then◌else◌, length, contains, Bytes,
}
use app_listener.Base.Assoc.{lookup}
use app_listener.Base.State.{
  Error, shutting_down, session_active, not_guarded, nothing_to_change, empty_request, Result, ok,
  err, M, pure, throw, ◌>>=◌, ◌>>◌, when,
}
use app_listener.Guard.Keys.{InodeKey, inode_eq, ResInodeKey}
use app_listener.Guard.Temp.{TempRule, TempBinary}

-- `repository.GuardRepository`, `guard.TemporaryGrant`, `guard.ResolveTempBinary` and the journal. A
-- guard and a grant are references into the state.
pub record Port : Type 1 where
  pub State : Type 0
  pub resolve : Bytes → M State TempBinary
  pub close : TempBinary → State → State
  pub plan : ℕ → List TempBinary → TempRule → M State ℕ
  pub report : State → ℕ → List Bytes
  pub rows : State → ℕ → List ResInodeKey
  pub apply : ℕ → M State (Unit {0})
  pub revoke : ℕ → State → List Error × State
  pub journal : List ResInodeKey → M State (Unit {0})

-- `daemonUseCase`: what a grant depends on; a guard stands with its resource's path.
pub record Daemon (S : Type 0) : Type 0 where
  pub stopping : Bool
  pub edit_grant_active : Bool
  pub resources : List (Bytes × ℕ)
  pub port : S

-- `guardsForLocked`
unfoldable pub guards_for : List (Bytes × ℕ) → List Bytes → List Bytes → Result (List ℕ)
guards_for resources seen [] = ok []
guards_for resources seen (p ∷ paths) =
    let skip = guards_for resources seen paths in
    let rest = guards_for resources (p ∷ seen) paths in
    if contains seen p then skip else elim (lookup p resources) [
      | none ↦ err not_guarded
      | some g ↦ elim rest [ ok gs ↦ ok (g ∷ gs) | err e ↦ err e ]
    ]

module _ (P : Port) where
  abbrev pub Act : Type 0 → Type 0
  Act A = M (Daemon P.State) A

  -- What a call behind the interface does to the daemon.
  unfoldable pub on_port : {A : Type 0} → M P.State A → Act A
  on_port m d = let (r, s) = m d.port in (r, record d { port = s })

  -- `closeTempBinaries`
  unfoldable pub close_temp_binaries : List TempBinary → P.State → P.State
  close_temp_binaries [] s = s
  close_temp_binaries (b ∷ bins) s = close_temp_binaries bins (P.close b s)

  abbrev pub close_all : List TempBinary → M P.State (Unit {0})
  close_all bins s = (ok tt, close_temp_binaries bins s)

  abbrev pub has_binary : List TempBinary → InodeKey → Bool
  has_binary [] k = false
  has_binary (b ∷ bins) k = (b.key == k) || has_binary bins k

  -- The loop of `resolveTempBinaries`, after the binaries `bins`.
  abbrev pub resolve_from : List TempBinary → List Bytes → M P.State (List TempBinary)
  resolve_from bins [] s = (ok bins, s)
  resolve_from bins (p ∷ paths) s =
      let (r, s') = P.resolve p s in
      elim r [
        | err e ↦ (err e, close_temp_binaries bins s')
        | ok b ↦
            (let again = resolve_from bins paths (P.close b s') in
              let more = resolve_from (bins ++ b ∷ []) paths s' in
              if has_binary bins b.key then again else more)
      ]

  -- `resolveTempBinaries`
  unfoldable pub resolve_temp_binaries : List Bytes → M P.State (List TempBinary)
  resolve_temp_binaries paths = resolve_from [] paths

  -- The loop of `planTempGrants`: the grants, and how many rows change.
  abbrev pub plan_from : List ℕ → List TempBinary → TempRule → M P.State (List ℕ × ℕ)
  plan_from [] bins rule s = (ok ([], 0), s)
  plan_from (g ∷ guards) bins rule s =
      let (r, s') = P.plan g bins rule s in
      elim r [
        | err e ↦ (err e, s')
        | ok t ↦
            (let (r', s'') = plan_from guards bins rule s' in
              elim r' [
                | err e ↦ (err e, s'')
                | ok (ts, n) ↦ (ok (t ∷ ts, (length bins - length (P.report s' t)) + n), s'')
              ])
      ]

  -- `planTempGrants`
  unfoldable pub plan_temp_grants : List ℕ → List TempBinary → TempRule → M P.State (List ℕ)
  plan_temp_grants guards bins rule = do
    planned ← plan_from guards bins rule
    (if planned.1 == 0 then throw nothing_to_change else pure planned.0)

  -- `tempJournalRows`
  unfoldable pub temp_journal_rows : P.State → List ℕ → List ResInodeKey
  temp_journal_rows s [] = []
  temp_journal_rows s (t ∷ grants) = P.rows s t ++ temp_journal_rows s grants

  -- `revokeTempGrants`: last grant first, every one tried.
  unfoldable pub revoke_temp_grants : List ℕ → P.State → List Error × P.State
  revoke_temp_grants [] s = ([], s)
  revoke_temp_grants (t ∷ grants) s =
      let (es, s') = revoke_temp_grants grants s in
      let (es', s'') = P.revoke t s' in (es ++ es', s'')

  -- The journal is emptied only once no error is left.
  abbrev pub clear_journal : List Error → List ResInodeKey → M P.State (Unit {0})
  clear_journal (e ∷ es) rows s = (err e, s)
  clear_journal [] [] s = (ok tt, s)
  clear_journal [] (row ∷ rows) s = P.journal [] s

  abbrev pub roll_back : Error → List ℕ → List ResInodeKey → P.State → Result (Unit {0}) × P.State
  roll_back e applied rows s =
      let (es, s') = revoke_temp_grants applied s in (err e, (clear_journal es rows s').1)

  -- The loop of `applyTempGrants`, after the grants `applied`.
  abbrev pub apply_from : List ℕ → List ℕ → List ResInodeKey → M P.State (Unit {0})
  apply_from applied [] rows s = (ok tt, s)
  apply_from applied (t ∷ grants) rows s =
      let (r, s') = P.apply t s in
      elim r [
        | ok u ↦ apply_from (applied ++ t ∷ []) grants rows s'
        | err e ↦ roll_back e applied rows s'
      ]

  abbrev pub write_journal : List ResInodeKey → M P.State (Unit {0})
  write_journal [] = pure tt
  write_journal (row ∷ rows) = P.journal (row ∷ rows)

  -- `applyTempGrants`
  unfoldable pub apply_temp_grants : List ℕ → List ResInodeKey → M P.State (Unit {0})
  apply_temp_grants grants rows = do write_journal rows; apply_from [] grants rows

  -- A failure closes the binaries.
  abbrev pub or_close : {A : Type 0} → List TempBinary → M P.State A → M P.State A
  or_close bins m s =
      let (r, s') = m s in
      elim r [ ok a ↦ (ok a, s') | err e ↦ (err e, close_temp_binaries bins s') ]

  -- The part of `GrantTemporaryAccess` behind the interface: the grants and their journal's rows.
  unfoldable pub make_grants :
      List ℕ → List Bytes → TempRule → M P.State (List ℕ × List ResInodeKey × List TempBinary)
  make_grants guards binary_paths rule = do
    bins ← resolve_temp_binaries binary_paths
    grants ← or_close bins (plan_temp_grants guards bins rule)
    (λ s.
        (do
          or_close bins (apply_temp_grants grants (temp_journal_rows s grants))
          pure (grants, temp_journal_rows s grants, bins))
          s)

  unfoldable pub set_active : Bool → Act (Unit {0})
  set_active b d = (ok tt, record d { edit_grant_active = b })

  abbrev pub from_result : {A : Type 0} → Result A → Act A
  from_result r d = (r, d)

  -- The grants once the guards are known.
  abbrev pub grant_on :
      List Bytes → TempRule → List ℕ → Act (List ℕ × List ResInodeKey × List TempBinary)
  grant_on binary_paths rule guards = do
    made ← on_port (make_grants guards binary_paths rule)
    set_active true
    pure made

  -- `GrantTemporaryAccess`, but for the event taps and the watch on the binaries.
  unfoldable pub grant_temporary_access :
      List Bytes → List Bytes → TempRule → Act (List ℕ × List ResInodeKey × List TempBinary)
  grant_temporary_access resource_paths binary_paths rule d =
      if (resource_paths == []) || (binary_paths == [])
      then throw empty_request d
      else if d.stopping
      then throw shutting_down d
      else if d.edit_grant_active
      then throw session_active d
      else (from_result (guards_for d.resources [] resource_paths) >>= grant_on binary_paths rule) d

  -- The closure `revoke` of `GrantTemporaryAccess`, the first time that it runs.
  unfoldable pub revoke_access : List ℕ → List ResInodeKey → List TempBinary → Act (Unit {0})
  revoke_access grants rows bins d =
      let (es, s) = revoke_temp_grants grants d.port in
      let (r, s') = clear_journal es rows s in
      (r, record d { edit_grant_active = false; port = close_temp_binaries bins s' })
