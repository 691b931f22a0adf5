-- ===== src/Session/Flags.antt =====
-- internal/usecase/tempgrant.go, `GrantTemporaryAccess`: at most one session is active.
use app_listener.Base.{
  ℕ, ◌≡◌, refl, Bool, true, false, List, [], ◌||◌, ◌==◌, list_eq, nat_eq, Bytes, if◌then◌else◌,
}
use app_listener.Base.State.{
  Result, ok, err, throw, pure, ◌>>=◌, ◌>>◌, empty_request, shutting_down, session_active,
}
use app_listener.Guard.Temp.{TempRule, TempBinary}
use app_listener.Guard.Keys.{ResInodeKey}
use app_listener.Session.{
  Port, Daemon, on_port, make_grants, set_active, grant_on, from_result, guards_for,
  grant_temporary_access,
}

module _ (P : Port) where
  Made : Type 0
  Made = List ℕ × List ResInodeKey × List TempBinary

  -- What the answer to a request says of the session before and after it.
  abbrev pub Outcome : {A : Type 0} → Daemon P.State → Result A × Daemon P.State → Type 0
  Outcome d (ok x, d') =
      (d.stopping ≡ false) × (d.edit_grant_active ≡ false) × (d'.edit_grant_active ≡ true)
  Outcome d (err e, d') = d'.edit_grant_active ≡ d.edit_grant_active

  Outcome-grant_on :
      (binary_paths : List Bytes) (rule : TempRule) (guards : List ℕ) (d : Daemon P.State)
      → d.stopping ≡ false
      → d.edit_grant_active ≡ false
      → Outcome d (grant_on P binary_paths rule guards d)
  unfolding on_port set_active pure ◌>>◌ ◌>>=◌
  Outcome-grant_on binary_paths rule guards d running idle =
      go (make_grants P guards binary_paths rule d.port).0 refl
    where
      answer : Result (List ℕ × List ResInodeKey × List TempBinary) × Daemon P.State
      answer = on_port P (make_grants P guards binary_paths rule) d

      go :
          (r : Result (List ℕ × List ResInodeKey × List TempBinary))
          → (make_grants P guards binary_paths rule d.port).0 ≡ r
          → Outcome {A = List ℕ × List ResInodeKey × List TempBinary} d (elim r [
            | ok made ↦ (ok made, record (answer.1) { edit_grant_active = true })
            | err e ↦ (err e, answer.1)
          ])
      go (ok made) e = (running, idle, refl)
      go (err x) e = refl

  -- A request for temporary access that succeeds finds the daemon running and no session active, and
  -- leaves a session active; one that fails leaves the session as it was.
  pub grant_temporary_access-exclusive :
      (resource_paths binary_paths : List Bytes) (rule : TempRule) (d : Daemon P.State)
      → Outcome d (grant_temporary_access P resource_paths binary_paths rule d)
  unfolding grant_temporary_access throw ◌>>=◌
  grant_temporary_access-exclusive resource_paths binary_paths rule d =
      go ((resource_paths == []) || (binary_paths == [])) d.stopping refl d.edit_grant_active refl
        (guards_for d.resources [] resource_paths)
    where
      go :
          (empty stopping : Bool)
          → d.stopping ≡ stopping
          → (active : Bool) → d.edit_grant_active ≡ active
          → (found : Result (List ℕ))
          → Outcome d (
              if empty
              then throw empty_request d
              else if stopping
              then throw shutting_down d
              else if active
              then throw session_active d
              else (from_result P found >>= grant_on P binary_paths rule) d)
      go true stopping s active a found = refl
      go false true s active a found = refl
      go false false s true a found = refl
      go false false s false a (ok guards) = Outcome-grant_on binary_paths rule guards d s a
      go false false s false a (err e) = refl
