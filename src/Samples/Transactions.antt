-- ===== src/Samples/Transactions.antt =====
-- Concrete runs of the transaction that applies a recorded plan.
use app_listener.Base.{
  ◌≡◌, refl, true, false, none, some, List, [], ◌∷◌, nat_eq, list_eq, Bytes, codes,
}
use app_listener.Recorder.Plan.{PlannedBinary}
use app_listener.Recorder.Apply.{
  encrypted, restored, recorded, forgotten, put_done, put_refused, PutAnswer, put_ok, put_stale,
  put_failed, Services, apply_plan,
}
use app_listener.Recorder.Apply.Undone.{Settled, apply_plan-Settled}

abbrev own_tool : PlannedBinary
own_tool = record { line = codes "/home/u/tool"; sha256 = codes "aa"; system_placed = false }

abbrev placed_tool : PlannedBinary
placed_tool = record { line = codes "/usr/bin/cat"; sha256 = codes "bb"; system_placed = true }

-- Everything succeeds but the write of the configuration, which answers as given.
abbrev services : PutAnswer → Services
services answer = record {
  fetch = λ h. some (codes "old");
  put = λ h base text. answer;
  is_ready = λ p. true;
  setup_ok = true;
  encrypt_ok = λ h p. true;
  record_if_absent = λ h b. some true;
  render = λ base. some (codes "new");
}

abbrev two_paths : List Bytes
two_paths = codes "/srv/a" ∷ codes "/srv/b" ∷ []

abbrev both_tools : List PlannedBinary
both_tools = own_tool ∷ placed_tool ∷ []

-- A configuration that keeps changing is given up after three attempts.
stale_run : apply_plan (services put_stale) two_paths both_tools ≡ (
  none,
  encrypted (codes "/srv/a")
      ∷ encrypted (codes "/srv/b")
      ∷ recorded own_tool
      ∷ put_refused
      ∷ put_refused
      ∷ put_refused
      ∷ restored (codes "/srv/b")
      ∷ restored (codes "/srv/a")
      ∷ forgotten own_tool
      ∷ [],
)
unfolding apply_plan
stale_run = refl

good_run : apply_plan (services put_ok) two_paths both_tools ≡ (
  some (codes "new", codes "/srv/a.app_listener.backup" ∷ codes "/srv/b.app_listener.backup" ∷ []),
  encrypted (codes "/srv/a") ∷ encrypted (codes "/srv/b") ∷ recorded own_tool ∷ put_done ∷ [],
)
unfolding apply_plan
good_run = refl

apply_plan-Settled_example :
    Settled (services put_failed) (apply_plan (services put_failed) two_paths both_tools)
apply_plan-Settled_example = apply_plan-Settled (services put_failed) two_paths both_tools
