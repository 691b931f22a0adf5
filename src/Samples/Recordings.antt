-- ===== src/Samples/Recordings.antt =====
-- Concrete runs of a recording.
use app_listener.Base.{
  ℕ, ◌≡◌, refl, true, false, ◌&&◌, ◌||◌, Option, none, some, List, [], ◌∷◌, ◌==◌, nat_eq, list_eq,
  all, contains, Bytes, codes, arith,
}
use app_listener.DaemonConfig.{FileSystem, directory, Config, empty_config, bare_resource}
use app_listener.DaemonConfig.Text.{clean}
use app_listener.Base.Strings.{split}
use app_listener.Wire.Events.{FileEvent}
use app_listener.Recorder.{Target, Binary}
use app_listener.Recorder.Observe.{ExeKey, Timed, new_recorder, observe_all, event_target, exe_key}
use app_listener.Recorder.Observe.Bounds.{is_bounded, recording-bounded}
use app_listener.Recorder.Observe.Recorded.{is_honest, recording-honest}
use app_listener.Recorder.Observe.Complete.{shows, recording_complete}
use app_listener.Recorder.Targets.{validate_targets, validate_target, refused_path, overlaps}
use app_listener.Recorder.Targets.Apart.{is_disjoint, is_allowed, validate_targets-apart}
use app_listener.Recorder.Classify.{all_types, mask_types, innermost_resource}
use app_listener.Recorder.Classify.Masks.{contains-mask_types}
use app_listener.Recorder.Classify.Innermost.{holds_if, is_deepest, innermost_resource-deepest}
use app_listener.Recorder.Plan.{Selection, Plan, plan, plan_binaries, dedupe, target_at, is_new}
use app_listener.Recorder.Plan.Approved.{is_approved, is_needed_lib, plan-approved}
use app_listener.Recorder.Plan.Sections.{is_touched, plan-touched}

abbrev db_target : Target
db_target = record { path = codes "/srv/db"; is_dir = true; existing = none }

abbrev own_exe : ExeKey
own_exe = (8, 99)

abbrev read_by_cat : FileEvent
read_by_cat = record {
  pid = 10;
  uid = 1000;
  gid = 1000;
  event_type = 1;
  fd = 3;
  comm = codes "cat";
  path = codes "/srv/db/a";
  dest = [];
  timestamp = 0;
  exe_dev = 8;
  exe_ino = 7;
  exe = codes "/usr/bin/cat";
  exec_name = codes "/usr/bin/cat";
  prot = 0;
}

abbrev one_read : List Timed
one_read = (1, 2, read_by_cat) ∷ []

recording-bounded_example :
    is_bounded
      (observe_all (new_recorder (db_target ∷ []) own_exe) one_read).access
      (observe_all (new_recorder (db_target ∷ []) own_exe) one_read).maps
    ≡ true
recording-bounded_example = recording-bounded (db_target ∷ []) own_exe one_read

recording-honest_example :
    all
      (is_honest (db_target ∷ []) own_exe)
      (observe_all (new_recorder (db_target ∷ []) own_exe) one_read).access
    ≡ true
recording-honest_example = recording-honest (db_target ∷ []) own_exe one_read

recording_complete_example :
    shows
      (exe_key read_by_cat, codes "/usr/bin/cat")
      1
      (event_target (db_target ∷ []) read_by_cat)
      (observe_all (new_recorder (db_target ∷ []) own_exe) one_read)
    ≡ true
recording_complete_example =
    recording_complete (db_target ∷ []) own_exe one_read 0 1 2 read_by_cat (omega arith) refl refl

abbrev real_files : FileSystem
real_files = record {
  lstat = λ p. some directory;
  stat_ok = λ p. true;
  resolve_confined = λ p. some p;
  eval_symlinks = λ p. some p;
}

abbrev two_targets : List Target
two_targets = db_target ∷ record { path = codes "/srv/web"; is_dir = true; existing = none } ∷ []

two_targets_run :
    validate_targets real_files none [] (codes "/srv/db" ∷ codes "/srv//web/" ∷ [])
    ≡ some two_targets
unfolding validate_targets validate_target refused_path overlaps clean split
two_targets_run = refl

validate_targets-apart_example :
    (is_disjoint two_targets ≡ true) × (all (is_allowed real_files none []) two_targets ≡ true)
validate_targets-apart_example =
    validate_targets-apart real_files none [] (codes "/srv/db" ∷ codes "/srv//web/" ∷ [])
      two_targets two_targets_run

abbrev seen_ops : List ℕ
seen_ops = 0 ∷ 2 ∷ []

abbrev read_type : ℕ
read_type = 1

contains-mask_types_example : contains (mask_types seen_ops) read_type ≡ (
    contains all_types read_type
    && ((read_type == 10)
        || ((contains seen_ops 0 && (read_type == 1)) || contains seen_ops read_type)))
contains-mask_types_example = contains-mask_types seen_ops read_type

abbrev nested_config : Config
nested_config = record empty_config {
  resources = bare_resource (codes "/srv") ∷ bare_resource (codes "/srv/db") ∷ [];
}

innermost_resource-deepest_example :
    (holds_if (codes "/srv/db/a") (innermost_resource (codes "/srv/db/a") nested_config) ≡ true)
    × (all
          (is_deepest (codes "/srv/db/a") (innermost_resource (codes "/srv/db/a") nested_config))
          nested_config.resources
        ≡ true)
innermost_resource-deepest_example = innermost_resource-deepest (codes "/srv/db/a") nested_config

abbrev sixty_four : Bytes
sixty_four = codes "00112233445566778899aabbccddeeff00112233445566778899aabbccddeeff"

abbrev db_binary : Binary
db_binary = record {
  line = codes "/usr/bin/db";
  exe = codes "/usr/bin/db";
  ops = codes "READ" ∷ [];
  mask = codes "READ" ∷ codes "STAT" ∷ [];
  targets = codes "/srv/db" ∷ [];
  uids = 1000 ∷ [];
  sha256 = sixty_four;
  owner = 0;
  problem = [];
  suggested = true;
  system_placed = true;
  general_tool = false;
  shell_helper = false;
  whitelisted = [];
  libs = record { path = codes "/opt/db/lib.so"; why = []; problem = [] } ∷ [];
}

abbrev db_selection : Selection
db_selection = record {
  binaries = codes "/usr/bin/db" ∷ [];
  libs = codes "/opt/db/lib.so" ∷ [];
  encrypt = codes "/srv/db" ∷ [];
  masks = true;
}

abbrev plan_or : Option Plan → Plan
plan_or (some p) = p
plan_or none = record { sections = []; extensions = []; libs = []; encrypt = []; binaries = [] }

abbrev db_plan : Plan
db_plan = plan_or (plan (db_target ∷ []) (db_binary ∷ []) db_selection)

db_plan_made : plan (db_target ∷ []) (db_binary ∷ []) db_selection ≡ some db_plan
unfolding plan plan_binaries dedupe
db_plan_made = refl

plan-approved_example :
    (all (is_approved (db_binary ∷ []) db_selection.binaries) db_plan.binaries ≡ true)
    × (all (is_needed_lib (db_binary ∷ []) db_selection.binaries) db_plan.libs ≡ true)
    × (all (λ e. is_new (target_at e (db_target ∷ []))) db_plan.encrypt ≡ true)
plan-approved_example =
    plan-approved (db_target ∷ []) (db_binary ∷ []) db_selection db_plan db_plan_made

plan-touched_example :
    (all
        (λ s. all (is_touched (db_binary ∷ []) db_selection.binaries s.path) s.allow)
        db_plan.sections
      ≡ true)
    × (all
          (λ x. all (is_touched (db_binary ∷ []) db_selection.binaries x.path) x.allow)
          db_plan.extensions
        ≡ true)
plan-touched_example =
    plan-touched (db_target ∷ []) (db_binary ∷ []) db_selection db_plan db_plan_made
