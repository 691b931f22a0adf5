-- ===== src/Recorder/Observe.antt =====
-- internal/recorder: `observe`, the one step of a running recording. A set is a list without repeats, and
-- `time.Now` is what the two calls of one step read.
pub mod Bounds
pub mod Recorded
pub mod Complete
use app_listener.Base.{
  ℕ, zero, suc, ◌+◌, ◌%◌, ◌^◌, bit_and, Bool, true, false, not, ◌&&◌, ◌||◌, Option, none, some,
  List, [], ◌∷◌, ◌++◌, ◌==◌, nat_eq, pair_eq, list_eq, if◌then◌else◌, leb, length, contains,
  add_new, Bytes, codes,
}
use app_listener.Base.Assoc.{lookup, insert}
use app_listener.Base.Strings.{has_prefix}
use app_listener.DaemonConfig.Text.{is_abs}
use app_listener.Wire.Events.{FileEvent}
use app_listener.Recorder.{Target}

-- `exeKey` and `accessKey`
abbrev pub ExeKey : Type 0
ExeKey = ℕ × ℕ

abbrev pub AccessKey : Type 0
AccessKey = ExeKey × Bytes

-- `accessor`
pub record Accessor : Type 0 where
  pub exe : Bytes
  pub comms : List Bytes
  pub ops : List ℕ
  pub targets : List Bytes
  pub uids : List ℕ
  pub count : ℕ
  pub first : ℕ
  pub last : ℕ

-- `Recorder`, without its channels.
pub record Recorder : Type 0 where
  pub targets : List Target
  pub self : ExeKey
  pub events : ℕ
  pub dropped : ℕ
  pub access : List (AccessKey × Accessor)
  pub maps : List (ExeKey × List Bytes)

-- `newRecorder`
abbrev pub new_recorder : List Target → ExeKey → Recorder
new_recorder targets self = record {
  targets = targets;
  self = self;
  events = 0;
  dropped = 0;
  access = [];
  maps = [];
}

-- `maxAccessors`, `maxMappers` and `maxLibsPerExe`
abbrev pub max_accessors : ℕ
max_accessors = 1024

abbrev pub max_mappers : ℕ
max_mappers = 4096

abbrev pub max_libs_per_exe : ℕ
max_libs_per_exe = 1024

-- A `uint64` that counts.
abbrev pub bump : ℕ → ℕ
bump n = (n + 1) % 2 ^ 64

-- The loop of `targetOf`; `[]` is none.
abbrev pub target_in : List Target → Bytes → Bytes
target_in [] p = []
target_in (t ∷ ts) p =
    let rest = target_in ts p in
    if (p == t.path) || (t.is_dir && has_prefix p (t.path ++ codes "/")) then t.path else rest

-- `targetOf`
abbrev pub target_of : List Target → Bytes → Bytes
target_of targets p = if p == [] then [] else target_in targets p

-- The target of an event: of its path, or else of its destination.
abbrev pub event_target : List Target → FileEvent → Bytes
event_target targets ev =
    if target_of targets ev.path == [] then target_of targets ev.dest else target_of targets ev.path

-- `noteMapping`, by the libraries that the executable has so far.
abbrev pub drop_one : Recorder → Recorder
drop_one r = record r { dropped = bump r.dropped }

abbrev pub keep_mapping : Recorder → ExeKey → Bytes → Option (List Bytes) → Recorder
keep_mapping r k lib none =
    if leb max_mappers (length r.maps)
    then drop_one r
    else record r { maps = insert k (lib ∷ []) r.maps }
keep_mapping r k lib (some libs) =
    if not (contains libs lib) && leb max_libs_per_exe (length libs)
    then drop_one r
    else record r { maps = insert k (add_new lib libs) r.maps }

unfoldable pub note_mapping : Recorder → ExeKey → Bytes → Recorder
note_mapping r k lib = keep_mapping r k lib (lookup k r.maps)

abbrev pub fresh_accessor : ℕ → Accessor
fresh_accessor now = record {
  exe = [];
  comms = [];
  ops = [];
  targets = [];
  uids = [];
  count = 0;
  first = now;
  last = 0;
}

-- What an event adds to its accessor.
abbrev pub note_access : ℕ → FileEvent → Bytes → Accessor → Accessor
note_access later ev target a = record {
  exe = if not (ev.exe == []) then ev.exe else a.exe;
  comms = add_new ev.comm a.comms;
  ops = add_new ev.event_type a.ops;
  targets = add_new target a.targets;
  uids = add_new ev.uid a.uids;
  count = bump a.count;
  first = a.first;
  last = later;
}

-- The accessor of an event: the one there is, or a new one while there is room.
abbrev pub file_access :
    Recorder → ℕ → ℕ → FileEvent → Bytes → AccessKey → Option Accessor → Recorder
file_access r now later ev target ak (some a) = record r {
  access = insert ak (note_access later ev target a) r.access;
}
file_access r now later ev target ak none =
    if leb max_accessors (length r.access)
    then drop_one r
    else record r { access = insert ak (note_access later ev target (fresh_accessor now)) r.access }

abbrev pub file_event : Recorder → ℕ → ℕ → FileEvent → Bytes → AccessKey → Recorder
file_event r now later ev target ak =
    if target == []
    then r
    else file_access (record r { events = bump r.events }) now later ev target ak
        (lookup ak r.access)

-- `ebpf.EventMmap`, and a mapping that may be executed (`PROT_EXEC`).
abbrev pub event_mmap : ℕ
event_mmap = 8

abbrev pub maps_code : FileEvent → Bool
maps_code ev = (ev.event_type == event_mmap) && (not (bit_and ev.prot 4 == 0) && is_abs ev.path)

abbrev pub exe_key : FileEvent → ExeKey
exe_key ev = (ev.exe_dev, ev.exe_ino)

-- A kernel thread, and this binary, are never recorded.
abbrev pub is_ignored : Recorder → FileEvent → Bool
is_ignored r ev = (ev.exe_ino == 0) || (exe_key ev == r.self)

-- `observe`
unfoldable pub observe : Recorder → ℕ → ℕ → FileEvent → Recorder
observe r now later ev =
    if is_ignored r ev
    then r
    else file_event (if maps_code ev then note_mapping r (exe_key ev) ev.path else r) now later ev
        (event_target r.targets ev) (exe_key ev, ev.exec_name)

-- The loop of a recording: each event with its two times.
abbrev pub Timed : Type 0
Timed = ℕ × ℕ × FileEvent

abbrev pub observe_all : Recorder → List Timed → Recorder
observe_all r [] = r
observe_all r ((now, later, ev) ∷ evs) = observe_all (observe r now later ev) evs
