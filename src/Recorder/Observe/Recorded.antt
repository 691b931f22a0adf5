-- ===== src/Recorder/Observe/Recorded.antt =====
-- internal/recorder: what a recording holds of the events it has seen.
use app_listener.Base.{
  ◌∙◌, beq_refl, all-add_new, ℕ, ◌≡◌, refl, Bool, true, false, not, ◌&&◌, ◌||◌, Option, none, some,
  List, [], ◌∷◌, ◌==◌, nat_eq, pair_eq, list_eq, leb, any, all, length, contains, if_cases, Bytes,
  arith,
}
use app_listener.Base.Assoc.{lookup, all-insert, all-lookup}
use app_listener.Wire.Events.{FileEvent}
use app_listener.Recorder.{Target}
use app_listener.Recorder.Observe.{
  new_recorder, ExeKey, AccessKey, Accessor, Recorder, max_accessors, keep_mapping, note_mapping,
  fresh_accessor, note_access, file_access, file_event, event_target, target_in, target_of,
  maps_code, exe_key, is_ignored, observe, Timed, observe_all, bump,
}

-- A path of the recording.
abbrev pub is_target : List Target → Bytes → Bool
is_target ts p = any (λ t. t.path == p) ts

-- An accessor of a known executable other than this binary, with targets of the recording only.
abbrev pub is_honest : List Target → ExeKey → AccessKey × Accessor → Bool
is_honest ts self ((k, name), a) =
    (not (k.1 == 0) && not (k == self)) && all (is_target ts) a.targets

target_in-target :
    (ts : List Target) (p : Bytes)
    → (target_in ts p == []) ≡ false
    → is_target ts (target_in ts p) ≡ true
target_in-target [] p = λ h. absurd cc
target_in-target (t ∷ ts) p =
    if_cases (λ x. (x == []) ≡ false → ((t.path == x) || is_target ts x) ≡ true) _ t.path
      (target_in ts p) (λ here h. ground (arith, beq_refl t.path))
      λ there h. ground (arith, target_in-target ts p h)

event_target-target :
    (ts : List Target) (ev : FileEvent)
    → (event_target ts ev == []) ≡ false
    → is_target ts (event_target ts ev) ≡ true
event_target-target ts ev =
    if_cases Q (target_of ts ev.path == []) (target_of ts ev.dest) (target_of ts ev.path)
      (λ none_. from ev.dest) λ some_. from ev.path
  where
    Q : Bytes → Type 0
    Q x = (x == []) ≡ false → is_target ts x ≡ true

    from : (p : Bytes) → Q (target_of ts p)
    from p =
        if_cases Q (p == []) [] (target_in ts p) (λ e h. absurd cc) λ e h. target_in-target ts p h

-- Every accessor of the recording is honest.
abbrev Honest : Recorder → Type 0
Honest r = all (is_honest r.targets r.self) r.access ≡ true

-- What a step may not change.
abbrev pub Same : Recorder → Recorder → Type 0
Same r s = (s.targets ≡ r.targets) × (s.self ≡ r.self)

note_access-honest :
    (ts : List Target) (self : ExeKey) (later : ℕ) (ev : FileEvent) (target : Bytes)
    (ak : AccessKey) (a : Accessor)
    → is_honest ts self (ak, a) ≡ true
    → is_target ts target ≡ true
    → is_honest ts self (ak, note_access later ev target a) ≡ true
note_access-honest ts self later ev target ((d, i), name) a h t =
    ground (arith, all-add_new (is_target ts) target a.targets)

file_access-Honest :
    (r : Recorder) (now later : ℕ) (ev : FileEvent) (target : Bytes) (ak : AccessKey)
    (o : Option Accessor)
    → lookup ak r.access ≡ o
    → is_honest r.targets r.self (ak, fresh_accessor now) ≡ true
    → is_target r.targets target ≡ true
    → Honest r
    → Honest (file_access r now later ev target ak o)
file_access-Honest r now later ev target ak none e known t h =
    if_cases Honest (leb max_accessors (length r.access)) _ _ (λ full. h)
      λ room.
        all-insert (is_honest r.targets r.self) ak _ r.access h
          (note_access-honest r.targets r.self later ev target ak (fresh_accessor now) known t)
file_access-Honest r now later ev target ak (some a) e known t h =
    all-insert (is_honest r.targets r.self) ak _ r.access h (
      note_access-honest r.targets r.self later ev target ak a
        (all-lookup (is_honest r.targets r.self) ak a r.access h e) t)

known_exe :
    (ts : List Target) (self k : ExeKey) (name : Bytes) (now : ℕ)
    → ((k.1 == 0) || (k == self)) ≡ false
    → is_honest ts self ((k, name), fresh_accessor now) ≡ true
known_exe ts self k name now h = ground arith

note_mapping-access :
    (r : Recorder) (k : ExeKey) (lib : Bytes) (P : Recorder → Type 0)
    → ((d : ℕ) (m : List (ExeKey × List Bytes)) → P (record r { dropped = d; maps = m }))
    → P (note_mapping r k lib)
unfolding note_mapping
note_mapping-access r k lib P h = from (lookup k r.maps)
  where
    from : (o : Option (List Bytes)) → P (keep_mapping r k lib o)
    from none = if_cases P (leb 4096 (length r.maps)) _ _ (λ full. h _ _) λ room. h _ _
    from (some libs) =
        if_cases P (not (contains libs lib) && leb 1024 (length libs)) _ _ (λ full. h _ _)
          λ room. h _ _

-- A step is a change of the two counters and the mappings, and then perhaps of the accessors.
pub observe_parts :
    (r : Recorder) (now later : ℕ) (ev : FileEvent) (P : Recorder → Type 0)
    → (is_ignored r ev ≡ true → P r)
    → (is_ignored r ev ≡ false
        → (d : ℕ) (m : List (ExeKey × List Bytes))
        → P (
            file_event
              (record r { dropped = d; maps = m })
              now
              later
              ev
              (event_target r.targets ev)
              (exe_key ev, ev.exec_name)))
    → P (observe r now later ev)
unfolding observe
observe_parts r now later ev P skip file = if_cases P (is_ignored r ev) r _ skip λ seen.
    if_cases
      (λ s. P (file_event s now later ev (event_target r.targets ev) (exe_key ev, ev.exec_name)))
      (maps_code ev) (note_mapping r (exe_key ev) ev.path) r
      (λ code.
        note_mapping-access r (exe_key ev) ev.path
          (λ s.
            P (file_event s now later ev (event_target r.targets ev) (exe_key ev, ev.exec_name)))
          (file seen))
      λ data_. file seen r.dropped r.maps

observe-Honest :
    (r : Recorder) (now later : ℕ) (ev : FileEvent) → Honest r → Honest (observe r now later ev)
observe-Honest r now later ev h =
    observe_parts r now later ev Honest (λ own. h)
      λ seen d m.
        if_cases Honest (event_target r.targets ev == []) _ _ (λ none_. h)
          λ some_.
            file_access-Honest (record r { dropped = d; maps = m; events = bump r.events }) now
              later ev _ _ (lookup (exe_key ev, ev.exec_name) r.access) refl
              (known_exe r.targets r.self (exe_key ev) ev.exec_name now seen)
              (event_target-target r.targets ev some_) h

observe_all-Honest : (r : Recorder) (evs : List Timed) → Honest r → Honest (observe_all r evs)
observe_all-Honest r [] h = h
observe_all-Honest r ((now, later, ev) ∷ evs) h =
    observe_all-Honest (observe r now later ev) evs (observe-Honest r now later ev h)

file_access-Same :
    (q r : Recorder) (now later : ℕ) (ev : FileEvent) (target : Bytes) (ak : AccessKey)
    (o : Option Accessor)
    → Same q r
    → Same q (file_access r now later ev target ak o)
file_access-Same q r now later ev target ak none h =
    if_cases (Same q) (leb max_accessors (length r.access)) _ _ (λ full. h) λ room. h
file_access-Same q r now later ev target ak (some a) h = h

pub observe-Same : (r : Recorder) (now later : ℕ) (ev : FileEvent) → Same r (observe r now later ev)
observe-Same r now later ev =
    observe_parts r now later ev (Same r) (λ own. (refl, refl))
      λ seen d m.
        if_cases (Same r) (event_target r.targets ev == []) _ _ (λ none_. (refl, refl))
          λ some_.
            file_access-Same r (record r { dropped = d; maps = m; events = bump r.events }) now
              later ev _ _ (lookup (exe_key ev, ev.exec_name) r.access) (refl, refl)

observe_all-Same : (r : Recorder) (evs : List Timed) → Same r (observe_all r evs)
observe_all-Same r [] = (refl, refl)
observe_all-Same r ((now, later, ev) ∷ evs) =
    let (t, s) = observe-Same r now later ev in
    let (u, v) = observe_all-Same (observe r now later ev) evs in (u ∙ t, v ∙ s)

-- Whatever events a recording sees, each of its accessors is an executable with an inode that is not the
-- daemon's own, and every path it is recorded for is a path of the recording.
pub recording-honest :
    (targets : List Target) (self : ExeKey) (evs : List Timed)
    → all (is_honest targets self) (observe_all (new_recorder targets self) evs).access ≡ true
recording-honest targets self evs =
    let (t, s) = observe_all-Same (new_recorder targets self) evs in
    rw (t, s) at (observe_all-Honest (new_recorder targets self) evs refl)
