-- ===== src/Recorder/Observe/Bounds.antt =====
-- internal/recorder: a recording never grows beyond its bounds.
use app_listener.Base.{
  ℕ, suc, ◌≡◌, refl, Bool, true, false, not, ◌&&◌, Option, none, some, List, [], ◌∷◌, ◌==◌, nat_eq,
  pair_eq, list_eq, leb, length, length-append, all, contains, add_new, if_cases, Bytes, arith,
}
use app_listener.Base.Assoc.{
  lookup, insert, length-insert_new, length-insert_old, all-insert, all-lookup,
}
use app_listener.Wire.Events.{FileEvent}
use app_listener.Recorder.{Target}
use app_listener.Recorder.Observe.{
  ExeKey, AccessKey, Accessor, Recorder, new_recorder, max_accessors, max_mappers, max_libs_per_exe,
  keep_mapping, note_mapping, file_access, file_event, event_target, maps_code, exe_key, is_ignored,
  observe, Timed, observe_all, bump,
}

abbrev pub few_libs : ExeKey × List Bytes → Bool
few_libs (k, libs) = leb (length libs) max_libs_per_exe

-- At most 1024 accessors, 4096 mappers and 1024 libraries of each.
abbrev pub is_bounded : List (AccessKey × Accessor) → List (ExeKey × List Bytes) → Bool
is_bounded access maps =
    leb (length access) max_accessors && (leb (length maps) max_mappers && all few_libs maps)

abbrev Bounded : Recorder → Type 0
Bounded r = is_bounded r.access r.maps ≡ true

length-add_new :
    (lib : Bytes) (libs : List Bytes)
    → (not (contains libs lib) && leb max_libs_per_exe (length libs)) ≡ false
    → leb (length libs) max_libs_per_exe ≡ true
    → leb (length (add_new lib libs)) max_libs_per_exe ≡ true
length-add_new lib libs room h = ground (arith, length-append libs (lib ∷ []))

insert_libs-bounded :
    (access : List (AccessKey × Accessor)) (maps : List (ExeKey × List Bytes)) (k : ExeKey)
    (libs : List Bytes)
    → is_bounded access maps ≡ true
    → leb (length (insert k libs maps)) max_mappers ≡ true
    → leb (length libs) max_libs_per_exe ≡ true
    → is_bounded access (insert k libs maps) ≡ true
insert_libs-bounded access maps k libs h n l = ground (arith, all-insert few_libs k libs maps)

bounded_parts :
    (access : List (AccessKey × Accessor)) (maps : List (ExeKey × List Bytes))
    → is_bounded access maps ≡ true
    → (leb (length access) max_accessors ≡ true)
      × (leb (length maps) max_mappers ≡ true)
      × (all few_libs maps ≡ true)
bounded_parts access maps h = ground arith

-- A map that has room, or the key, stays small.
room_for_new : (n m max : ℕ) → m ≡ suc n → leb max n ≡ false → leb m max ≡ true
room_for_new n m max e h = ground arith

room_for_old : (n m max : ℕ) → m ≡ n → leb n max ≡ true → leb m max ≡ true
room_for_old n m max e h = ground arith

keep_mapping-Bounded :
    (r : Recorder) (k : ExeKey) (lib : Bytes) (o : Option (List Bytes))
    → lookup k r.maps ≡ o
    → Bounded r
    → Bounded (keep_mapping r k lib o)
keep_mapping-Bounded r k lib none e h =
    if_cases Bounded (leb max_mappers (length r.maps)) _ _ (λ full. h)
      λ room.
        insert_libs-bounded r.access r.maps k (lib ∷ []) h
          (room_for_new _ _ max_mappers (length-insert_new k (lib ∷ []) r.maps e) room) refl
keep_mapping-Bounded r k lib (some libs) e h =
    let (small, few, short) = bounded_parts r.access r.maps h in
    if_cases Bounded (not (contains libs lib) && leb max_libs_per_exe (length libs)) _ _ (λ full. h)
      λ room.
        insert_libs-bounded r.access r.maps k (add_new lib libs) h
          (room_for_old _ _ max_mappers (length-insert_old k libs (add_new lib libs) r.maps e) few)
          (length-add_new lib libs room (all-lookup few_libs k libs r.maps short e))

note_mapping-Bounded :
    (r : Recorder) (k : ExeKey) (lib : Bytes) → Bounded r → Bounded (note_mapping r k lib)
unfolding note_mapping
note_mapping-Bounded r k lib h = keep_mapping-Bounded r k lib (lookup k r.maps) refl h

insert_access-bounded :
    (access : List (AccessKey × Accessor)) (maps : List (ExeKey × List Bytes)) (k : AccessKey)
    (a : Accessor)
    → is_bounded access maps ≡ true
    → leb (length (insert k a access)) max_accessors ≡ true
    → is_bounded (insert k a access) maps ≡ true
insert_access-bounded access maps k a h n = ground arith

file_access-Bounded :
    (r : Recorder) (now later : ℕ) (ev : FileEvent) (target : Bytes) (ak : AccessKey)
    (o : Option Accessor)
    → lookup ak r.access ≡ o
    → Bounded r
    → Bounded (file_access r now later ev target ak o)
file_access-Bounded r now later ev target ak none e h =
    if_cases Bounded (leb max_accessors (length r.access)) _ _ (λ full. h)
      λ room.
        insert_access-bounded r.access r.maps ak _ h
          (room_for_new _ _ max_accessors (length-insert_new ak _ r.access e) room)
file_access-Bounded r now later ev target ak (some a) e h =
    insert_access-bounded r.access r.maps ak _ h (
      room_for_old _ _ max_accessors (length-insert_old ak a _ r.access e)
        (bounded_parts r.access r.maps h).0)

file_event-Bounded :
    (r : Recorder) (now later : ℕ) (ev : FileEvent) (target : Bytes) (ak : AccessKey)
    → Bounded r
    → Bounded (file_event r now later ev target ak)
file_event-Bounded r now later ev target ak h =
    if_cases Bounded (target == []) r _ (λ none_. h)
      λ some_.
        file_access-Bounded (record r { events = bump r.events }) now later ev target ak
          (lookup ak r.access) refl h

observe-Bounded :
    (r : Recorder) (now later : ℕ) (ev : FileEvent) → Bounded r → Bounded (observe r now later ev)
unfolding observe
observe-Bounded r now later ev h =
    if_cases Bounded (is_ignored r ev) r _ (λ skip. h)
      λ file.
        file_event-Bounded _ now later ev (event_target r.targets ev) (exe_key ev, ev.exec_name)
          (if_cases Bounded (maps_code ev) (note_mapping r (exe_key ev) ev.path) r
            (λ code. note_mapping-Bounded r (exe_key ev) ev.path h) λ data_. h)

observe_all-Bounded : (r : Recorder) (evs : List Timed) → Bounded r → Bounded (observe_all r evs)
observe_all-Bounded r [] h = h
observe_all-Bounded r ((now, later, ev) ∷ evs) h =
    observe_all-Bounded (observe r now later ev) evs (observe-Bounded r now later ev h)

-- However many events a recording sees, it holds at most 1024 accessors, at most 4096 executables that map
-- code, and at most 1024 libraries of each.
pub recording-bounded :
    (targets : List Target) (self : ExeKey) (evs : List Timed)
    → is_bounded
        (observe_all (new_recorder targets self) evs).access
        (observe_all (new_recorder targets self) evs).maps
      ≡ true
recording-bounded targets self evs = observe_all-Bounded (new_recorder targets self) evs refl
