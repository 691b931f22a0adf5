-- ===== src/Recorder/Observe/Complete.antt =====
-- internal/recorder: while there is room, no access is missed and none is forgotten.
use app_listener.Base.{
  ℕ, zero, suc, ◌+◌, ◌≤◌, ◌≡◌, refl, ap, sym, ◌∙◌, Bool, true, false, not, ◌&&◌, ◌||◌, Option, none,
  some, List, [], ◌∷◌, ◌==◌, nat_eq, pair_eq, list_eq, leb, length, contains, contains-add_new,
  if_cases, Bytes, arith, beq_refl, get_elem?,
}
use app_listener.Base.Assoc.{lookup, insert, lookup-insert, length-insert_new, length-insert_old}
use app_listener.Wire.Events.{FileEvent}
use app_listener.Recorder.{Target}
use app_listener.Recorder.Observe.{
  ExeKey, AccessKey, Accessor, Recorder, new_recorder, max_accessors, fresh_accessor, note_access,
  file_access, event_target, exe_key, observe, Timed, observe_all, bump,
}
use app_listener.Recorder.Observe.Recorded.{observe_parts, observe-Same}

-- The recording holds the operation and the path for this accessor.
abbrev pub shown_by : Option Accessor → ℕ → Bytes → Bool
shown_by none op target = false
shown_by (some a) op target = contains a.ops op && contains a.targets target

not_shown {ℓ} : {A : Type ℓ} → false ≡ true → A
not_shown e = absurd cc

abbrev pub shows : AccessKey → ℕ → Bytes → Recorder → Bool
shows ak op target r = shown_by (lookup ak r.access) op target

module _ (ak : AccessKey) (op : ℕ) (target : Bytes) where
  insert-shows :
      (m : List (AccessKey × Accessor)) (k : AccessKey) (a : Accessor)
      → ((k == ak) ≡ true → shown_by (some a) op target ≡ true)
      → shown_by (lookup ak m) op target ≡ true
      → shown_by (lookup ak (insert k a m)) op target ≡ true
  insert-shows m k a here h =
      ap (λ o. shown_by o op target) (lookup-insert k ak a m)
      ∙ if_cases (λ o. shown_by o op target ≡ true) (k == ak) (some a) (lookup ak m) here λ other. h

  note_access-shows :
      (later : ℕ) (ev : FileEvent) (t : Bytes) (a : Accessor)
      → shown_by (some a) op target ≡ true
      → shown_by (some (note_access later ev t a)) op target ≡ true
  note_access-shows later ev t a h =
      ground (arith, contains-add_new ev.event_type op a.ops, contains-add_new t target a.targets)

  -- The accessor of an equal key shows the same.
  shown_here :
      (m : List (AccessKey × Accessor)) (k : AccessKey) (o : Option Accessor)
      → lookup k m ≡ o
      → (k == ak) ≡ true
      → shown_by (lookup ak m) op target ≡ true
      → shown_by o op target ≡ true
  shown_here m k o e same h =
      ap (λ x. shown_by x op target) (sym e)
      ∙ ap (λ x. shown_by (lookup x m) op target) ((pair_eq.beq_iff k ak).0 same)
      ∙ h

  file_access-shows :
      (r : Recorder) (now later : ℕ) (ev : FileEvent) (t : Bytes) (k : AccessKey)
      (o : Option Accessor)
      → lookup k r.access ≡ o
      → shows ak op target r ≡ true
      → shows ak op target (file_access r now later ev t k o) ≡ true
  file_access-shows r now later ev t k none e h =
      if_cases (λ s. shows ak op target s ≡ true) (leb max_accessors (length r.access)) _ _
        (λ full. h)
        λ room.
          insert-shows r.access k _ (λ same. not_shown (shown_here r.access k none e same h)) h
  file_access-shows r now later ev t k (some a) e h =
      insert-shows r.access k _
        (λ same. note_access-shows later ev t a (shown_here r.access k (some a) e same h)) h

  observe-shows :
      (r : Recorder) (now later : ℕ) (ev : FileEvent)
      → shows ak op target r ≡ true
      → shows ak op target (observe r now later ev) ≡ true
  observe-shows r now later ev h =
      observe_parts r now later ev (λ s. shows ak op target s ≡ true) (λ own. h)
        λ seen d m.
          if_cases (λ s. shows ak op target s ≡ true) (event_target r.targets ev == []) _ _
            (λ none_. h)
            λ some_.
              file_access-shows (record r { dropped = d; maps = m; events = bump r.events }) now
                later ev (event_target r.targets ev) (exe_key ev, ev.exec_name)
                (lookup (exe_key ev, ev.exec_name) r.access) refl h

  observe_all-shows :
      (r : Recorder) (evs : List Timed)
      → shows ak op target r ≡ true
      → shows ak op target (observe_all r evs) ≡ true
  observe_all-shows r [] h = h
  observe_all-shows r ((now, later, ev) ∷ evs) h =
      observe_all-shows (observe r now later ev) evs (observe-shows r now later ev h)

-- What is added to an accessor is in it.
added :
    (later : ℕ) (ev : FileEvent) (t : Bytes) (a : Accessor)
    → shown_by (some (note_access later ev t a)) ev.event_type t ≡ true
added later ev t a = ground (
  arith,
  contains-add_new ev.event_type ev.event_type a.ops,
  contains-add_new t t a.targets,
  beq_refl t,
)

lookup-put :
    (k : AccessKey) (a : Accessor) (m : List (AccessKey × Accessor)) (op : ℕ) (t : Bytes)
    → shown_by (some a) op t ≡ true
    → shown_by (lookup k (insert k a m)) op t ≡ true
lookup-put k a m op t h =
    ap (λ o. shown_by o op t) (lookup-insert k k a m)
    ∙ if_cases (λ o. shown_by o op t ≡ true) (k == k) (some a) (lookup k m) (λ same. h)
        (λ other. not_shown (sym other ∙ beq_refl_key))
  where
    beq_refl_key : (k == k) ≡ true
    beq_refl_key = (pair_eq.beq_iff k k).1 refl

file_access-added :
    (r : Recorder) (now later : ℕ) (ev : FileEvent) (t : Bytes) (k : AccessKey)
    (o : Option Accessor)
    → leb max_accessors (length r.access) ≡ false
    → shows k ev.event_type t (file_access r now later ev t k o) ≡ true
file_access-added r now later ev t k none room =
    rw room (lookup-put k _ r.access ev.event_type t (added later ev t (fresh_accessor now)))
file_access-added r now later ev t k (some a) room =
    lookup-put k _ r.access ev.event_type t (added later ev t a)

-- An event that a recording must not miss.
abbrev pub is_access : List Target → ExeKey → FileEvent → Bool
is_access ts self ev =
    not ((ev.exe_ino == 0) || (exe_key ev == self)) && not (event_target ts ev == [])

access_parts :
    (ts : List Target) (self : ExeKey) (ev : FileEvent)
    → is_access ts self ev ≡ true
    → (((ev.exe_ino == 0) || (exe_key ev == self)) ≡ false) × ((event_target ts ev == []) ≡ false)
access_parts ts self ev h =
    split ((ev.exe_ino == 0) || (exe_key ev == self)) (event_target ts ev == []) h
  where
    split : (a b : Bool) → (not a && not b) ≡ true → (a ≡ false) × (b ≡ false)
    split true b h = absurd cc
    split false true h = absurd cc
    split false false h = (refl, refl)

observe-added :
    (r : Recorder) (now later : ℕ) (ev : FileEvent)
    → is_access r.targets r.self ev ≡ true
    → leb max_accessors (length r.access) ≡ false
    → shows
        (exe_key ev, ev.exec_name)
        ev.event_type
        (event_target r.targets ev)
        (observe r now later ev)
      ≡ true
observe-added r now later ev h room =
    observe_parts r now later ev P
      (λ own. not_shown (sym (access_parts r.targets r.self ev h).0 ∙ own))
      λ seen d m.
        if_cases P (event_target r.targets ev == []) _ _
          (λ none_. not_shown (sym (access_parts r.targets r.self ev h).1 ∙ none_))
          λ some_.
            file_access-added (record r { dropped = d; maps = m; events = bump r.events }) now later
              ev (event_target r.targets ev) (exe_key ev, ev.exec_name)
              (lookup (exe_key ev, ev.exec_name) r.access) room
  where
    P : Recorder → Type 0
    P s = shows (exe_key ev, ev.exec_name) ev.event_type (event_target r.targets ev) s ≡ true

length-file_access :
    (r : Recorder) (now later : ℕ) (ev : FileEvent) (t : Bytes) (k : AccessKey)
    (o : Option Accessor)
    → lookup k r.access ≡ o
    → length (file_access r now later ev t k o).access ≤ suc (length r.access)
length-file_access r now later ev t k none e =
    if_cases (λ (s : Recorder). length s.access ≤ suc (length r.access))
      (leb max_accessors (length r.access)) _ _ (λ full. omega arith)
      λ room.
        omega (arith, length-insert_new k (note_access later ev t (fresh_accessor now)) r.access e)
length-file_access r now later ev t k (some a) e =
    omega (arith, length-insert_old k a (note_access later ev t a) r.access e)

length-observe :
    (r : Recorder) (now later : ℕ) (ev : FileEvent)
    → length (observe r now later ev).access ≤ suc (length r.access)
length-observe r now later ev =
    observe_parts r now later ev P (λ own. omega arith)
      λ seen d m.
        if_cases P (event_target r.targets ev == []) _ _ (λ none_. omega arith)
          λ some_.
            length-file_access (record r { dropped = d; maps = m; events = bump r.events }) now
              later ev (event_target r.targets ev) (exe_key ev, ev.exec_name)
              (lookup (exe_key ev, ev.exec_name) r.access) refl
  where
    P : Recorder → Type 0
    P s = length s.access ≤ suc (length r.access)

observe_all_complete :
    (r : Recorder) (evs : List Timed) (i now later : ℕ) (ev : FileEvent)
    → length r.access + length evs ≤ max_accessors
    → get_elem? evs i ≡ some (now, later, ev)
    → is_access r.targets r.self ev ≡ true
    → shows (exe_key ev, ev.exec_name) ev.event_type (event_target r.targets ev) (observe_all r evs)
      ≡ true
observe_all_complete r [] i now later ev room e h = absurd cc
observe_all_complete r ((n, l, x) ∷ evs) zero now later ev room e h =
    observe_all-shows (exe_key ev, ev.exec_name) ev.event_type (event_target r.targets ev)
      (observe r n l x) evs
      (ap
          (λ y.
            shows (exe_key ev, ev.exec_name) ev.event_type (event_target r.targets ev)
              (observe r n l y))
          (same_event e)
        ∙ observe-added r n l ev h (leaves_room (length r.access) (length evs) room))
  where
    same_event : ◌≡◌ {A = Option Timed} (some (n, l, x)) (some (now, later, ev)) → x ≡ ev
    same_event e = cc

    leaves_room : (a b : ℕ) → a + suc b ≤ max_accessors → leb max_accessors a ≡ false
    leaves_room a b h = ground arith
observe_all_complete r ((n, l, x) ∷ evs) (suc i) now later ev room e h =
    let (t, s) = observe-Same r n l x in
    ap
      (λ ts.
        shows (exe_key ev, ev.exec_name) ev.event_type (event_target ts ev)
          (observe_all (observe r n l x) evs))
      (sym t)
    ∙ observe_all_complete (observe r n l x) evs i now later ev
        (omega (arith, length-observe r n l x)) e
        (ap (λ ts. is_access ts (observe r n l x).self ev) t
          ∙ ap (λ k. is_access r.targets k ev) s
          ∙ h)

-- In a recording of at most 1024 events, every access to one of its paths by a known executable that is not
-- the daemon's own is in the result: the accessor of that executable, under the name it was started by, is
-- recorded with the event's operation and its path.
pub recording_complete :
    (targets : List Target) (self : ExeKey) (evs : List Timed) (i now later : ℕ) (ev : FileEvent)
    → length evs ≤ 1024
    → get_elem? evs i ≡ some (now, later, ev)
    → is_access targets self ev ≡ true
    → shows
        (exe_key ev, ev.exec_name)
        ev.event_type
        (event_target targets ev)
        (observe_all (new_recorder targets self) evs)
      ≡ true
recording_complete targets self evs i now later ev room e h =
    observe_all_complete (new_recorder targets self) evs i now later ev (omega arith) e h
