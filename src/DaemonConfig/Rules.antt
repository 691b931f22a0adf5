-- ===== src/DaemonConfig/Rules.antt =====
-- internal/daemonconfig: the directives of a section or block, each applied to the open group.
use app_listener.Base.{
  ℕ, ◌+◌, ◌*◌, ◌-◌, ◌^◌, Bool, true, false, not, ◌&&◌, ◌||◌, Option, none, some, List, [], ◌∷◌,
  ◌++◌, ◌==◌, nat_eq, list_eq, if◌then◌else◌, ltb, leb, length, contains, Bytes, codes,
}
use app_listener.Base.Strings.{split}
use app_listener.EventNames.{parse_event_type}
use app_listener.DaemonConfig.{
  empty_path, outside_root, duplicate_path, bad_value, unterminated_quote, unknown_event,
  unwanted_rest, relative_path, too_many, too_long, unknown_setting, not_in_block, Parsed, done,
  fault, ◌>>=◌, ◌>>◌, refuse_if, FileSystem, BinaryRule, Config, WatchGroup, max_inspectors,
  max_electron_apps, max_electron_app_len, max_inodes_floor, max_inodes_ceiling,
}
use app_listener.DaemonConfig.Text.{
  trim_space, split_path_and_rest, parse_allow_lib, parse_lib_dir, parse_lib_binary,
  parse_need_encryption, watch_path_of, is_inside_path, clean, is_abs,
}

-- `strings.ToUpper` on ASCII.
abbrev pub to_upper : Bytes → Bytes
to_upper [] = []
to_upper (c ∷ s) = (if leb 97 c && leb c 122 then c - 32 else c) ∷ to_upper s

-- `parseEvents`, after the types `seen`, which are in order.
abbrev pub parse_events_from : List ℕ → List Bytes → Parsed (List ℕ)
parse_events_from seen [] = done seen
parse_events_from seen (token ∷ tokens) = elim (parse_event_type to_upper (trim_space token)) [
  | none ↦ fault unknown_event
  | some t ↦ parse_events_from (if contains seen t then seen else seen ++ t ∷ []) tokens
]

unfoldable pub parse_events : List Bytes → Parsed (List ℕ)
parse_events tokens = parse_events_from [] tokens

-- `splitPathAndRest`, whose error ends the parse.
abbrev pub path_and_rest : Bytes → Parsed (Bytes × Bytes)
path_and_rest line = elim (split_path_and_rest line) [
  | none ↦ fault unterminated_quote
  | some parts ↦ done parts
]

module _ (fs : FileSystem) where
  -- `recordBinaryRule`: the rule to allow now, or the rule that waits.
  abbrev pub resolved_rule : BinaryRule → Option Bytes → Bool × BinaryRule
  resolved_rule rule none = (false, rule)
  resolved_rule rule (some target) =
      (true, if target == rule.path then rule else record rule { link = rule.path; path = target })

  unfoldable pub resolve_rule : BinaryRule → Bool × BinaryRule
  resolve_rule rule =
      if fs.stat_ok rule.path
      then resolved_rule rule (fs.resolve_confined rule.path)
      else (false, rule)

  -- `recordBinaryRule` on the section's own whitelist, and on its library writers.
  abbrev pub record_binary : WatchGroup → Bool × BinaryRule → WatchGroup
  record_binary g (true, rule) = record g { binaries = g.binaries ++ rule ∷ [] }
  record_binary g (false, rule) = record g { pending = g.pending ++ rule ∷ [] }

  abbrev pub record_lib_binary : WatchGroup → Bool × BinaryRule → WatchGroup
  record_lib_binary g (true, rule) = record g { lib_binaries = g.lib_binaries ++ rule ∷ [] }
  record_lib_binary g (false, rule) = record g { lib_pending = g.lib_pending ++ rule ∷ [] }

  -- `applyAllowLib`
  abbrev pub keep_lib : WatchGroup → Bytes → Option Bytes → WatchGroup
  keep_lib g path none = record g { pending_libs = g.pending_libs ++ path ∷ [] }
  keep_lib g path (some target) = record g { libs = g.libs ++ target ∷ [] }

  unfoldable pub apply_allow_lib : WatchGroup → Bytes → Parsed WatchGroup
  apply_allow_lib g path = do
    refuse_if (path == []) empty_path
    done (keep_lib g path (if fs.stat_ok path then fs.resolve_confined path else none))

  -- `applyLibDir`
  unfoldable pub apply_lib_dir : WatchGroup → Bytes → Parsed WatchGroup
  apply_lib_dir g path = do
    refuse_if (path == []) empty_path
    refuse_if (contains g.lib_dirs (clean path)) duplicate_path
    done (record g { lib_dirs = g.lib_dirs ++ clean path ∷ [] })

  -- `applyLibBinary`
  unfoldable pub apply_lib_binary : WatchGroup → Bytes → Parsed WatchGroup
  apply_lib_binary g value = do
    parts ← path_and_rest value
    refuse_if (parts.0 == []) empty_path
    refuse_if (not (parts.1 == [])) unwanted_rest
    done (
        record_lib_binary g
          (resolve_rule (record { path = parts.0; link = []; events = []; lib_binary = true })))

  -- `applyLibraryBlockDirective`
  unfoldable pub apply_library_block_directive : WatchGroup → Bytes → Parsed WatchGroup
  apply_library_block_directive g line = elim (parse_allow_lib line) [
    | some path ↦ apply_allow_lib g path
    | none ↦ elim (parse_lib_dir line) [
      | some path ↦ apply_lib_dir g path
      | none ↦ elim (parse_lib_binary line) [
        | some value ↦ apply_lib_binary g value
        | none ↦ fault not_in_block
      ]
    ]
  ]

  -- `need_encryption`
  abbrev pub set_need_encryption : WatchGroup → Bytes → Parsed WatchGroup
  set_need_encryption g value =
      if value == codes "true"
      then done (record g { need_encryption = true })
      else if value == codes "false"
      then done (record g { need_encryption = false })
      else fault bad_value

  -- The event list of a binary line; none is every event.
  abbrev pub events_of_rest : Bytes → Parsed (List ℕ)
  events_of_rest [] = done []
  events_of_rest (c ∷ rest) = parse_events (split 44 (c ∷ rest))

  -- The binary rule of `applyDirective`; a line without a path is no rule.
  abbrev pub add_binary : WatchGroup → Bytes × Bytes → Parsed WatchGroup
  add_binary g ([], rest) = done g
  add_binary g (c ∷ path, rest) = do
    events ← events_of_rest rest
    done (
        record_binary g (
          resolve_rule
            (record { path = c ∷ path; link = []; events = events; lib_binary = false })))

  -- `applyDirective`
  unfoldable pub apply_directive : WatchGroup → Bytes → Parsed WatchGroup
  apply_directive g line = elim (parse_need_encryption line) [
    | some value ↦ set_need_encryption g value
    | none ↦ elim (parse_allow_lib line) [
      | some path ↦ apply_allow_lib g path
      | none ↦ elim (parse_lib_dir line) [
        | some path ↦ apply_lib_dir g path
        | none ↦ elim (parse_lib_binary line) [
          | some value ↦ apply_lib_binary g value
          | none ↦ (do parts ← path_and_rest line; add_binary g parts)
        ]
      ]
    ]
  ]

-- `addWatchPath`
unfoldable pub add_watch_path : WatchGroup → Bytes → Parsed WatchGroup
add_watch_path g line = do
  refuse_if (watch_path_of line == []) empty_path
  refuse_if (not (is_inside_path (clean (watch_path_of line)) g.root)) outside_root
  refuse_if (contains g.watch_paths (clean (watch_path_of line))) duplicate_path
  done (record g { watch_paths = g.watch_paths ++ clean (watch_path_of line) ∷ [] })

abbrev pub listed : Option (List Bytes) → List Bytes
listed none = []
listed (some paths) = paths

-- `applyInspector`
unfoldable pub apply_inspector : Config → Bytes → Parsed Config
apply_inspector cfg line = do
  parts ← path_and_rest line
  refuse_if (not (parts.1 == [])) unwanted_rest
  refuse_if (not (is_abs parts.0)) relative_path
  refuse_if (contains (listed cfg.inspectors) (clean parts.0)) duplicate_path
  refuse_if (leb max_inspectors (length (listed cfg.inspectors))) too_many
  done (record cfg { inspectors = some (listed cfg.inspectors ++ clean parts.0 ∷ []) })

-- `applyElectronApp`
unfoldable pub apply_electron_app : Config → Bytes → Parsed Config
apply_electron_app cfg line = do
  parts ← path_and_rest line
  refuse_if (not (parts.1 == [])) unwanted_rest
  refuse_if (not (is_abs parts.0)) relative_path
  refuse_if (ltb max_electron_app_len (length (clean parts.0))) too_long
  refuse_if (contains cfg.electron_apps (clean parts.0)) duplicate_path
  refuse_if (leb max_electron_apps (length cfg.electron_apps)) too_many
  done (record cfg { electron_apps = cfg.electron_apps ++ clean parts.0 ∷ [] })

-- `strings.Cut` at a colon.
abbrev pub cut_colon : Bytes → Option (Bytes × Bytes)
cut_colon [] = none
cut_colon (c ∷ s) =
    let rest = cut_colon s in
    if c == 58 then some ([], s) else elim rest [ none ↦ none | some (k, v) ↦ some (c ∷ k, v) ]

-- `strconv.ParseUint(value, 10, 32)`: digits only, and a number of 32 bits.
abbrev pub digits_from : ℕ → Bytes → Option ℕ
digits_from n [] = some n
digits_from n (c ∷ s) =
    let rest = digits_from (10 * n + (c - 48)) s in if leb 48 c && leb c 57 then rest else none

abbrev pub parse_uint32 : Bytes → Option ℕ
parse_uint32 [] = none
parse_uint32 (c ∷ s) = elim (digits_from 0 (c ∷ s)) [
  | none ↦ none
  | some n ↦ if ltb n (2 ^ 32) then some n else none
]

abbrev pub set_max_inodes : Config → Option ℕ → Parsed Config
set_max_inodes cfg none = fault bad_value
set_max_inodes cfg (some n) =
    if ltb n max_inodes_floor || ltb max_inodes_ceiling n
    then fault bad_value
    else done (record cfg { max_inodes = n })

-- `applySetting`
abbrev pub setting : Config → Option (Bytes × Bytes) → Parsed Config
setting cfg none = fault bad_value
setting cfg (some (key, value)) = do
  refuse_if ((trim_space key == []) || (trim_space value == [])) bad_value
  refuse_if (not (trim_space key == codes "max_inodes")) unknown_setting
  refuse_if (not (cfg.max_inodes == 0)) duplicate_path
  set_max_inodes cfg (parse_uint32 (trim_space value))

unfoldable pub apply_setting : Config → Bytes → Parsed Config
apply_setting cfg line = setting cfg (cut_colon line)
