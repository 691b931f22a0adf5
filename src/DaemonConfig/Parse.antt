-- ===== src/DaemonConfig/Parse.antt =====
-- internal/daemonconfig: `Parse`, line by line, and the checks of a whole configuration.
pub mod Writers
pub mod Limits
pub mod Runs
pub mod Roots
pub mod Pending
use app_listener.Base.{
  ℕ, zero, suc, ◌+◌, ◌^◌, Bool, true, false, not, ◌&&◌, ◌||◌, Option, none, some, List, [], ◌∷◌,
  ◌++◌, ◌==◌, nat_eq, list_eq, if◌then◌else◌, leb, length, reverse, contains, Bytes, codes,
}
use app_listener.Base.Strings.{has_prefix, split}
use app_listener.DaemonConfig.{
  Fault, malformed_header, duplicate_path, same_directory, nested_root, unusable_path, too_long,
  Parsed, done, fault, ◌>>=◌, ◌>>◌, refuse_if, is_present, FileSystem, Resource, Config,
  empty_config, default_inspectors, WatchGroup, new_group, Block, watch_block, library_block,
  inspectors_block, electron_apps_block, settings_block,
}
use app_listener.DaemonConfig.Text.{
  trim_space, parse_path_directive, is_watch_directive, watch_path_of, Header, no_header, malformed,
  section, parse_watch_section, parse_libraries_section, is_inside_path, clean,
}
use app_listener.DaemonConfig.Rules.{
  apply_directive, apply_library_block_directive, add_watch_path, apply_inspector,
  apply_electron_app, apply_setting,
}
use app_listener.DaemonConfig.Materialize.{validate_watch_target, finalize_group}

-- The lines that `bufio.Scanner` gives: a last empty one is dropped, and so is a carriage return.
abbrev pub drop_return : Bytes → Bytes
drop_return [] = []
drop_return (c ∷ []) = if c == 13 then [] else c ∷ []
drop_return (c ∷ d ∷ s) = c ∷ drop_return (d ∷ s)

abbrev pub drop_last_empty : List Bytes → List Bytes
drop_last_empty [] = []
drop_last_empty ([] ∷ []) = []
drop_last_empty ((c ∷ s) ∷ []) = (c ∷ s) ∷ []
drop_last_empty (l ∷ m ∷ ls) = l ∷ drop_last_empty (m ∷ ls)

-- A line that fills the scanner's buffer ends the scan with an error.
abbrev pub max_line : ℕ
max_line = 2 ^ 16

-- `openBlock`
unfoldable pub open_block : Bytes → Option WatchGroup
open_block line =
    if is_present (parse_libraries_section line)
    then some (new_group library_block [] false)
    else if line == codes "[inspectors]"
    then some (new_group inspectors_block [] false)
    else if line == codes "[electron_apps]"
    then some (new_group electron_apps_block [] false)
    else if line == codes "[settings]"
    then some (new_group settings_block [] false)
    else none

-- An [inspectors] header declares the list, be it empty.
abbrev pub declare_block : WatchGroup → Config → Config
declare_block g cfg = elim g.block [
  | inspectors_block ↦ elim cfg.inspectors [
    | none ↦ record cfg { inspectors = some [] }
    | some l ↦ cfg
  ]
  | _ ↦ cfg
]

-- The configuration and the open group.
abbrev pub Open : Type 0
Open = Config × Option WatchGroup

abbrev pub with_group : Config → Parsed WatchGroup → Parsed Open
with_group cfg (fault e) = fault e
with_group cfg (done g) = done (cfg, some g)

abbrev pub with_config : WatchGroup → Parsed Config → Parsed Open
with_config g (fault e) = fault e
with_config g (done cfg) = done (cfg, some g)

module _ (fs : FileSystem) where
  -- `newWatchGroup`
  unfoldable pub new_watch_group : Bytes → WatchGroup
  new_watch_group [] = new_group watch_block [] false
  new_watch_group (c ∷ path) =
      new_group watch_block (c ∷ path) (not (is_present (fs.lstat (c ∷ path))))

  -- A directive of the TUI's placeholder section.
  abbrev pub place_root : WatchGroup → Option Bytes → WatchGroup
  place_root g none = g
  place_root g (some path) = record g {
    root = path;
    skipped = g.skipped || not (is_present (fs.lstat path));
  }

  -- A directive of a section.
  abbrev pub watch_line : WatchGroup → Bytes → Parsed WatchGroup
  watch_line g line =
      if g.skipped
      then done g
      else if is_watch_directive line
      then add_watch_path g line
      else if g.root == []
      then done (place_root g (parse_path_directive line))
      else apply_directive fs g line

  abbrev pub group_line : Config → WatchGroup → Block → Bytes → Parsed Open
  group_line cfg g watch_block line = with_group cfg (watch_line g line)
  group_line cfg g library_block line = with_group cfg (apply_library_block_directive fs g line)
  group_line cfg g inspectors_block line = with_config g (apply_inspector cfg line)
  group_line cfg g electron_apps_block line = with_config g (apply_electron_app cfg line)
  group_line cfg g settings_block line = with_config g (apply_setting cfg line)

  -- A line that is no header; outside any section it is ignored.
  abbrev pub directive_line : Open → Bytes → Parsed Open
  directive_line (cfg, none) line = done (cfg, none)
  directive_line (cfg, some g) line = group_line cfg g g.block line

  abbrev pub header_line : Open → Header → Bytes → Parsed Open
  header_line o malformed line = fault malformed_header
  header_line (cfg, group) (section path) line =
      done (finalize_group fs group cfg, some (new_watch_group path))
  header_line o no_header line = directive_line o line

  abbrev pub block_line : Open → Option WatchGroup → Bytes → Parsed Open
  block_line (cfg, group) (some next) line =
      done (finalize_group fs group (declare_block next cfg), some next)
  block_line o none line = header_line o (parse_watch_section line) line

  -- `applyConfigLine`
  unfoldable pub apply_config_line : Open → Bytes → Parsed Open
  apply_config_line o line = block_line o (open_block line) line

  -- The loop of `parseConfig`.
  unfoldable pub parse_lines : Open → List Bytes → Parsed Open
  parse_lines o [] = done o
  parse_lines o (l ∷ ls) = do
    refuse_if (leb max_line (length l)) too_long
    next ←
        (let line = trim_space (drop_return l) in
          if (line == []) || has_prefix line (codes "#") then done o else apply_config_line o line)
    parse_lines next ls

  -- The end of `parseConfig`: without its block, the default inspectors.
  abbrev pub close_config : Open → Config
  close_config (cfg, group) =
      let closed = finalize_group fs group cfg in
      elim closed.inspectors [
        | none ↦ record closed { inspectors = some default_inspectors; inspectors_default = true }
        | some l ↦ closed
      ]

  unfoldable pub parse_config : Bytes → Parsed Config
  parse_config raw = do
    last ← parse_lines (empty_config, none) (drop_last_empty (split 10 raw))
    done (close_config last)

  -- `resolved[i]`
  abbrev pub resolved_path : Resource → Bytes
  resolved_path r = elim (fs.eval_symlinks r.path) [ none ↦ clean r.path | some target ↦ target ]

  abbrev pub resolved_paths : List Resource → List Bytes
  resolved_paths [] = []
  resolved_paths (r ∷ rs) = resolved_path r ∷ resolved_paths rs

-- The first loop of `validateResources`.
abbrev pub no_repeats : List Bytes → List Resource → Parsed (Unit {0})
no_repeats seen [] = done tt
no_repeats seen (r ∷ rs) = do
  refuse_if (contains seen r.path) duplicate_path
  no_repeats (r.path ∷ seen) rs

-- Its inner loop: root `a` at place `i` against the roots from place `j` on.
abbrev pub no_clash : ℕ → Bytes → ℕ → List Bytes → Parsed (Unit {0})
no_clash i a j [] = done tt
no_clash i a j (b ∷ bs) = do
  refuse_if (not (i == j) && (a == b)) same_directory
  refuse_if (not (i == j) && is_inside_path a b) nested_root
  no_clash i a (suc j) bs

abbrev pub no_clashes : ℕ → List Bytes → List Bytes → Parsed (Unit {0})
no_clashes i [] all = done tt
no_clashes i (a ∷ as') all = do no_clash i a 0 all; no_clashes (suc i) as' all

-- `validateResources`
unfoldable pub validate_resources : FileSystem → Config → Parsed (Unit {0})
validate_resources fs cfg = do
  no_repeats [] cfg.resources
  no_clashes 0 (resolved_paths fs cfg.resources) (resolved_paths fs cfg.resources)

-- `Parse`
unfoldable pub parse : FileSystem → Bytes → Parsed Config
parse fs raw = do cfg ← parse_config fs raw; validate_resources fs cfg; done cfg

-- The loop of `ResolvePendingPaths`.
abbrev pub resolve_pending : FileSystem → List Resource → Parsed (List Resource)
resolve_pending fs [] = done []
resolve_pending fs (r ∷ rs) =
    if not r.path_pending
    then (do kept ← resolve_pending fs rs; done (r ∷ kept))
    else if validate_watch_target fs r.path r.encryption_root
    then (do kept ← resolve_pending fs rs; done (record r { path_pending = false } ∷ kept))
    else if not r.read_only
    then fault unusable_path
    else resolve_pending fs rs

-- `ResolvePendingPaths`
unfoldable pub resolve_pending_paths : FileSystem → Config → Parsed Config
resolve_pending_paths fs cfg = do
  kept ← resolve_pending fs cfg.resources
  done (record cfg { resources = kept })

-- `EncryptionRootOrPath`
abbrev pub encryption_root_or_path : Resource → Bytes
encryption_root_or_path r = if not (r.encryption_root == []) then r.encryption_root else r.path

-- `EncryptionGroups`, after the roots `seen`.
abbrev pub groups_from : List Bytes → List Resource → List Resource
groups_from seen [] = []
groups_from seen (r ∷ rs) =
    let skip = groups_from seen rs in
    let rest = groups_from (encryption_root_or_path r ∷ seen) rs in
    if r.read_only || contains seen (encryption_root_or_path r) then skip else r ∷ rest

unfoldable pub encryption_groups : Config → List Resource
encryption_groups cfg = groups_from [] cfg.resources

-- What `DeclaredPaths` reads of one trimmed line.
abbrev pub watch_declared : Bytes → List Bytes
watch_declared line =
    if is_watch_directive line
    then if watch_path_of line == [] then [] else clean (watch_path_of line) ∷ []
    else []

abbrev pub path_declared : Bytes → Option Bytes → List Bytes
path_declared line (some p) = p ∷ []
path_declared line none = watch_declared line

abbrev pub declared_in : Bytes → Header → List Bytes
declared_in line (section (c ∷ p)) = (c ∷ p) ∷ []
declared_in line _ = path_declared line (parse_path_directive line)

-- `DeclaredPaths`, over the scanner's lines.
unfoldable pub declared_paths : List Bytes → List Bytes
declared_paths [] = []
declared_paths (l ∷ ls) =
    let line = trim_space (drop_return l) in
    declared_in line (parse_watch_section line) ++ declared_paths ls
