-- ===== src/DaemonConfig/Parse/Writers.antt =====
-- internal/daemonconfig: a lib_binary rule never reaches the whitelist of a protected tree.
pub mod Directives
mod Trees
use app_listener.Base.{
  ℕ, ◌≡◌, refl, sym, ◌∙◌, ap, inl, inr, Bool, true, false, not, ◌&&◌, ◌||◌, Option, none, some,
  List, [], ◌∷◌, ◌++◌, ◌==◌, nat_eq, list_eq, if◌then◌else◌, all, all-append, all-filter,
  Option-cases, Bool-cases, if_cases, ltb, Bytes, codes, arith,
}
use app_listener.DaemonConfig.{
  Any, anything, Fault, Parsed, done, fault, ◌>>=◌, ◌>>◌, refuse_if, Ensures, Ensures-bind,
  Ensures-refuse, FileSystem, BinaryRule, Resource, Config, WatchGroup, Block,
}
use app_listener.DaemonConfig.Text.{
  cut_directive, parse_need_encryption, parse_allow_lib, parse_lib_dir, parse_lib_binary,
}
use app_listener.DaemonConfig.{
  bare_resource, new_group, watch_block, library_block, inspectors_block, electron_apps_block,
  settings_block, empty_config, default_inspectors, is_present,
}
use app_listener.DaemonConfig.Text.{parse_libraries_section}
use app_listener.Base.Strings.{has_prefix, split}
use app_listener.DaemonConfig.Parse.Runs.{parse_lines-keeps}
use app_listener.DaemonConfig.Parse.Writers.Directives.{}
use app_listener.DaemonConfig.{max_inodes_floor, max_inodes_ceiling, Ensures-done, Ensures-then}
use app_listener.DaemonConfig.Text.{
  Header, no_header, malformed, section, is_watch_directive, parse_path_directive,
  parse_watch_section, trim_space,
}
use app_listener.DaemonConfig.Materialize.{
  take_group, add_writers, lib_dir_writers, unrestricted, find_resource, update_resource,
  watch_resource, add_watched, validate_watch_target, may_defer, vault_root_of, defer_lib_dir,
  new_lib_dir, merge_lib_dir, add_lib_dir, add_lib_dirs, materialize_lib_dirs,
  materialize_watch_group, or_root, finalize_open, finalize_group,
}
use app_listener.DaemonConfig.Parse.{
  open_block, declare_block, Open, with_group, with_config, new_watch_group, place_root, watch_line,
  group_line, directive_line, header_line, block_line, apply_config_line, parse_lines, close_config,
  parse_config, parse, validate_resources, drop_return, drop_last_empty, max_line,
}
use app_listener.DaemonConfig.Rules.{
  apply_inspector, apply_electron_app, set_max_inodes, setting, cut_colon, apply_setting,
  parse_uint32, resolved_rule, resolve_rule, record_binary, record_lib_binary, apply_allow_lib,
  keep_lib, apply_lib_dir, apply_lib_binary, apply_library_block_directive, set_need_encryption,
  events_of_rest, add_binary, apply_directive, add_watch_path, path_and_rest,
}
use app_listener.DaemonConfig.Parse.Writers.Directives.{
  is_reader, all_readers, Own, keeps_out_writers, apply_directive-Own,
  apply_library_block_directive-Own, add_watch_path-Own,
}
use app_listener.DaemonConfig.Parse.Writers.Trees.{Guarded, OwnGroup, finalize_group-Guarded}

-- The open group and the configuration so far.
abbrev Kept : Open → Type 0
Kept (cfg, o) = Guarded cfg.resources × OwnGroup o

with_group-Kept :
    (cfg : Config) (m : Parsed WatchGroup)
    → Guarded cfg.resources
    → Ensures Own m
    → Ensures Kept (with_group cfg m)
with_group-Kept cfg (done g) k own = (k, own)
with_group-Kept cfg (fault e) k own = tt

-- A block that is no section adds no resource.
abbrev SameResources : Config → Config → Type 0
SameResources cfg cfg' = cfg'.resources ≡ cfg.resources

with_config-Kept :
    (g : WatchGroup) (cfg : Config) (m : Parsed Config)
    → Guarded cfg.resources
    → Own g
    → Ensures (SameResources cfg) m
    → Ensures Kept (with_config g m)
with_config-Kept g cfg (done cfg') k own e = (ap (all keeps_out_writers) e ∙ k, own)
with_config-Kept g cfg (fault x) k own e = tt

apply_inspector-resources :
    (cfg : Config) (line : Bytes) → Ensures (SameResources cfg) (apply_inspector cfg line)
unfolding apply_inspector
apply_inspector-resources cfg line =
    Ensures-bind (Any) _ (path_and_rest line) _ (anything _) λ parts h.
      Ensures-refuse _ _ _ _ λ a.
        Ensures-refuse _ _ _ _ λ b. Ensures-refuse _ _ _ _ λ c. Ensures-refuse _ _ _ _ λ d. refl

apply_electron_app-resources :
    (cfg : Config) (line : Bytes) → Ensures (SameResources cfg) (apply_electron_app cfg line)
unfolding apply_electron_app
apply_electron_app-resources cfg line =
    Ensures-bind (Any) _ (path_and_rest line) _ (anything _) λ parts h. Ensures-refuse _ _ _ _ λ a.
      Ensures-refuse _ _ _ _ λ b.
        Ensures-refuse _ _ _ _ λ c. Ensures-refuse _ _ _ _ λ d. Ensures-refuse _ _ _ _ λ f. refl

set_max_inodes-resources :
    (cfg : Config) (o : Option ℕ) → Ensures (SameResources cfg) (set_max_inodes cfg o)
set_max_inodes-resources cfg none = tt
set_max_inodes-resources cfg (some n) =
    elim (Bool-cases (ltb n max_inodes_floor || ltb max_inodes_ceiling n)) [
      | inl bad ↦ rw bad tt
      | inr good ↦ rw good refl
    ]

setting-resources :
    (cfg : Config) (o : Option (Bytes × Bytes)) → Ensures (SameResources cfg) (setting cfg o)
setting-resources cfg none = tt
setting-resources cfg (some (key, value)) = Ensures-refuse _ _ _ _ λ a.
    Ensures-refuse _ _ _ _ λ b.
      Ensures-refuse _ _ _ _ λ c. set_max_inodes-resources cfg (parse_uint32 (trim_space value))

declare_block-resources : (g : WatchGroup) (cfg : Config) → SameResources cfg (declare_block g cfg)
declare_block-resources g cfg = from g.block cfg.inspectors
  where
    from :
        (b : Block) (o : Option (List Bytes))
        → SameResources cfg (elim b [
          | inspectors_block ↦ elim o [ none ↦ record cfg { inspectors = some [] } | some l ↦ cfg ]
          | _ ↦ cfg
        ])
    from watch_block o = refl
    from library_block o = refl
    from inspectors_block none = refl
    from inspectors_block (some l) = refl
    from electron_apps_block o = refl
    from settings_block o = refl

open_block-Own : (line : Bytes) → OwnGroup (open_block line)
unfolding open_block
open_block-Own line =
    if_cases OwnGroup (is_present (parse_libraries_section line)) _ _ (λ a. refl)
      λ b.
        if_cases OwnGroup (line == codes "[inspectors]") _ _ (λ a. refl)
          λ c.
            if_cases OwnGroup (line == codes "[electron_apps]") _ _ (λ a. refl)
              λ d. if_cases OwnGroup (line == codes "[settings]") _ _ (λ a. refl) (λ f. tt)

module _ (fs : FileSystem) where
  place_root-Own : (g : WatchGroup) (o : Option Bytes) → Own g → Own (place_root fs g o)
  place_root-Own g none own = own
  place_root-Own g (some p) own = own

  watch_line-Own : (g : WatchGroup) (line : Bytes) → Own g → Ensures Own (watch_line fs g line)
  watch_line-Own g line own =
      if_cases Q g.skipped (done g) _ (λ skip. own)
        λ live.
          if_cases Q (is_watch_directive line) (add_watch_path g line) _
            (λ watch. add_watch_path-Own g line own)
            λ other.
              if_cases Q (g.root == []) (done (place_root fs g (parse_path_directive line)))
                (apply_directive fs g line)
                (λ bare. place_root-Own g (parse_path_directive line) own)
                λ placed. apply_directive-Own fs g line own
    where
      Q : Parsed WatchGroup → Type 0
      Q m = Ensures Own m

  group_line-Kept :
      (cfg : Config) (g : WatchGroup) (b : Block) (line : Bytes)
      → Kept (cfg, some g)
      → Ensures Kept (group_line fs cfg g b line)
  unfolding apply_setting
  group_line-Kept cfg g watch_block line (k, own) =
      with_group-Kept cfg _ k (watch_line-Own g line own)
  group_line-Kept cfg g library_block line (k, own) =
      with_group-Kept cfg _ k (apply_library_block_directive-Own fs g line own)
  group_line-Kept cfg g inspectors_block line (k, own) =
      with_config-Kept g cfg _ k own (apply_inspector-resources cfg line)
  group_line-Kept cfg g electron_apps_block line (k, own) =
      with_config-Kept g cfg _ k own (apply_electron_app-resources cfg line)
  group_line-Kept cfg g settings_block line (k, own) =
      with_config-Kept g cfg _ k own (setting-resources cfg (cut_colon line))

  directive_line-Kept : (o : Open) (line : Bytes) → Kept o → Ensures Kept (directive_line fs o line)
  directive_line-Kept (cfg, none) line k = k
  directive_line-Kept (cfg, some g) line k = group_line-Kept cfg g g.block line k

  new_watch_group-Own : (path : Bytes) → Own (new_watch_group fs path)
  unfolding new_watch_group
  new_watch_group-Own [] = refl
  new_watch_group-Own (c ∷ path) = refl

  header_line-Kept :
      (o : Open) (h : Header) (line : Bytes) → Kept o → Ensures Kept (header_line fs o h line)
  header_line-Kept o malformed line k = tt
  header_line-Kept (cfg, group) (section path) line (k, own) =
      (finalize_group-Guarded fs group cfg own k, new_watch_group-Own path)
  header_line-Kept o no_header line k = directive_line-Kept o line k

  block_line-Kept :
      (o : Open) (next : Option WatchGroup) (line : Bytes)
      → OwnGroup next
      → Kept o
      → Ensures Kept (block_line fs o next line)
  block_line-Kept (cfg, group) (some next) line own' (k, own) = (
    finalize_group-Guarded fs group _ own
        (ap (all keeps_out_writers) (declare_block-resources next cfg) ∙ k),
    own',
  )
  block_line-Kept o none line own' k = header_line-Kept o (parse_watch_section line) line k

  apply_config_line-Kept :
      (o : Open) (line : Bytes) → Kept o → Ensures Kept (apply_config_line fs o line)
  unfolding apply_config_line
  apply_config_line-Kept o line k = block_line-Kept o (open_block line) line (open_block-Own line) k

  close_config-resources :
      (cfg : Config) (group : Option WatchGroup)
      → SameResources (finalize_group fs group cfg) (close_config fs (cfg, group))
  close_config-resources cfg group = from (finalize_group fs group cfg).inspectors
    where
      from :
          (o : Option (List Bytes))
          → SameResources (finalize_group fs group cfg) (elim o [
            | none ↦ record (finalize_group fs group cfg) {
              inspectors = some default_inspectors;
              inspectors_default = true;
            }
            | some l ↦ finalize_group fs group cfg
          ])
      from none = refl
      from (some l) = refl

  close_config-Guarded : (o : Open) → Kept o → Guarded (close_config fs o).resources
  close_config-Guarded (cfg, group) (k, own) =
      ap (all keeps_out_writers) (close_config-resources cfg group)
      ∙ finalize_group-Guarded fs group cfg own k

  parse_config-Guarded :
      (raw : Bytes) → Ensures (λ cfg. Guarded cfg.resources) (parse_config fs raw)
  unfolding parse_config
  parse_config-Guarded raw =
      Ensures-bind Kept _ _ _
        (parse_lines-keeps fs Kept apply_config_line-Kept (empty_config, none) _ (refl, tt))
        λ last k. close_config-Guarded last k

-- Whatever the text of the configuration is, when `Parse` accepts it, no `lib_binary` rule stands in the
-- whitelist, pending or not, of a resource that is not read-only: a library writer gets no access to a
-- protected tree.
pub parse-Guarded :
    (fs : FileSystem) (raw : Bytes) (cfg : Config)
    → parse fs raw ≡ done cfg
    → all keeps_out_writers cfg.resources ≡ true
unfolding parse
parse-Guarded fs raw cfg e =
    Ensures-done (λ c. Guarded c.resources) _ cfg
      (Ensures-bind (λ c. Guarded c.resources) _ _ _ (parse_config-Guarded fs raw)
        λ c k. Ensures-then (λ c. Guarded c.resources) (validate_resources fs c) _ λ h. k)
      e
