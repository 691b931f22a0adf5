-- ===== src/Samples/Configs.antt =====
-- Concrete runs of the daemon's configuration.
use app_listener.Base.{
  ◌≡◌, map, if◌then◌else◌, ◌==◌, nat_eq, list_eq, refl, Bool, true, false, some, List, [], ◌∷◌,
  ◌++◌, all, get_elem?, Bytes, codes, arith,
}
use app_listener.Base.Strings.{split}
use app_listener.DaemonConfig.{
  directory, symlink, FileSystem, Parsed, done, fault, ◌>>=◌, ◌>>◌, refuse_if, Config, empty_config,
  Resource, bare_resource,
}
use app_listener.EventNames.{parse_event_type}
use app_listener.DaemonConfig.Text.{
  is_inside_path, trim_space, unquote_path, split_path_and_rest, cut_directive, parse_watch_section,
  parse_libraries_section, clean,
}
use app_listener.DaemonConfig.Rules.{
  listed, parse_events, resolve_rule, apply_allow_lib, apply_lib_dir, apply_lib_binary,
  apply_directive, apply_library_block_directive, add_watch_path, apply_setting,
}
use app_listener.DaemonConfig.Materialize.{
  lib_dir_writers, reject_symlinked_components, validate_watch_target, vault_root_of,
  materialize_lib_dirs, materialize_watch_group, finalize_group,
}
use app_listener.DaemonConfig.Parse.{
  parse, parse_config, parse_lines, apply_config_line, open_block, new_watch_group,
  validate_resources, resolved_paths, resolve_pending,
}
use app_listener.DaemonConfig.Parse.Writers.{parse-Guarded}
use app_listener.DaemonConfig.Parse.Writers.Directives.{keeps_out_writers}
use app_listener.DaemonConfig.Parse.Limits.{within_limits, parse-Within}
use app_listener.DaemonConfig.Parse.Roots.{Apart, parse-Apart}
use app_listener.DaemonConfig.Parse.Pending.{settle, resolve_pending-settle}

-- A file system on which every path is a directory and no link.
abbrev plain_files : FileSystem
plain_files = record {
  lstat = λ p. some directory;
  stat_ok = λ p. true;
  resolve_confined = λ p. some p;
  eval_symlinks = λ p. some p;
}

abbrev line : Bytes → Bytes → Bytes
line s rest = s ++ 10 ∷ rest

abbrev sample_text : Bytes
sample_text = line (codes "[watch /srv/db]") (
    line (codes "/usr/bin/db READ") (
      line (codes "lib_dir: /opt/db") (
        line (codes "lib_binary: /usr/bin/up") (
          line (codes "[watch /srv/web]") (
            line (codes "/usr/bin/web") (line (codes "[settings]") (codes "max_inodes: 65536")))))))

abbrev answer : Parsed Config → Config
answer (done c) = c
answer (fault e) = empty_config

abbrev sample_config : Config
sample_config = answer (parse plain_files sample_text)

sample_runs : parse plain_files sample_text ≡ done sample_config
unfolding parse parse_config parse_lines apply_config_line open_block new_watch_group
    validate_resources trim_space unquote_path split_path_and_rest cut_directive parse_watch_section
    parse_libraries_section is_inside_path clean split parse_events resolve_rule apply_allow_lib
    apply_lib_dir apply_lib_binary apply_directive apply_library_block_directive add_watch_path
    apply_setting lib_dir_writers reject_symlinked_components validate_watch_target vault_root_of
    materialize_lib_dirs materialize_watch_group finalize_group ◌>>=◌ ◌>>◌ refuse_if
    parse_event_type
sample_runs = refl

parse-Guarded_example : all keeps_out_writers sample_config.resources ≡ true
parse-Guarded_example = parse-Guarded plain_files sample_text sample_config sample_runs

parse-Within_example :
    within_limits
      (listed sample_config.inspectors)
      sample_config.electron_apps
      sample_config.max_inodes
    ≡ true
parse-Within_example = parse-Within plain_files sample_text sample_config sample_runs

abbrev sample_roots : List Bytes
sample_roots = resolved_paths plain_files sample_config.resources

sample_root_db : get_elem? sample_roots 0 ≡ some (codes "/srv/db")
unfolding parse parse_config parse_lines apply_config_line open_block new_watch_group
    validate_resources trim_space unquote_path split_path_and_rest cut_directive parse_watch_section
    parse_libraries_section is_inside_path clean split parse_events resolve_rule apply_allow_lib
    apply_lib_dir apply_lib_binary apply_directive apply_library_block_directive add_watch_path
    apply_setting lib_dir_writers reject_symlinked_components validate_watch_target vault_root_of
    materialize_lib_dirs materialize_watch_group finalize_group ◌>>=◌ ◌>>◌ refuse_if
    parse_event_type
sample_root_db = refl

sample_root_web : get_elem? sample_roots 2 ≡ some (codes "/srv/web")
unfolding parse parse_config parse_lines apply_config_line open_block new_watch_group
    validate_resources trim_space unquote_path split_path_and_rest cut_directive parse_watch_section
    parse_libraries_section is_inside_path clean split parse_events resolve_rule apply_allow_lib
    apply_lib_dir apply_lib_binary apply_directive apply_library_block_directive add_watch_path
    apply_setting lib_dir_writers reject_symlinked_components validate_watch_target vault_root_of
    materialize_lib_dirs materialize_watch_group finalize_group ◌>>=◌ ◌>>◌ refuse_if
    parse_event_type
sample_root_web = refl

parse-Apart_example : Apart (codes "/srv/db") (codes "/srv/web")
parse-Apart_example =
    parse-Apart plain_files sample_text sample_config 0 2 (codes "/srv/db") (codes "/srv/web")
      sample_runs sample_root_db sample_root_web (omega arith)

-- A tree inside a guarded `/` is accepted.
abbrev root_text : Bytes
root_text = line (codes "[watch /]") (codes "[watch /srv]")

root_runs :
    map (λ r. r.path) (answer (parse plain_files root_text)).resources
    ≡ codes "/" ∷ codes "/srv" ∷ []
unfolding parse parse_config parse_lines apply_config_line open_block new_watch_group
    validate_resources trim_space unquote_path split_path_and_rest cut_directive parse_watch_section
    parse_libraries_section is_inside_path clean split lib_dir_writers reject_symlinked_components
    validate_watch_target vault_root_of materialize_lib_dirs materialize_watch_group finalize_group
    ◌>>=◌ ◌>>◌ refuse_if
root_runs = refl

-- A relative path that begins with two dots escapes the search for symlinks.
abbrev one_link : FileSystem
one_link = record plain_files {
  lstat = λ p. if p == codes "/vault/..x/l" then some symlink else some directory;
}

dots_watched : validate_watch_target one_link (codes "/vault/..x/l/y") (codes "/vault") ≡ true
unfolding validate_watch_target reject_symlinked_components clean split
dots_watched = refl

abbrev waiting : Bytes → Bool → Resource
waiting path library = record (bare_resource path) { path_pending = true; read_only = library }

resolve_pending-settle_example :
    resolve_pending plain_files
      (waiting (codes "/srv/a") false ∷ waiting (codes "/srv/b") true ∷ [])
    ≡ settle plain_files (waiting (codes "/srv/a") false ∷ waiting (codes "/srv/b") true ∷ [])
resolve_pending-settle_example =
    resolve_pending-settle plain_files
      (waiting (codes "/srv/a") false ∷ waiting (codes "/srv/b") true ∷ [])
