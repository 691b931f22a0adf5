-- ===== src/DaemonConfig/Materialize.antt =====
-- internal/daemonconfig: a closed section becomes guarded resources.
use app_listener.Base.{
  Bool, true, false, not, ◌&&◌, ◌||◌, Option, none, some, List, [], ◌∷◌, ◌++◌, ◌==◌, nat_eq,
  list_eq, if◌then◌else◌, ltb, filter, Bytes, codes,
}
use app_listener.Base.Strings.{has_prefix, split}
use app_listener.DaemonConfig.{
  FileKind, directory, symlink, special, regular, is_directory, is_symlink, is_present, FileSystem,
  BinaryRule, Resource, bare_resource, Config, WatchGroup, Block, watch_block, library_block,
  inspectors_block, electron_apps_block, settings_block,
}
use app_listener.DaemonConfig.Text.{cut_prefix, is_inside_path, clean}

-- `filepath.Rel` of a path below the root; none for the root and for any other path, whose `Rel` is an error,
-- `.`, or begins with `..`.
abbrev pub relative : Bytes → Bytes → Option Bytes
relative root path =
    if clean root == codes "/"
    then cut_prefix (clean path) (codes "/")
    else cut_prefix (clean path) (clean root ++ 47 ∷ [])

-- `libDirWriters`
abbrev pub unrestricted : BinaryRule → Bool
unrestricted r = r.events == []

unfoldable pub lib_dir_writers : List BinaryRule → List BinaryRule
lib_dir_writers rules = filter unrestricted rules

-- `findResource`
abbrev pub find_resource : Bytes → List Resource → Option Resource
find_resource path [] = none
find_resource path (r ∷ rs) =
    let rest = find_resource path rs in if r.path == path then some r else rest

-- A change of that resource.
abbrev pub update_resource : Bytes → (Resource → Resource) → List Resource → List Resource
update_resource path f [] = []
update_resource path f (r ∷ rs) =
    let rest = update_resource path f rs in if r.path == path then f r ∷ rs else r ∷ rest

-- A lib_dir's writers: the section's unrestricted binaries, and its lib_binary rules.
abbrev pub add_writers : WatchGroup → Resource → Resource
add_writers g r = record r {
  binaries = (r.binaries ++ lib_dir_writers g.binaries) ++ g.lib_binaries;
  pending_binaries = (r.pending_binaries ++ lib_dir_writers g.pending) ++ g.lib_pending;
}

-- What a resource takes of its section.
abbrev pub take_group : WatchGroup → Bytes → Resource → Resource
take_group g enc_root r = record r {
  need_encryption = g.need_encryption;
  encryption_root = enc_root;
  binaries = r.binaries ++ g.binaries;
  pending_binaries = r.pending_binaries ++ g.pending;
  allow_libs = r.allow_libs ++ g.libs;
  pending_libs = r.pending_libs ++ g.pending_libs;
}

module _ (fs : FileSystem) where
  -- The loop of `rejectSymlinkedComponents`: true is a refusal; the last part is not looked at.
  abbrev pub rejects_from : Bytes → List Bytes → Bool
  rejects_from cur [] = false
  rejects_from cur (seg ∷ []) = false
  rejects_from cur (seg ∷ next ∷ segs) =
      let skip = rejects_from cur (next ∷ segs) in
      let cur' = clean (cur ++ 47 ∷ seg) in
      let more = rejects_from cur' (next ∷ segs) in
      if (seg == []) || (seg == codes ".") then skip else elim (fs.lstat cur') [
        | none ↦ false
        | some kind ↦ if is_symlink kind then true else more
      ]

  -- `rejectSymlinkedComponents`
  unfoldable pub reject_symlinked_components : Bytes → Bytes → Bool
  reject_symlinked_components enc_root target = elim (relative enc_root target) [
    | none ↦ false
    | some rel ↦ if has_prefix rel (codes "..") then false else rejects_from enc_root (split 47 rel)
  ]

  abbrev pub can_watch : Option FileKind → Bool
  can_watch none = false
  can_watch (some directory) = true
  can_watch (some symlink) = false
  can_watch (some special) = false
  can_watch (some (regular links)) = not (ltb 1 links)

  -- `validateWatchTarget`
  unfoldable pub validate_watch_target : Bytes → Bytes → Bool
  validate_watch_target path enc_root =
      (enc_root == [] || not (reject_symlinked_components enc_root path))
      && can_watch (fs.lstat path)

  -- `deferPendingWatchPath`: the path is invisible, below a root that is a directory.
  abbrev pub may_defer : WatchGroup → Bytes → Bool
  may_defer g path =
      g.need_encryption && (not (is_present (fs.lstat path)) && is_directory (fs.lstat g.root))

  -- `addResource`, or the resource that waits for its vault.
  abbrev pub watch_resource : WatchGroup → Bool → Bytes → Bytes → Option Resource
  watch_resource g grouped enc_root path =
      if validate_watch_target path enc_root
      then some (bare_resource path)
      else if grouped && may_defer g path
      then some (record (bare_resource path) { path_pending = true })
      else none

  -- The loop of `materializeWatchGroup`.
  abbrev pub add_watched : WatchGroup → Bool → Bytes → List Bytes → List Resource → List Resource
  add_watched g grouped enc_root [] rs = rs
  add_watched g grouped enc_root (path ∷ paths) rs =
      add_watched g grouped enc_root paths (elim (watch_resource g grouped enc_root path) [
        | none ↦ rs
        | some r ↦ rs ++ take_group g enc_root r ∷ []
      ])

  -- `vaultRootOf`: `[]` where there is no vault.
  abbrev pub vault_in : Bytes → List Resource → Bytes
  vault_in dir [] = []
  vault_in dir (r ∷ rs) =
      let rest = vault_in dir rs in
      if (r.need_encryption && not (r.encryption_root == []))
        && (is_inside_path dir r.encryption_root && is_directory (fs.lstat r.encryption_root))
      then r.encryption_root
      else rest

  unfoldable pub vault_root_of : WatchGroup → List Resource → Bytes → Bytes
  vault_root_of g rs dir =
      if g.need_encryption && (not (g.watch_paths == []) && is_inside_path dir g.root)
      then g.root
      else vault_in dir rs

  -- A lib_dir that is not there yet waits for its vault, or is ignored.
  abbrev pub defer_lib_dir : WatchGroup → Bytes → Bytes → List Resource → List Resource
  defer_lib_dir g vault dir rs =
      if not (vault == []) && not (is_present (find_resource dir rs))
      then rs
        ++ add_writers g (record (bare_resource dir) {
          encryption_root = vault;
          path_pending = true;
          read_only = true;
        })
          ∷ []
      else rs

  abbrev pub new_lib_dir : WatchGroup → Bytes → Bytes → List Resource → List Resource
  new_lib_dir g vault dir rs =
      if validate_watch_target dir vault
      then rs
        ++ add_writers g (record (bare_resource dir) {
          need_encryption = not (vault == []);
          encryption_root = vault;
          read_only = true;
        })
          ∷ []
      else rs

  -- A lib_dir merges into another lib_dir only.
  abbrev pub merge_lib_dir :
      WatchGroup → Bytes → Bytes → Option Resource → List Resource → List Resource
  merge_lib_dir g vault dir none rs = new_lib_dir g vault dir rs
  merge_lib_dir g vault dir (some existing) rs =
      if not existing.read_only then rs else update_resource dir (add_writers g) rs

  -- The loop body of `materializeLibDirs`.
  abbrev pub add_lib_dir : WatchGroup → Bytes → List Resource → List Resource
  add_lib_dir g dir rs =
      let vault = vault_root_of g rs dir in
      if not (is_present (fs.lstat dir))
      then defer_lib_dir g vault dir rs
      else merge_lib_dir g vault dir (find_resource dir rs) rs

  abbrev pub add_lib_dirs : WatchGroup → List Bytes → List Resource → List Resource
  add_lib_dirs g [] rs = rs
  add_lib_dirs g (dir ∷ dirs) rs = add_lib_dirs g dirs (add_lib_dir g dir rs)

  -- `materializeLibDirs`
  unfoldable pub materialize_lib_dirs : WatchGroup → List Resource → List Resource
  materialize_lib_dirs g rs = add_lib_dirs g g.lib_dirs rs

  abbrev pub or_root : Bytes → List Bytes → List Bytes
  or_root root [] = root ∷ []
  or_root root (p ∷ ps) = p ∷ ps

  -- `materializeWatchGroup`
  unfoldable pub materialize_watch_group : WatchGroup → List Resource → List Resource
  materialize_watch_group g rs =
      let grouped = not (g.watch_paths == []) in
      materialize_lib_dirs g
        (add_watched g grouped (if grouped then g.root else []) (or_root g.root g.watch_paths) rs)

  abbrev pub finalize_open : WatchGroup → Block → Config → Config
  finalize_open g watch_block cfg = record cfg {
    resources = materialize_watch_group g cfg.resources;
  }
  finalize_open g library_block cfg = record cfg {
    shared_allow_libs = (cfg.shared_allow_libs ++ g.libs) ++ g.pending_libs;
    resources = materialize_lib_dirs g cfg.resources;
  }
  finalize_open g inspectors_block cfg = cfg
  finalize_open g electron_apps_block cfg = cfg
  finalize_open g settings_block cfg = cfg

  -- `finalizeGroup`
  unfoldable pub finalize_group : Option WatchGroup → Config → Config
  finalize_group none cfg = cfg
  finalize_group (some g) cfg = if g.skipped then cfg else finalize_open g g.block cfg
