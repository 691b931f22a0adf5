-- ===== src/DaemonConfig/Parse/Writers/Trees.antt =====
-- internal/daemonconfig: the resources that a closed section becomes.
use app_listener.Base.{
  ◌≡◌, refl, ap, inl, inr, Bool, true, not, ◌&&◌, Option, none, some, List, [], ◌∷◌, ◌++◌, ◌==◌,
  nat_eq, list_eq, all, all-append, Bool-cases, if_cases, Bytes, arith,
}
use app_listener.DaemonConfig.{FileSystem, Resource, Config, WatchGroup, Block}
use app_listener.DaemonConfig.{
  watch_block, library_block, inspectors_block, electron_apps_block, settings_block, is_present,
}
use app_listener.DaemonConfig.Materialize.{
  take_group, add_writers, find_resource, update_resource, watch_resource, add_watched,
  validate_watch_target, may_defer, vault_root_of, defer_lib_dir, new_lib_dir, merge_lib_dir,
  add_lib_dir, add_lib_dirs, materialize_lib_dirs, materialize_watch_group, or_root, finalize_open,
  finalize_group,
}
use app_listener.DaemonConfig.Parse.Writers.Directives.{is_reader, Own, keeps_out_writers}

-- The resources so far keep writers out.
abbrev pub Guarded : List Resource → Type 0
Guarded rs = all keeps_out_writers rs ≡ true

pub Guarded-append :
    (rs : List Resource) (r : Resource)
    → Guarded rs
    → keeps_out_writers r ≡ true
    → Guarded (rs ++ r ∷ [])
Guarded-append rs r h k = ground (arith, all-append keeps_out_writers rs (r ∷ []))

abbrev pub Fresh : Option Resource → Type 0
Fresh none = Unit
Fresh (some r) = (r.binaries ≡ []) × (r.pending_binaries ≡ [])

module _ (fs : FileSystem) (g : WatchGroup) where
  pub update_resource-Guarded :
      (path : Bytes) (rs : List Resource) (r : Resource)
      → find_resource path rs ≡ some r
      → r.read_only ≡ true
      → Guarded rs
      → Guarded (update_resource path (add_writers g) rs)
  update_resource-Guarded path [] r e h k = refl
  update_resource-Guarded path (s ∷ rs) r e h k = elim (Bool-cases (s.path == path)) [
    | inl found ↦ rw found (ground arith)
    | inr other ↦ rw other (ground (arith, update_resource-Guarded path rs r))
  ]

  pub defer_lib_dir-Guarded :
      (vault dir : Bytes) (rs : List Resource)
      → Guarded rs
      → Guarded (defer_lib_dir fs g vault dir rs)
  defer_lib_dir-Guarded vault dir rs k =
      elim (Bool-cases (not (vault == []) && not (is_present (find_resource dir rs)))) [
        | inl wait ↦ rw wait (Guarded-append rs _ k refl)
        | inr skip ↦ rw skip k
      ]

  pub new_lib_dir-Guarded :
      (vault dir : Bytes) (rs : List Resource)
      → Guarded rs
      → Guarded (new_lib_dir fs g vault dir rs)
  new_lib_dir-Guarded vault dir rs k = elim (Bool-cases (validate_watch_target fs dir vault)) [
    | inl good ↦ rw good (Guarded-append rs _ k refl)
    | inr bad ↦ rw bad k
  ]

  pub merge_lib_dir-Guarded :
      (vault dir : Bytes) (o : Option Resource) (rs : List Resource)
      → find_resource dir rs ≡ o
      → Guarded rs
      → Guarded (merge_lib_dir fs g vault dir o rs)
  merge_lib_dir-Guarded vault dir none rs e k = new_lib_dir-Guarded vault dir rs k
  merge_lib_dir-Guarded vault dir (some r) rs e k = elim (Bool-cases r.read_only) [
    | inl library ↦ rw library (update_resource-Guarded dir rs r e library k)
    | inr watched ↦ rw watched k
  ]

  pub lib_dir-Guarded :
      (dir : Bytes) (rs : List Resource) → Guarded rs → Guarded (add_lib_dir fs g dir rs)
  lib_dir-Guarded dir rs k = elim (Bool-cases (is_present (fs.lstat dir))) [
    | inr absent ↦ rw absent (defer_lib_dir-Guarded (vault_root_of fs g rs dir) dir rs k)
    | inl there ↦
        rw there
          (merge_lib_dir-Guarded (vault_root_of fs g rs dir) dir (find_resource dir rs) rs refl k)
  ]

  pub lib_dirs-Guarded :
      (dirs : List Bytes) (rs : List Resource) → Guarded rs → Guarded (add_lib_dirs fs g dirs rs)
  lib_dirs-Guarded [] rs k = k
  lib_dirs-Guarded (dir ∷ dirs) rs k =
      lib_dirs-Guarded dirs (add_lib_dir fs g dir rs) (lib_dir-Guarded dir rs k)

  -- A resource that is watched has no whitelist of its own yet.
  pub watch_resource-bare :
      (grouped : Bool) (enc_root path : Bytes) → Fresh (watch_resource fs g grouped enc_root path)
  watch_resource-bare grouped enc_root path =
      elim (Bool-cases (validate_watch_target fs path enc_root)) [
        | inl good ↦ rw good (refl, refl)
        | inr bad ↦ elim (Bool-cases (grouped && may_defer fs g path)) [
          | inl wait ↦ rw (bad, wait) (refl, refl)
          | inr drop ↦ rw (bad, drop) tt
        ]
      ]

  pub take_group-keeps :
      (enc_root : Bytes) (r : Resource)
      → Own g
      → r.binaries ≡ []
      → r.pending_binaries ≡ []
      → keeps_out_writers (take_group g enc_root r) ≡ true
  take_group-keeps enc_root r own b p = ground (
    arith,
    all-append is_reader r.binaries g.binaries,
    all-append is_reader r.pending_binaries g.pending,
    ap (all is_reader) b,
    ap (all is_reader) p,
  )

  pub kept-Guarded :
      (grouped : Bool) (enc_root path : Bytes) (rs : List Resource)
      → Own g
      → Guarded rs
      → Guarded (elim (watch_resource fs g grouped enc_root path) [
        | none ↦ rs
        | some r ↦ rs ++ take_group g enc_root r ∷ []
      ])
  kept-Guarded grouped enc_root path rs own k =
      from (watch_resource fs g grouped enc_root path) (watch_resource-bare grouped enc_root path)
    where
      from :
          (o : Option Resource)
          → Fresh o
          → Guarded (elim o [ none ↦ rs | some r ↦ rs ++ take_group g enc_root r ∷ [] ])
      from none f = k
      from (some r) f = Guarded-append rs _ k (take_group-keeps enc_root r own f.0 f.1)

  pub add_watched-Guarded :
      (grouped : Bool) (enc_root : Bytes) (paths : List Bytes) (rs : List Resource)
      → Own g
      → Guarded rs
      → Guarded (add_watched fs g grouped enc_root paths rs)
  add_watched-Guarded grouped enc_root [] rs own k = k
  add_watched-Guarded grouped enc_root (path ∷ paths) rs own k =
      add_watched-Guarded grouped enc_root paths _ own (kept-Guarded grouped enc_root path rs own k)

  materialize_lib_dirs-Guarded :
      (rs : List Resource) → Guarded rs → Guarded (materialize_lib_dirs fs g rs)
  unfolding materialize_lib_dirs
  materialize_lib_dirs-Guarded rs k = lib_dirs-Guarded g.lib_dirs rs k

  materialize_watch_group-Guarded :
      (rs : List Resource) → Own g → Guarded rs → Guarded (materialize_watch_group fs g rs)
  unfolding materialize_watch_group
  materialize_watch_group-Guarded rs own k =
      materialize_lib_dirs-Guarded _
        (add_watched-Guarded _ _ (or_root fs g.root g.watch_paths) rs own k)

  finalize_open-Guarded :
      (b : Block) (cfg : Config)
      → Own g
      → Guarded cfg.resources
      → Guarded (finalize_open fs g b cfg).resources
  finalize_open-Guarded watch_block cfg own k = materialize_watch_group-Guarded cfg.resources own k
  finalize_open-Guarded library_block cfg own k = materialize_lib_dirs-Guarded cfg.resources k
  finalize_open-Guarded inspectors_block cfg own k = k
  finalize_open-Guarded electron_apps_block cfg own k = k
  finalize_open-Guarded settings_block cfg own k = k

-- What an open group must satisfy.
abbrev pub OwnGroup : Option WatchGroup → Type 0
OwnGroup none = Unit
OwnGroup (some g) = Own g

pub finalize_group-Guarded :
    (fs : FileSystem) (o : Option WatchGroup) (cfg : Config)
    → OwnGroup o
    → Guarded cfg.resources
    → Guarded (finalize_group fs o cfg).resources
unfolding finalize_group
finalize_group-Guarded fs none cfg own k = k
finalize_group-Guarded fs (some g) cfg own k =
    if_cases (λ c. Guarded c.resources) g.skipped cfg (finalize_open fs g g.block cfg) (λ skip. k)
      λ close. finalize_open-Guarded fs g g.block cfg own k
