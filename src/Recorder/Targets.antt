-- ===== src/Recorder/Targets.antt =====
-- internal/recorder: which paths a recording may cover, `ValidateTargets`.
pub mod Apart
use app_listener.Base.{
  ℕ, suc, Bool, true, false, not, ◌&&◌, ◌||◌, Option, none, some, List, [], ◌∷◌, ◌++◌, ◌==◌, nat_eq,
  list_eq, if◌then◌else◌, ltb, leb, length, any, contains, map, filter, Bytes, codes,
}
use app_listener.Base.Strings.{has_prefix}
use app_listener.DaemonConfig.{
  FileKind, directory, symlink, special, regular, FileSystem, BinaryRule, Resource, Config,
}
use app_listener.DaemonConfig.Text.{clean, is_abs, has_suffix}
use app_listener.DaemonConfig.Parse.{encryption_root_or_path}
use app_listener.EventNames.{name_of}
use app_listener.Recorder.{ExistingRule, Existing, Target}

-- `MaxTargets`
abbrev pub max_targets : ℕ
max_targets = 32

-- `refusedTrees` and `refusedExact`
abbrev pub refused_trees : List Bytes
refused_trees =
    codes "/proc"
    ∷ codes "/sys"
    ∷ codes "/dev"
    ∷ codes "/run"
    ∷ codes "/boot"
    ∷ codes "/usr"
    ∷ codes "/bin"
    ∷ codes "/sbin"
    ∷ codes "/lib"
    ∷ codes "/lib32"
    ∷ codes "/lib64"
    ∷ codes "/libx32"
    ∷ codes "/etc/app-listener"
    ∷ codes "/var/lib/app-listener"
    ∷ codes "/var/run"
    ∷ codes "/var/lock"
    ∷ []

abbrev pub refused_exact : List Bytes
refused_exact =
    codes "/"
    ∷ codes "/etc"
    ∷ codes "/home"
    ∷ codes "/var"
    ∷ codes "/opt"
    ∷ codes "/srv"
    ∷ codes "/mnt"
    ∷ codes "/media"
    ∷ codes "/tmp"
    ∷ codes "/var/tmp"
    ∷ codes "/root"
    ∷ codes "/snap"
    ∷ codes "/nix"
    ∷ []

-- A path below another one.
abbrev pub is_below : Bytes → Bytes → Bool
is_below p t = has_prefix p (t ++ codes "/")

-- `refusedPath`; true is an error.
unfoldable pub refused_path : Bytes → List Bytes → Bool
refused_path p homes =
    contains refused_exact p
    || (any (λ t. ((p == t) || is_below p t) || is_below t p) refused_trees
        || any (λ h. not (h == []) && (clean h == p)) homes)

-- `overlaps`
unfoldable pub overlaps : Bytes → Bytes → Bool
overlaps a b = (a == b) || (is_below a b || is_below b a)

-- The first loop of `guardedMatch`: the resource that guards exactly the path, with its place.
abbrev pub match_from : ℕ → Bytes → List Resource → Option (ℕ × Resource)
match_from i p [] = none
match_from i p (r ∷ rs) =
    let rest = match_from (suc i) p rs in if r.path == p then some (i, r) else rest

-- Its second loop: true is an overlap with another resource that is refused.
abbrev pub own_root : Option (ℕ × Resource) → Bytes → Bool
own_root none g = false
own_root (some (i, r)) g = g == r.encryption_root

abbrev pub is_match : Option (ℕ × Resource) → ℕ → Bool
is_match none j = false
is_match (some (i, r)) j = i == j

abbrev pub clashes_with : Bytes → Option (ℕ × Resource) → Bytes → Bool
clashes_with p found g = not (g == []) && (overlaps p g && not (own_root found g))

abbrev pub clashes_from : ℕ → Bytes → Option (ℕ × Resource) → List Resource → Bool
clashes_from j p found [] = false
clashes_from j p found (r ∷ rs) =
    (not (is_match found j)
      && (clashes_with p found r.path || clashes_with p found r.encryption_root))
    || clashes_from (suc j) p found rs

abbrev pub is_library : Option (ℕ × Resource) → Bool
is_library none = false
is_library (some (i, r)) = r.read_only

-- `guardedMatch`; the outer none is an error.
unfoldable pub guarded_match : Bytes → Config → Option (Option (ℕ × Resource))
guarded_match p base =
    let found = match_from 0 p base.resources in
    if is_library found || clashes_from 0 p found base.resources then none else some found

-- `existingSection`
abbrev pub rule_of : BinaryRule → ExistingRule
rule_of b = record {
  line = if not (b.link == []) then b.link else b.path;
  events = map name_of b.events;
}

abbrev pub shared_from : ℕ → ℕ → Resource → List Resource → List Bytes
shared_from j i match [] = []
shared_from j i match (r ∷ rs) =
    let rest = shared_from (suc j) i match rs in
    if not (i == j)
      && (not (match.encryption_root == []) && (r.encryption_root == match.encryption_root))
    then r.path ∷ rest
    else rest

abbrev pub section_of : Config → Option (ℕ × Resource) → Option Existing
section_of base none = none
section_of base (some (i, r)) = some (record {
  section = encryption_root_or_path r;
  shared_with = shared_from 0 i r base.resources;
  allow = map rule_of (filter (λ b. not b.lib_binary) (r.binaries ++ r.pending_binaries));
  encrypted = r.need_encryption;
})

unfoldable pub existing_section : Bytes → Config → Option (Option Existing)
existing_section p base = elim (guarded_match p base) [
  | none ↦ none
  | some found ↦ some (section_of base found)
]

-- `fscrypt.BackupSuffix` and `fscrypt.DecryptSuffix`
abbrev pub backup_suffix : Bytes
backup_suffix = codes ".app_listener.backup"

abbrev pub decrypt_suffix : Bytes
decrypt_suffix = codes ".app_listener.decrypt"

abbrev pub with_section : Bytes → Bool → Option Config → Option Target
with_section p is_dir none = some (record { path = p; is_dir = is_dir; existing = none })
with_section p is_dir (some base) = elim (existing_section p base) [
  | none ↦ none
  | some ex ↦ some (record { path = p; is_dir = is_dir; existing = ex })
]

abbrev pub of_kind : Bytes → Option Config → FileKind → Option Target
of_kind p base directory = with_section p true base
of_kind p base symlink = none
of_kind p base special = none
of_kind p base (regular links) = if ltb 1 links then none else with_section p false base

-- The path is its own real path.
abbrev pub is_real : Bytes → Option Bytes → Bool
is_real p none = false
is_real p (some resolved) = resolved == p

module _ (fs : FileSystem) (base : Option Config) (homes : List Bytes) where
  abbrev pub validate_clean : Bytes → Option Target
  validate_clean p =
      if refused_path p homes || (has_suffix p backup_suffix || has_suffix p decrypt_suffix)
      then none
      else elim (fs.lstat p) [
        | none ↦ none
        | some kind ↦ if not (is_real p (fs.eval_symlinks p)) then none else of_kind p base kind
      ]

  -- `validateTarget`
  unfoldable pub validate_target : Bytes → Option Target
  validate_target raw =
      if not (is_abs raw) || contains raw 0 then none else validate_clean (clean raw)

  -- The loop of `ValidateTargets`.
  abbrev pub join_target : List Target → Option Target → Option (List Target)
  join_target out none = none
  join_target out (some t) =
      if any (λ o. overlaps t.path o.path) out then none else some (out ++ t ∷ [])

  abbrev pub validate_from : List Target → List Bytes → Option (List Target)
  validate_from out [] = some out
  validate_from out (raw ∷ raws) = elim (join_target out (validate_target raw)) [
    | none ↦ none
    | some next ↦ validate_from next raws
  ]

  -- `ValidateTargets`
  unfoldable pub validate_targets : List Bytes → Option (List Target)
  validate_targets paths =
      if (paths == []) || ltb max_targets (length paths) then none else validate_from [] paths
