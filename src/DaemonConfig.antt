-- ===== src/DaemonConfig.antt =====
-- internal/daemonconfig: the daemon's configuration and what parsing it may answer. The file system is a
-- parameter, as one parse sees it: `os.Lstat`, `os.Stat`, `filepath.EvalSymlinks` and
-- infrastructure's `ResolveConfined`. Warnings are only logged, and are left out.
pub mod Text
pub mod Rules
pub mod Materialize
pub mod Parse
use app_listener.Base.{
  ℕ, zero, suc, ◌^◌, ◌≡◌, refl, Bool, true, false, not, ◌&&◌, ◌||◌, Option, none, some, List, [],
  ◌∷◌, ◌++◌, ◌==◌, nat_eq, list_eq, if◌then◌else◌, ltb, leb, length, all, Bytes, codes,
}

-- The errors of a configuration.
pub data Fault : Type 0 where
  malformed_header empty_path outside_root duplicate_path bad_value unterminated_quote : Fault
  unknown_event unwanted_rest relative_path too_many too_long unknown_setting not_in_block : Fault
  same_directory nested_root unusable_path : Fault

-- An answer or an error.
pub data Parsed {ℓ} (A : Type ℓ) : Type ℓ where
  done : A → Parsed A
  fault : Fault → Parsed A

infixl 5 ◌>>=◌ ◌>>◌
unfoldable pub ◌>>=◌ {ℓ κ} : {A : Type ℓ} {B : Type κ} → Parsed A → (A → Parsed B) → Parsed B
done a >>= f = f a
fault e >>= f = fault e

unfoldable pub ◌>>◌ {ℓ} : {B : Type ℓ} → Parsed (Unit {0}) → Parsed B → Parsed B
(done u) >> k = k
(fault e) >> k = fault e

-- A check that ends the parse.
unfoldable pub refuse_if : Bool → Fault → Parsed (Unit {0})
refuse_if true e = fault e
refuse_if false e = done tt

-- What holds of every answer of a parse.
abbrev pub Ensures {ℓ κ} : {A : Type ℓ} → (A → Type κ) → Parsed A → Type κ
Ensures P (done a) = P a
Ensures P (fault e) = Unit

pub Ensures-bind {ℓ κ μ ν} :
    {A : Type ℓ} {B : Type κ} (P : A → Type μ) (Q : B → Type ν) (m : Parsed A) (f : A → Parsed B)
    → Ensures P m
    → ((a : A) → P a → Ensures Q (f a))
    → Ensures Q (m >>= f)
unfolding ◌>>=◌
Ensures-bind P Q (done a) f h k = k a h
Ensures-bind P Q (fault e) f h k = tt

-- A check that passes is known to what follows it.
pub Ensures-refuse {ℓ κ} :
    {B : Type ℓ} (Q : B → Type κ) (b : Bool) (e : Fault) (k : Parsed B)
    → (b ≡ false → Ensures Q k)
    → Ensures Q (refuse_if b e >> k)
unfolding ◌>>◌ refuse_if
Ensures-refuse Q true e k h = tt
Ensures-refuse Q false e k h = h refl

-- Of an answer nothing need be known.
abbrev pub Any : {A : Type 0} → A → Type 0
Any a = Unit

pub anything : {A : Type 0} (m : Parsed A) → Ensures Any m
anything (done a) = tt
anything (fault e) = tt

-- What follows a successful step may use that it succeeded.
pub Ensures-then {ℓ κ} :
    {B : Type ℓ} (Q : B → Type κ) (m : Parsed (Unit {0})) (k : Parsed B)
    → (m ≡ done tt → Ensures Q k)
    → Ensures Q (m >> k)
unfolding ◌>>◌
Ensures-then Q (done tt) k h = h refl
Ensures-then Q (fault e) k h = tt

pub Ensures-done {ℓ κ} :
    {A : Type ℓ} (P : A → Type κ) (m : Parsed A) (a : A) → Ensures P m → m ≡ done a → P a
Ensures-done P m a h e = rw e at h

-- What a successful chain says of its parts.
pub refuse_if-done : (b : Bool) (e : Fault) → refuse_if b e ≡ done tt → b ≡ false
unfolding refuse_if
refuse_if-done true e h = absurd cc
refuse_if-done false e h = refl

pub then-done {ℓ} :
    {B : Type ℓ} (m : Parsed (Unit {0})) (k : Parsed B) (b : B)
    → m >> k ≡ done b
    → (m ≡ done tt) × (k ≡ done b)
unfolding ◌>>◌
then-done (done tt) k b h = (refl, h)
then-done (fault e) k b h = absurd cc

pub bind-done {ℓ κ} :
    {A : Type ℓ} {B : Type κ} (m : Parsed A) (f : A → Parsed B) (b : B)
    → m >>= f ≡ done b
    → (a : A) × (m ≡ done a) × (f a ≡ done b)
unfolding ◌>>=◌
bind-done (done a) f b h = (a, refl, h)
bind-done (fault e) f b h = absurd cc

-- What `os.Lstat` tells of a path.
pub data FileKind : Type 0 where
  directory symlink special : FileKind
  regular : ℕ → FileKind

abbrev pub is_directory : Option FileKind → Bool
is_directory (some directory) = true
is_directory _ = false

abbrev pub is_symlink : FileKind → Bool
is_symlink symlink = true
is_symlink _ = false

abbrev pub is_present : {A : Type 0} → Option A → Bool
is_present none = false
is_present (some a) = true

pub record FileSystem : Type 0 where
  pub lstat : Bytes → Option FileKind
  pub stat_ok : Bytes → Bool
  pub resolve_confined : Bytes → Option Bytes
  pub eval_symlinks : Bytes → Option Bytes

-- `BinaryRule`; a link is `[]` where there is none.
pub record BinaryRule : Type 0 where
  pub path : Bytes
  pub link : Bytes
  pub events : List ℕ
  pub lib_binary : Bool

-- `Resource`
pub record Resource : Type 0 where
  pub path : Bytes
  pub need_encryption : Bool
  pub encryption_root : Bytes
  pub binaries : List BinaryRule
  pub pending_binaries : List BinaryRule
  pub allow_libs : List Bytes
  pub pending_libs : List Bytes
  pub read_only : Bool
  pub path_pending : Bool

abbrev pub bare_resource : Bytes → Resource
bare_resource path = record {
  path = path;
  need_encryption = true;
  encryption_root = [];
  binaries = [];
  pending_binaries = [];
  allow_libs = [];
  pending_libs = [];
  read_only = false;
  path_pending = false;
}

-- `Config`; inspectors are none until their block is seen.
pub record Config : Type 0 where
  pub resources : List Resource
  pub shared_allow_libs : List Bytes
  pub inspectors : Option (List Bytes)
  pub inspectors_default : Bool
  pub electron_apps : List Bytes
  pub max_inodes : ℕ

abbrev pub empty_config : Config
empty_config = record {
  resources = [];
  shared_allow_libs = [];
  inspectors = none;
  inspectors_default = false;
  electron_apps = [];
  max_inodes = 0;
}

-- `MaxInspectors`, `MaxElectronApps` and `MaxElectronAppLen`
abbrev pub max_inspectors : ℕ
max_inspectors = 16

abbrev pub max_electron_apps : ℕ
max_electron_apps = 32

abbrev pub max_electron_app_len : ℕ
max_electron_app_len = 43

-- `MaxInodesFloor` and `MaxInodesCeiling`
abbrev pub max_inodes_floor : ℕ
max_inodes_floor = 2 ^ 15

abbrev pub max_inodes_ceiling : ℕ
max_inodes_ceiling = 2 ^ 22

-- `DefaultInspectors`
abbrev pub default_inspectors : List Bytes
default_inspectors =
    codes "/usr/lib/xdg-desktop-portal" ∷ codes "/usr/libexec/xdg-desktop-portal" ∷ []

-- What kind of block a group is: a section, or one of the four blocks that are no section.
pub data Block : Type 0 where
  watch_block library_block inspectors_block electron_apps_block settings_block : Block

-- `watchGroup`
pub record WatchGroup : Type 0 where
  pub block : Block
  pub root : Bytes
  pub need_encryption : Bool
  pub binaries : List BinaryRule
  pub pending : List BinaryRule
  pub libs : List Bytes
  pub pending_libs : List Bytes
  pub watch_paths : List Bytes
  pub lib_dirs : List Bytes
  pub lib_binaries : List BinaryRule
  pub lib_pending : List BinaryRule
  pub skipped : Bool

abbrev pub new_group : Block → Bytes → Bool → WatchGroup
new_group block root skipped = record {
  block = block;
  root = root;
  need_encryption = true;
  binaries = [];
  pending = [];
  libs = [];
  pending_libs = [];
  watch_paths = [];
  lib_dirs = [];
  lib_binaries = [];
  lib_pending = [];
  skipped = skipped;
}
