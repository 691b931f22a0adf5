-- ===== src/Recorder.antt =====
-- internal/recorder: learning a whitelist from what touches the recorded paths.
pub mod Observe
pub mod Targets
pub mod Classify
pub mod Plan
pub mod Apply
use app_listener.Base.{
  ℕ, Bool, true, false, not, ◌&&◌, ◌||◌, Option, none, some, List, [], ◌∷◌, ◌++◌, ◌==◌, nat_eq,
  list_eq, if◌then◌else◌, any, Bytes, codes,
}

-- `ExistingRule` and `Existing`
pub record ExistingRule : Type 0 where
  pub line : Bytes
  pub events : List Bytes

pub record Existing : Type 0 where
  pub section : Bytes
  pub shared_with : List Bytes
  pub allow : List ExistingRule
  pub encrypted : Bool

-- `Target`
pub record Target : Type 0 where
  pub path : Bytes
  pub is_dir : Bool
  pub existing : Option Existing

-- `Has`, false without a section.
abbrev pub has_line : Option Existing → Bytes → Bool
has_line none line = false
has_line (some e) line = any (λ r. r.line == line) e.allow

-- `Lib`
pub record Lib : Type 0 where
  pub path : Bytes
  pub why : Bytes
  pub problem : Bytes

-- `Binary`, without its times and the names shown only.
pub record Binary : Type 0 where
  pub line : Bytes
  pub exe : Bytes
  pub ops : List Bytes
  pub mask : List Bytes
  pub targets : List Bytes
  pub uids : List ℕ
  pub sha256 : Bytes
  pub owner : ℕ
  pub problem : Bytes
  pub suggested : Bool
  pub system_placed : Bool
  pub general_tool : Bool
  pub shell_helper : Bool
  pub whitelisted : List Bytes
  pub libs : List Lib

-- `Admissible`
abbrev pub is_admissible : Binary → Bool
is_admissible b = not (b.line == []) && (b.problem == [])
