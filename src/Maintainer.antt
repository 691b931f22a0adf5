-- ===== src/Maintainer.antt =====
-- internal/maintainer: what a maintenance run may change below its lib_dirs.
pub mod Changes
pub mod Links
use app_listener.Base.{ℕ, Bool, true, false, List, [], ◌∷◌, Bytes}

-- `opKind` and `op`, without the copy in the stage.
pub data OpKind : Type 0 where
  op_delete op_dir op_link op_file : OpKind

pub record Op : Type 0 where
  pub kind : OpKind
  pub rel : Bytes
  pub opaque : Bool
  pub target : Bytes

-- `libPlan`
pub record LibPlan : Type 0 where
  pub dir : Bytes
  pub ops : List Op
