-- ===== src/Guard/Inodes/Paths.antt =====
-- internal/guard/engine.go, `pathWithin`.
use app_listener.Base.{
  zero, ◌≡◌, refl, ◌||◌, [], ◌∷◌, ◌++◌, ◌==◌, nat_eq, list_eq, take, Bytes, arith, bytes_iff,
}
use app_listener.Base.Strings.{has_prefix}
use app_listener.Guard.Inodes.{path_within, slash}

-- A path is within a root exactly when it is the root or has the root and a slash for a prefix.
pub path_within_lem :
    (path root : Bytes)
    → path_within path root ≡ ((path == root) || has_prefix path (root ++ slash ∷ []))
unfolding path_within
path_within_lem [] [] = refl
path_within_lem [] (r ∷ root) = ground arith
path_within_lem (p ∷ path) [] = grind (arith, bytes_iff (take zero path) [])
path_within_lem (p ∷ path) (r ∷ root) = ground (arith, path_within_lem path root)
