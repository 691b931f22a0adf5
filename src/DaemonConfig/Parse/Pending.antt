-- ===== src/DaemonConfig/Parse/Pending.antt =====
-- internal/daemonconfig: what waits for its vault once every vault is unlocked, `ResolvePendingPaths`.
use app_listener.Base.{
  ◌≡◌, refl, sym, ap, Bool, true, false, not, ◌&&◌, ◌||◌, Option, none, some, List, [], ◌∷◌, ◌++◌,
  ◌==◌, nat_eq, list_eq, if◌then◌else◌, leb, all, any, filter, map, Bytes, codes, arith,
}
use app_listener.Base.Strings.{has_prefix, split}
use app_listener.DaemonConfig.Text.{clean}
use app_listener.DaemonConfig.{
  FileKind, directory, symlink, special, regular, is_symlink, Parsed, done, fault, ◌>>=◌,
  unusable_path, FileSystem, Resource,
}
use app_listener.DaemonConfig.Materialize.{
  relative, rejects_from, reject_symlinked_components, can_watch, validate_watch_target,
}
use app_listener.DaemonConfig.Parse.{resolve_pending}

-- The directories strictly between a root and what lies below it, by the parts of the relative path.
abbrev pub between : Bytes → List Bytes → List Bytes
between root [] = []
between root (part ∷ []) = []
between root (part ∷ next ∷ parts) =
    let skip = between root (next ∷ parts) in
    let dir = clean (root ++ 47 ∷ part) in
    let more = between dir (next ∷ parts) in
    if (part == []) || (part == codes ".") then skip else dir ∷ more

-- What stands at the paths, up to the first that is not there.
abbrev pub present : FileSystem → List Bytes → List FileKind
present fs [] = []
present fs (p ∷ ps) = elim (fs.lstat p) [ none ↦ [] | some kind ↦ kind ∷ present fs ps ]

-- A symlink stands between the root and the path. A relative path that begins with two dots is exempt.
abbrev pub redirected : FileSystem → Bytes → Option Bytes → Bool
redirected fs root none = false
redirected fs root (some rel) =
    not (has_prefix rel (codes "..")) && any is_symlink (present fs (between root (split 47 rel)))

-- A directory, or a file with no second name.
abbrev pub guardable : Option FileKind → Bool
guardable (some directory) = true
guardable (some (regular links)) = leb links 1
guardable _ = false

-- The daemon can watch the path, of a vault with that root or, for an empty root, of none.
abbrev pub watchable : FileSystem → Bytes → Bytes → Bool
watchable fs path root =
    guardable (fs.lstat path) && ((root == []) || not (redirected fs root (relative root path)))

-- A resource that the daemon can guard once the vaults are open.
abbrev pub usable : FileSystem → Resource → Bool
usable fs r = not r.path_pending || watchable fs r.path r.encryption_root

-- A path that is not a library tree's and that is not usable.
abbrev pub fatal : FileSystem → Resource → Bool
fatal fs r = not (usable fs r) && not r.read_only

abbrev pub settled : Resource → Resource
settled r = record r { path_pending = false }

-- The answer, written at once.
abbrev pub settle : FileSystem → List Resource → Parsed (List Resource)
settle fs rs =
    if all (λ r. not (fatal fs r)) rs
    then done (map settled (filter (usable fs) rs))
    else fault unusable_path

or_if : (b x y : Bool) → x ≡ y → (if b then true else x) ≡ (b || y)
or_if true x y e = refl
or_if false x y e = e

if_not : (b x : Bool) → (if b then false else x) ≡ (not b && x)
if_not true x = refl
if_not false x = refl

and_comm : (a b : Bool) → (a && b) ≡ (b && a)
and_comm a b = ground arith

rejects_from_lem :
    (fs : FileSystem) (root : Bytes) (parts : List Bytes)
    → rejects_from fs root parts ≡ any is_symlink (present fs (between root parts))
rejects_from_lem fs root [] = refl
rejects_from_lem fs root (part ∷ []) = refl
rejects_from_lem fs root (part ∷ next ∷ parts) =
    step ((part == []) || (part == codes ".")) (fs.lstat (clean (root ++ 47 ∷ part)))
      (clean (root ++ 47 ∷ part)) refl (rejects_from_lem fs root (next ∷ parts))
      (rejects_from_lem fs (clean (root ++ 47 ∷ part)) (next ∷ parts))
  where
    step :
        (skip : Bool) (o : Option FileKind) (dir : Bytes)
        → fs.lstat dir ≡ o
        → rejects_from fs root (next ∷ parts)
          ≡ any is_symlink (present fs (between root (next ∷ parts)))
        → rejects_from fs dir (next ∷ parts)
          ≡ any is_symlink (present fs (between dir (next ∷ parts)))
        → (if skip then rejects_from fs root (next ∷ parts) else elim o [
          | none ↦ false
          | some kind ↦ if is_symlink kind then true else rejects_from fs dir (next ∷ parts)
        ])
          ≡ any is_symlink (
              present fs
                (if skip then between root (next ∷ parts) else dir ∷ between dir (next ∷ parts)))
    step true o dir e kept more = kept
    step false none dir e kept more = rw e refl
    step false (some kind) dir e kept more = rw e (or_if (is_symlink kind) _ _ more)

leaf_lem : (fs : FileSystem) (o : Option FileKind) → can_watch fs o ≡ guardable o
leaf_lem fs none = refl
leaf_lem fs (some directory) = refl
leaf_lem fs (some symlink) = refl
leaf_lem fs (some special) = refl
leaf_lem fs (some (regular links)) = ground arith

rejects_lem :
    (fs : FileSystem) (root path : Bytes)
    → reject_symlinked_components fs root path ≡ redirected fs root (relative root path)
unfolding reject_symlinked_components
rejects_lem fs root path = go (relative root path)
  where
    go :
        (o : Option Bytes)
        → (elim o [
          | none ↦ false
          | some rel ↦
              if has_prefix rel (codes "..") then false else rejects_from fs root (split 47 rel)
        ])
          ≡ redirected fs root o
    go none = refl
    go (some rel) =
        rw (rejects_from_lem fs root (split 47 rel)) (if_not (has_prefix rel (codes "..")) _)

watchable_lem :
    (fs : FileSystem) (path root : Bytes)
    → validate_watch_target fs path root ≡ watchable fs path root
unfolding validate_watch_target
watchable_lem fs path root =
    rw (leaf_lem fs (fs.lstat path), rejects_lem fs root path)
      (and_comm _ (guardable (fs.lstat path)))

settled_lem : (r : Resource) → r.path_pending ≡ false → settled r ≡ r
settled_lem r e = sym (ap (λ b. record r { path_pending = b }) e)

-- One round of the loop, after the tests it makes and what the rest gives.
settle_step :
    (r s : Resource) (p v o a : Bool) (rest : List Resource)
    → (p ≡ false → s ≡ r)
    → (if not p
        then (do kept ← (if a then done rest else fault unusable_path); done (r ∷ kept))
        else if v
        then (do kept ← (if a then done rest else fault unusable_path); done (s ∷ kept))
        else if not o
        then fault unusable_path
        else (if a then done rest else fault unusable_path))
      ≡ (if not (not (not p || v) && not o) && a
          then done (if not p || v then s ∷ rest else rest)
          else fault unusable_path)
unfolding ◌>>=◌
settle_step r s false v o true rest e = ap (λ x. done (x ∷ rest)) (sym (e refl))
settle_step r s false v o false rest e = refl
settle_step r s true true o true rest e = refl
settle_step r s true true o false rest e = refl
settle_step r s true false true true rest e = refl
settle_step r s true false true false rest e = refl
settle_step r s true false false a rest e = refl

map-if {ℓ κ} :
    {A : Type ℓ} {B : Type κ} (f : A → B) (b : Bool) (x y : List A)
    → map f (if b then x else y) ≡ (if b then map f x else map f y)
map-if f true x y = refl
map-if f false x y = refl

-- The loop of `ResolvePendingPaths` keeps exactly the resources that do not wait or whose path can be watched
-- now, in order and none of them waiting any more; it fails exactly when one that is no library tree waits for
-- a path that cannot be watched, and an unusable library tree is only dropped. A path can be watched when it is
-- a directory or a file with no second name and, where it has a vault, no symlink stands among the directories
-- between the vault's root and the path, up to the first that is not there; a path whose part below the root
-- begins with two dots is exempt from the latter.
pub resolve_pending-settle :
    (fs : FileSystem) (rs : List Resource) → resolve_pending fs rs ≡ settle fs rs
resolve_pending-settle fs [] = refl
resolve_pending-settle fs (r ∷ rs) =
    rw
      (
        resolve_pending-settle fs rs,
        watchable_lem fs r.path r.encryption_root,
        map-if settled (usable fs r) (r ∷ filter (usable fs) rs) (filter (usable fs) rs),
      )
      (settle_step r (settled r) r.path_pending (watchable fs r.path r.encryption_root) r.read_only
        (all (λ r. not (fatal fs r)) rs) (map settled (filter (usable fs) rs)) (settled_lem r))
