-- ===== src/Maintainer/Changes.antt =====
-- internal/maintainer: the changes of a run, plan.go.
use app_listener.Base.{
  ℕ, ◌+◌, Bool, true, false, ◌&&◌, ◌||◌, Option, none, some, List, [], ◌∷◌, ◌++◌, ◌==◌, nat_eq,
  list_eq, leb, length, any, all, contains, Bytes, codes,
}
use app_listener.Base.Strings.{has_prefix, split}
use app_listener.Maintainer.{op_dir, Op, LibPlan}

-- `Changes`
abbrev pub changes : List LibPlan → ℕ
changes [] = 0
changes (l ∷ ls) = length l.ops + changes ls

-- An operation that is more than a kept directory.
abbrev pub is_whole : Op → Bool
is_whole o = elim o.kind [ op_dir ↦ o.opaque | _ ↦ true ]

-- The test of `Touches` on one operation, for the path below the lib_dir.
abbrev pub touches_op : Bytes → Op → Bool
touches_op rel o =
    (o.rel == rel) || (is_whole o && ((o.rel == codes ".") || has_prefix rel (o.rel ++ codes "/")))

-- `Touches`, with the path below each lib_dir (`filepath.Rel`), none where it is outside.
unfoldable pub touches : (Bytes → Bytes → Option Bytes) → List LibPlan → Bytes → Bool
touches rel_of libs target =
    any (λ l. elim (rel_of l.dir target) [ none ↦ false | some rel ↦ any (touches_op rel) l.ops ])
      libs

-- `pathByte`
abbrev pub path_byte : ℕ → Bool
path_byte c =
    (leb 97 c && leb c 122)
    || ((leb 65 c && leb c 90) || ((leb 48 c && leb c 57) || contains (codes "/._+@~:,-") c))

-- `pathRecord`, line by line.
abbrev pub path_line : Bytes → Bool
path_line [] = true
path_line (c ∷ line) = (c == 47) && all path_byte (c ∷ line)

unfoldable pub path_record : Bytes → Bool
path_record b = all path_line (split 10 b)
