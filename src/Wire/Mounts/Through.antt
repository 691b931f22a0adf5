-- ===== src/Wire/Mounts/Through.antt =====
-- internal/infrastructure: a path through a mount, `MountPath` and `PathUnder`.
use app_listener.Base.{
  ◌≡◌, refl, sym, ap, ◌∙◌, Bool, true, false, Option, some, [], ◌∷◌, ◌++◌, ◌==◌, nat_eq, list_eq,
  if◌then◌else◌, length, drop, if_cases, Bytes, bytes_iff, beq_refl, codes, arith,
}
use app_listener.Base.Strings.{has_prefix}
use app_listener.Wire.Mounts.{MountInfo, path_under, through, mount_path}

-- A prefix and what follows it are the whole.
prefix-drop :
    (p root : Bytes)
    → has_prefix p (root ++ codes "/") ≡ true
    → (root ++ drop (length root) p ≡ p) × (has_prefix (drop (length root) p) (codes "/") ≡ true)
prefix-drop p [] h = (refl, h)
prefix-drop [] (c ∷ root) h = absurd cc
prefix-drop (d ∷ p) (c ∷ root) h = ground (arith, prefix-drop p root)

-- The relative part of a path begins with a slash.
path_under-slash :
    (p root rel : Bytes) → path_under p root ≡ some rel → has_prefix rel (codes "/") ≡ true
unfolding path_under
path_under-slash p root rel =
    if_cases Q (root == codes "/") _ _
      (λ top.
        if_cases Q (has_prefix p (codes "/")) _ _ (λ good e. rw (same p rel e) at good)
          λ bad e. absurd cc)
      λ below.
        if_cases Q (p == root) _ _
          (λ here e. ap (λ x. has_prefix x (codes "/")) (sym (same (codes "/") rel e)))
          λ other.
            if_cases Q (has_prefix p (root ++ codes "/")) _ _
              (λ good e. rw (same (drop (length root) p) rel e) at (prefix-drop p root good).1)
              λ bad e. absurd cc
  where
    Q : Option Bytes → Type 0
    Q o = o ≡ some rel → has_prefix rel (codes "/") ≡ true

    same : (x y : Bytes) → some x ≡ some y → x ≡ y
    same x y e = cc

prefix-append :
    (p q : Bytes) → has_prefix q (codes "/") ≡ true → has_prefix (p ++ q) (p ++ codes "/") ≡ true
prefix-append [] q h = h
prefix-append (c ∷ p) q h = ground (arith, prefix-append p q)

append-drop : (p q : Bytes) → drop (length p) (p ++ q) ≡ q
append-drop [] q = refl
append-drop (c ∷ p) q = append-drop p q

-- The path through a mount whose mountpoint is `top`.
abbrev placed : Bytes → Bytes → Bytes
placed top rel = if top == codes "/" then rel else if rel == codes "/" then top else top ++ rel

through-placed :
    (m : MountInfo) (rel : Bytes) → through m (some rel) ≡ some (placed m.mountpoint rel)
through-placed m rel = from (m.mountpoint == codes "/") (rel == codes "/")
  where
    from :
        (b c : Bool)
        → ((if b then some rel else if c then some m.mountpoint else some (m.mountpoint ++ rel))
            ≡ some (if b then rel else if c then m.mountpoint else m.mountpoint ++ rel))
    from true c = refl
    from false true = refl
    from false false = refl

-- Nothing but the empty text leaves a text as it is when it is put behind it.
append-same : (p q : Bytes) → ((p ++ q) == p) ≡ (q == [])
append-same [] q = refl
append-same (c ∷ p) q = ground (arith, append-same p q, beq_refl c)

path_under-placed :
    (top rel : Bytes)
    → has_prefix rel (codes "/") ≡ true
    → path_under (placed top rel) top ≡ some rel
unfolding path_under
path_under-placed top rel h =
    if_cases P (top == codes "/") _ _ (λ here. rw (here, h) refl)
      λ below.
        if_cases P (rel == codes "/") _ _
          (λ whole. rw (below, beq_refl top) (ap some (sym ((bytes_iff rel (codes "/")).0 whole))))
          λ part.
            rw
              (
                below,
                append-same top rel,
                not_nil rel h,
                prefix-append top rel h,
                append-drop top rel,
              )
              refl
  where
    P : Bytes → Type 0
    P x = path_under x top ≡ some rel

    not_nil : (rel : Bytes) → has_prefix rel (codes "/") ≡ true → (rel == []) ≡ false
    not_nil [] h = absurd cc
    not_nil (c ∷ rel) h = refl

-- Seen from its mountpoint, a path that a mount shows is the path that the file system has below the mount's
-- root: the two relative parts are the same.
pub path_under-mount_path :
    (m : MountInfo) (sb_path out rel : Bytes)
    → mount_path m sb_path ≡ some out
    → path_under sb_path m.root ≡ some rel
    → path_under out m.mountpoint ≡ some rel
unfolding mount_path
path_under-mount_path m sb_path out rel h k =
    ap (λ p. path_under p m.mountpoint)
      (same out _ (sym h ∙ ap (through m) k ∙ through-placed m rel))
    ∙ path_under-placed m.mountpoint rel (path_under-slash sb_path m.root rel k)
  where
    same : (x y : Bytes) → some x ≡ some y → x ≡ y
    same x y e = cc
