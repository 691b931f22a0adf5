-- ===== src/Wire/Mounts.antt =====
-- internal/infrastructure: the mount table, mountinfo.go.
pub mod Escapes
pub mod Through
pub mod Lines
pub mod Vouched
use app_listener.Base.{
  ℕ, zero, suc, ◌+◌, ◌*◌, ◌-◌, ◌^◌, Bool, true, false, not, ◌&&◌, ◌||◌, Option, none, some, List,
  [], ◌∷◌, ◌++◌, ◌==◌, nat_eq, list_eq, if◌then◌else◌, ltb, leb, length, drop, get_elem?, contains,
  Bytes, codes,
}
use app_listener.Base.Strings.{has_prefix, split}
use app_listener.DaemonConfig.Text.{is_white, trim_space, cut_prefix}
use app_listener.DaemonConfig.Rules.{cut_colon}

-- `MountInfo`
pub record MountInfo : Type 0 where
  pub id : ℕ
  pub dev : ℕ
  pub root : Bytes
  pub mountpoint : Bytes

-- `PathUnder`; none is false.
unfoldable pub path_under : Bytes → Bytes → Option Bytes
path_under p root =
    if root == codes "/"
    then if has_prefix p (codes "/") then some p else none
    else if p == root
    then some (codes "/")
    else if has_prefix p (root ++ codes "/")
    then some (drop (length root) p)
    else none

abbrev pub through : MountInfo → Option Bytes → Option Bytes
through m none = none
through m (some rel) =
    if m.mountpoint == codes "/"
    then some rel
    else if rel == codes "/"
    then some m.mountpoint
    else some (m.mountpoint ++ rel)

-- `MountPath`
unfoldable pub mount_path : MountInfo → Bytes → Option Bytes
mount_path m sb_path = through m (path_under sb_path m.root)

-- `strconv.ParseUint` in a base of at most ten; none where a character is no digit.
abbrev pub digits_in : ℕ → ℕ → Bytes → Option ℕ
digits_in base n [] = some n
digits_in base n (c ∷ s) =
    let rest = digits_in base (base * n + (c - 48)) s in
    if leb 48 c && ltb c (48 + base) then rest else none

-- Its number has at most `bits` bits.
abbrev pub parse_uint : ℕ → ℕ → Bytes → Option ℕ
parse_uint base bits [] = none
parse_uint base bits (c ∷ s) = elim (digits_in base 0 (c ∷ s)) [
  | none ↦ none
  | some n ↦ if ltb n (2 ^ bits) then some n else none
]

-- `parseMountDev`: 12 bits of major and 20 of minor.
abbrev pub dev_of : Option ℕ → Option ℕ → Option ℕ
dev_of none minor = none
dev_of (some major) none = none
dev_of (some major) (some minor) = some (major * 2 ^ 20 + minor)

unfoldable pub parse_mount_dev : Bytes → Option ℕ
parse_mount_dev s = elim (cut_colon s) [
  | none ↦ none
  | some (major, minor) ↦ dev_of (parse_uint 10 12 major) (parse_uint 10 20 minor)
]

-- `unescapeMountinfo`
unfoldable pub unescape_mountinfo : Bytes → Bytes
unescape_mountinfo [] = []
unescape_mountinfo (c ∷ []) = c ∷ []
unescape_mountinfo (c ∷ d ∷ []) = c ∷ d ∷ []
unescape_mountinfo (c ∷ d ∷ e ∷ []) = c ∷ d ∷ e ∷ []
unescape_mountinfo (c ∷ d ∷ e ∷ f ∷ s) =
    let decoded = unescape_mountinfo s in
    let plain = unescape_mountinfo (d ∷ e ∷ f ∷ s) in
    if c == 92
    then elim (parse_uint 8 8 (d ∷ e ∷ f ∷ [])) [ some v ↦ v ∷ decoded | none ↦ c ∷ plain ]
    else c ∷ plain

-- `strings.Fields`
abbrev pub put_field : ℕ → Bool → List Bytes → List Bytes
put_field c true fs = (c ∷ []) ∷ fs
put_field c false [] = (c ∷ []) ∷ []
put_field c false (f ∷ fs) = (c ∷ f) ∷ fs

abbrev pub starts_field : Bytes → Bool
starts_field [] = true
starts_field (c ∷ s) = is_white c

unfoldable pub fields : Bytes → List Bytes
fields [] = []
fields (c ∷ s) =
    let rest = fields s in if is_white c then rest else put_field c (starts_field s) rest

-- The loop body of `ParseMountinfo`: a malformed line is skipped.
abbrev pub mount_of : List Bytes → Option MountInfo
mount_of (id ∷ parent ∷ dev ∷ root ∷ mountpoint ∷ more) = elim (parse_uint 10 64 id) [
  | none ↦ none
  | some id ↦ elim (parse_mount_dev dev) [
    | none ↦ none
    | some dev ↦ some (record {
      id = id;
      dev = dev;
      root = unescape_mountinfo root;
      mountpoint = unescape_mountinfo mountpoint;
    })
  ]
]
mount_of fs = none

-- `ParseMountinfo`, over the lines that are read.
unfoldable pub parse_mountinfo : List Bytes → List MountInfo
parse_mountinfo [] = []
parse_mountinfo (l ∷ ls) = elim (mount_of (fields l)) [
  | none ↦ parse_mountinfo ls
  | some m ↦ m ∷ parse_mountinfo ls
]

-- The search of `MountByID`.
unfoldable pub mount_by_id : ℕ → List MountInfo → Option MountInfo
mount_by_id id [] = none
mount_by_id id (m ∷ ms) = let rest = mount_by_id id ms in if m.id == id then some m else rest

-- `isFuseType`
abbrev pub is_fuse_type : Bytes → Bool
is_fuse_type t = (t == codes "fuse") || ((t == codes "fuseblk") || has_prefix t (codes "fuse."))

-- `slices.Index` of the separator.
abbrev pub index_of : Bytes → List Bytes → Option ℕ
index_of a [] = none
index_of a (f ∷ fs) =
    if f == a then some 0 else elim (index_of a fs) [ none ↦ none | some i ↦ some (suc i) ]

abbrev pub field : List Bytes → ℕ → Bytes
field fs i = elim (get_elem? fs i) [ none ↦ [] | some f ↦ f ]

-- A line of `VouchedDevs`: its device, and whether root vouches for that mount; none is malformed.
abbrev pub vouch_of : List Bytes → Option ℕ → Option (ℕ × Bool)
vouch_of fs none = none
vouch_of fs (some sep) =
    if ltb sep 6 || leb (length fs) (suc sep) then none else elim (parse_mount_dev (field fs 2)) [
      | none ↦ none
      | some dev ↦ some (
        dev,
        not (
            contains (split 44 (field fs 5)) (codes "nosuid") || is_fuse_type (field fs (suc sep))),
      )
    ]

abbrev pub vouch_line : Bytes → Option (ℕ × Bool)
vouch_line l = vouch_of (fields l) (index_of (codes "-") (fields l))

-- The loop of `VouchedDevs`.
abbrev pub vouched_from : List Bytes → List ℕ → Option (List ℕ)
vouched_from [] out = some out
vouched_from (l ∷ ls) out = elim (vouch_line l) [
  | none ↦ none
  | some (dev, false) ↦ vouched_from ls out
  | some (dev, true) ↦ vouched_from ls (out ++ dev ∷ [])
]

abbrev pub not_empty : Option (List ℕ) → Option (List ℕ)
not_empty none = none
not_empty (some []) = none
not_empty (some (d ∷ ds)) = some (d ∷ ds)

-- `VouchedDevs`
unfoldable pub vouched_devs : Bytes → Option (List ℕ)
vouched_devs mountinfo = not_empty (vouched_from (split 10 (trim_space mountinfo)) [])
