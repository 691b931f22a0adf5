-- ===== src/Wire/Mounts/Lines.antt =====
-- internal/infrastructure: one line of the mount table, as `VouchedDevs` reads it.
use app_listener.Base.{
  ℕ, ltb, leb, ◌<◌, sym, ◌∙◌, ◌≡◌, refl, ap, Bool, true, false, ◌||◌, Option, none, some, List, [],
  ◌∷◌, ◌++◌, ◌==◌, nat_eq, list_eq, suc, not, ◌≢◌, codes, length, get_elem?, beq_refl, bytes_iff,
  Bool-cases, Option-cases, inl, inr, length-append, contains, Bytes, arith,
}
use app_listener.Base.Strings.{has_prefix, split}
use app_listener.Wire.Mounts.{fields, parse_mount_dev, is_fuse_type, index_of, vouch_of, vouch_line}

-- A line of the table, by its fields: the six that come first, optional ones, a dash, the type and more.
-- It mounts the device `d`, without the option nosuid and with a type that is not a FUSE type.
pub record Vouching (d : ℕ) (l : Bytes) : Type 0 where
  pub id : Bytes
  pub parent : Bytes
  pub dev : Bytes
  pub root : Bytes
  pub mountpoint : Bytes
  pub options : Bytes
  pub more : List Bytes
  pub kind : Bytes
  pub rest : List Bytes
  pub shape :
      fields l ≡ id ∷ parent ∷ dev ∷ root ∷ mountpoint ∷ options ∷ (more ++ codes "-" ∷ kind ∷ rest)
  pub one_dash :
      contains (id ∷ parent ∷ dev ∷ root ∷ mountpoint ∷ options ∷ more) (codes "-") ≡ false
  pub device : parse_mount_dev dev ≡ some d
  pub suid : contains (split 44 options) (codes "nosuid") ≡ false
  pub no_fuse : (kind ≢ codes "fuse") × (kind ≢ codes "fuseblk")
  pub no_fuse_type : has_prefix kind (codes "fuse.") ≡ false

index_of-append :
    (a : Bytes) (pre post : List Bytes)
    → contains pre a ≡ false
    → index_of a (pre ++ a ∷ post) ≡ some (length pre)
index_of-append a [] post h = rw (beq_refl a) refl
index_of-append a (f ∷ pre) post h = ground (arith, index_of-append a pre post)

get_after :
    (more : List Bytes) (a kind : Bytes) (rest : List Bytes)
    → get_elem? (more ++ a ∷ kind ∷ rest) (suc (length more)) ≡ some kind
get_after [] a kind rest = refl
get_after (m ∷ more) a kind rest = get_after more a kind rest

-- A list of fields, taken apart at its first dash.
index_of-split :
    (a : Bytes) (fs : List Bytes) (i : ℕ)
    → index_of a fs ≡ some i
    → (pre : List Bytes) × (post : List Bytes) × (fs ≡ pre ++ a ∷ post)
      × (contains pre a ≡ false)
      × (length pre ≡ i)
index_of-split a [] i h = absurd cc
index_of-split a (f ∷ fs) i h = elim (Bool-cases (f == a)) [
  | inl same ↦ ([], fs, ap (λ x. x ∷ fs) ((bytes_iff f a).0 same), refl, ground arith)
  | inr other ↦ elim (Option-cases (index_of a fs)) [
    | inl lacks ↦ absurd (ground arith)
    | inr (j, found) ↦
        let (pre, post, e, clear, len) = index_of-split a fs j found in
        (f ∷ pre, post, ap (λ x. f ∷ x) e, ground arith, ground arith)
  ]
]

or_false : (a b : Bool) → (a || b) ≡ false → (a ≡ false) × (b ≡ false)
or_false a b h = (ground arith, ground arith)

not_equal : (a b : Bytes) → (a == b) ≡ false → a ≢ b
not_equal a b h e = absurd (ground (arith, bytes_iff a b))

not_fuse :
    (suid : Bool) (kind : Bytes)
    → (suid || is_fuse_type kind) ≡ false
    → (suid ≡ false)
      × (kind ≢ codes "fuse")
      × (kind ≢ codes "fuseblk")
      × (has_prefix kind (codes "fuse.") ≡ false)
not_fuse suid kind h =
    let (none_suid, types) = or_false suid (is_fuse_type kind) h in
    let (fuse, others) =
      or_false (kind == codes "fuse") ((kind == codes "fuseblk") || has_prefix kind (codes "fuse."))
        types in
    let (block, prefixed) =
      or_false (kind == codes "fuseblk") (has_prefix kind (codes "fuse.")) others in
    (
      none_suid,
      not_equal kind (codes "fuse") fuse,
      not_equal kind (codes "fuseblk") block,
      prefixed,
    )

ne_false : (a b : Bytes) → a ≢ b → (a == b) ≡ false
ne_false a b h = elim (Bool-cases (a == b)) [
  | inl same ↦ absurd (h ((bytes_iff a b).0 same))
  | inr other ↦ other
]

none-ne-some : {A : Type 0} {a : A} → ◌≡◌ {A = Option A} none (some a) → ⊥
none-ne-some h = cc

module _ (id parent dev root mountpoint options : Bytes) (more : List Bytes) where
  -- A line with those fields before the dash.
  vouch_of-kind :
      (kind : Bytes) (rest : List Bytes)
      → vouch_of
          (id ∷ parent ∷ dev ∷ root ∷ mountpoint ∷ options ∷ (more ++ codes "-" ∷ kind ∷ rest))
          (some (length (id ∷ parent ∷ dev ∷ root ∷ mountpoint ∷ options ∷ more)))
        ≡ (elim (parse_mount_dev dev) [
          | none ↦ none
          | some d ↦
              some (d, not (contains (split 44 options) (codes "nosuid") || is_fuse_type kind))
        ])
  vouch_of-kind kind rest = rw enough (
      ap
        (λ k. elim (parse_mount_dev dev) [
          | none ↦ none
          | some d ↦ some (d, not (contains (split 44 options) (codes "nosuid") || is_fuse_type k))
        ])
        (ap (λ o. elim o [ none ↦ [] | some f ↦ f ]) (get_after more (codes "-") kind rest)))
    where
      enough :
          (ltb (length (id ∷ parent ∷ dev ∷ root ∷ mountpoint ∷ options ∷ more)) 6
            || leb
                (length (
                  id
                  ∷ parent
                  ∷ dev
                  ∷ root
                  ∷ mountpoint
                  ∷ options
                  ∷ (more ++ codes "-" ∷ kind ∷ rest)))
                (suc (length (id ∷ parent ∷ dev ∷ root ∷ mountpoint ∷ options ∷ more))))
          ≡ false
      enough = ground (arith, length-append more (codes "-" ∷ kind ∷ rest))

  vouch_of-short :
      vouch_of
        (id ∷ parent ∷ dev ∷ root ∷ mountpoint ∷ options ∷ (more ++ codes "-" ∷ []))
        (some (length (id ∷ parent ∷ dev ∷ root ∷ mountpoint ∷ options ∷ more)))
      ≡ none
  vouch_of-short = rw short refl
    where
      short :
          (ltb (length (id ∷ parent ∷ dev ∷ root ∷ mountpoint ∷ options ∷ more)) 6
            || leb
                (length
                  (id ∷ parent ∷ dev ∷ root ∷ mountpoint ∷ options ∷ (more ++ codes "-" ∷ [])))
                (suc (length (id ∷ parent ∷ dev ∷ root ∷ mountpoint ∷ options ∷ more))))
          ≡ true
      short = ground (arith, length-append more (codes "-" ∷ []))

-- With fewer than six fields before the dash a line is malformed.
vouch_of-few : (fs : List Bytes) (n : ℕ) → n < 6 → vouch_of fs (some n) ≡ none
vouch_of-few fs n h = rw (few n h) refl
  where
    few : (n : ℕ) → n < 6 → ltb n 6 ≡ true
    few n h = ground arith

-- What a vouched mount's device and options are.
good_mount :
    (d : ℕ) (dev : Option ℕ) (bad : Bool)
    → ◌≡◌ {A = Option (ℕ × Bool)}
        (elim dev [ none ↦ none | some d ↦ some (d, not bad) ])
        (some (d, true))
    → (dev ≡ some d) × (bad ≡ false)
good_mount d none bad h = absurd cc
good_mount d (some e) true h = absurd cc
good_mount d (some e) false h = (ground arith, refl)

-- A line with a dash, by the fields before and behind it.
vouched_at :
    (d : ℕ) (l : Bytes) (pre post : List Bytes)
    → fields l ≡ pre ++ codes "-" ∷ post
    → contains pre (codes "-") ≡ false
    → vouch_of (pre ++ codes "-" ∷ post) (some (length pre)) ≡ some (d, true)
    → Vouching d l
vouched_at d l (id ∷ parent ∷ dev ∷ root ∷ mountpoint ∷ options ∷ more) (kind ∷ rest) e c h =
    let (device, good) =
      good_mount d (parse_mount_dev dev)
        (contains (split 44 options) (codes "nosuid") || is_fuse_type kind)
        (sym (vouch_of-kind id parent dev root mountpoint options more kind rest) ∙ h) in
    let (suid, fuse, block, prefixed) =
      not_fuse (contains (split 44 options) (codes "nosuid")) kind good in
    record {
      id = id;
      parent = parent;
      dev = dev;
      root = root;
      mountpoint = mountpoint;
      options = options;
      more = more;
      kind = kind;
      rest = rest;
      shape = e;
      one_dash = c;
      device = device;
      suid = suid;
      no_fuse = (fuse, block);
      no_fuse_type = prefixed;
    }
vouched_at d l (id ∷ parent ∷ dev ∷ root ∷ mountpoint ∷ options ∷ more) [] e c h =
    absurd (none-ne-some (sym (vouch_of-short id parent dev root mountpoint options more) ∙ h))
vouched_at d l (a ∷ b ∷ c ∷ r ∷ m ∷ []) post e k h = absurd (
    none-ne-some
      (sym (vouch_of-few ((a ∷ b ∷ c ∷ r ∷ m ∷ []) ++ codes "-" ∷ post) 5 (omega arith)) ∙ h))
vouched_at d l (a ∷ b ∷ c ∷ r ∷ []) post e k h = absurd (
    none-ne-some
      (sym (vouch_of-few ((a ∷ b ∷ c ∷ r ∷ []) ++ codes "-" ∷ post) 4 (omega arith)) ∙ h))
vouched_at d l (a ∷ b ∷ c ∷ []) post e k h =
    absurd
      (none-ne-some (sym (vouch_of-few ((a ∷ b ∷ c ∷ []) ++ codes "-" ∷ post) 3 (omega arith)) ∙ h))
vouched_at d l (a ∷ b ∷ []) post e k h =
    absurd
      (none-ne-some (sym (vouch_of-few ((a ∷ b ∷ []) ++ codes "-" ∷ post) 2 (omega arith)) ∙ h))
vouched_at d l (a ∷ []) post e k h =
    absurd (none-ne-some (sym (vouch_of-few ((a ∷ []) ++ codes "-" ∷ post) 1 (omega arith)) ∙ h))
vouched_at d l [] post e k h =
    absurd (none-ne-some (sym (vouch_of-few ([] ++ codes "-" ∷ post) 0 (omega arith)) ∙ h))

pub vouched-Vouching : (d : ℕ) (l : Bytes) → vouch_line l ≡ some (d, true) → Vouching d l
vouched-Vouching d l h = elim (Option-cases (index_of (codes "-") (fields l))) [
  | inl lacks ↦ absurd (none-ne-some (sym (ap (vouch_of (fields l)) lacks) ∙ h))
  | inr (i, found) ↦
      let (pre, post, e, clear, len) = index_of-split (codes "-") (fields l) i found in
      vouched_at d l pre post e clear (
        ap (vouch_of (pre ++ codes "-" ∷ post)) (ap some len)
        ∙ ap (λ fs. vouch_of fs (some i)) (sym e)
        ∙ ap (vouch_of (fields l)) (sym found)
        ∙ h)
]

pub Vouching-vouched : (d : ℕ) (l : Bytes) → Vouching d l → vouch_line l ≡ some (d, true)
Vouching-vouched d l v =
    ap (λ fs. vouch_of fs (index_of (codes "-") fs)) v.shape
    ∙ ap
        (vouch_of (
          v.id
          ∷ v.parent
          ∷ v.dev
          ∷ v.root
          ∷ v.mountpoint
          ∷ v.options
          ∷ (v.more ++ codes "-" ∷ v.kind ∷ v.rest)))
        (index_of-append (codes "-")
          (v.id ∷ v.parent ∷ v.dev ∷ v.root ∷ v.mountpoint ∷ v.options ∷ v.more) (v.kind ∷ v.rest)
          v.one_dash)
    ∙ vouch_of-kind v.id v.parent v.dev v.root v.mountpoint v.options v.more v.kind v.rest
    ∙ rw
        (
          v.device,
          v.suid,
          ne_false v.kind (codes "fuse") v.no_fuse.0,
          ne_false v.kind (codes "fuseblk") v.no_fuse.1,
          v.no_fuse_type,
        )
        refl
