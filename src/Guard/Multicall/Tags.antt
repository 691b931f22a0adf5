-- ===== src/Guard/Multicall/Tags.antt =====
-- internal/guard/multicall.go, `appletTag`: one tag for each applet name, for good.
use app_listener.Base.{
  ℕ, ◌+◌, ◌≤◌, ◌<◌, ◌≡◌, refl, ◌∙◌, inl, inr, Option, none, some, List, [], ◌∷◌, ◌==◌, nat_eq,
  list_eq, if◌then◌else◌, leb, length, Bytes, bytes_iff, beq_refl, Bool-cases, Option-cases, arith,
}
use app_listener.Base.Assoc.{lookup, insert, lookup-insert}
use app_listener.Guard.Keys.{mc_tag_none}
use app_listener.Guard.Multicall.{applet_tag}

-- The tags are 1 to the number of names, and two names never share one.
pub record IsTagTable (tags : List (Bytes × ℕ)) : Type 0 where
  pub range : (n : Bytes) (t : ℕ) → lookup n tags ≡ some t → (1 ≤ t) × (t ≤ length tags)
  pub distinct : (n m : Bytes) (t : ℕ) → lookup n tags ≡ some t → lookup m tags ≡ some t → n ≡ m
  pub small : length tags < mc_tag_none

length-insert_new :
    (n : Bytes) (t : ℕ) (tags : List (Bytes × ℕ))
    → lookup n tags ≡ none
    → length (insert n t tags) ≡ length tags + 1
length-insert_new n t [] h = omega arith
length-insert_new n t ((m, s) ∷ tags) h = ground (arith, length-insert_new n t tags)

-- What `appletTag` promises of its answer.
abbrev pub Tagged : Bytes → List (Bytes × ℕ) → Option (ℕ × List (Bytes × ℕ)) → Type 0
Tagged name tags none = (lookup name tags ≡ none) × (length tags + 1 ≡ mc_tag_none)
Tagged name tags (some (t, tags')) =
    (lookup name tags' ≡ some t)
    × (1 ≤ t)
    × (t < mc_tag_none)
    × ((m : Bytes) (s : ℕ) → lookup m tags ≡ some s → lookup m tags' ≡ some s)
    × IsTagTable tags'

module _ (name : Bytes) (tags : List (Bytes × ℕ)) (table : IsTagTable tags) where
  abbrev fresh : ℕ
  fresh = length tags + 1

  found :
      (m : Bytes)
      → lookup m (insert name fresh tags) ≡ (if name == m then some fresh else lookup m tags)
  found m = lookup-insert name m fresh tags

  known : (n : Bytes) → lookup n tags ≡ some fresh → ⊥
  known n e = omega (arith, table.range n fresh e)

  insert-IsTagTable :
      lookup name tags ≡ none → fresh < mc_tag_none → IsTagTable (insert name fresh tags)
  insert-IsTagTable new room = record {
    range =
        λ n t e. ground (arith, found n, table.range n t, length-insert_new name fresh tags new);
    distinct = λ n m t e e'. ground (
      arith,
      found n,
      found m,
      known n,
      known m,
      table.distinct n m t,
      bytes_iff name n,
      bytes_iff name m,
    );
    small = omega (arith, length-insert_new name fresh tags new);
  }

  -- A known name keeps its tag and a new one gets a tag that no other name has, below the mark of an
  -- unattested applet; no tag changes, and the answer is an error only when the tags are used up.
  pub applet_tag-Tagged : Tagged name tags (applet_tag name tags)
  unfolding applet_tag
  applet_tag-Tagged = elim (Option-cases (lookup name tags)) [
    | inl new ↦ elim (Bool-cases (leb mc_tag_none fresh)) [
      | inl full ↦ rw (new, full, applet_tag) (new, ground (arith, table.small))
      | inr room ↦
          rw (new, room, applet_tag)
            (
              found name ∙ rw (beq_refl name) refl,
              omega arith,
              ground arith,
              λ m s e. ground (arith, found m, bytes_iff name m, new),
              insert-IsTagTable new (ground arith),
            )
    ]
    | inr (t, old) ↦
        let (lo, hi) = table.range name t old in
        rw (old, applet_tag) (old, lo, omega (arith, table.small), λ m s e. e, table)
  ]
