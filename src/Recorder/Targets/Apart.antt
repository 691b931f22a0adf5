-- ===== src/Recorder/Targets/Apart.antt =====
-- internal/recorder: the paths of a recording are apart, and none is a system path.
use app_listener.Base.{
  ◌≡◌, refl, ◌∙◌, Bool, true, false, not, ◌&&◌, ◌||◌, Option, none, some, List, [], ◌∷◌, ◌++◌, ◌==◌,
  nat_eq, list_eq, if◌then◌else◌, ltb, length, any, any-append, all, all-append, contains, if_cases,
  Bytes, bytes_iff, arith,
}
use app_listener.DaemonConfig.{FileKind, directory, symlink, special, regular, FileSystem, Config}
use app_listener.DaemonConfig.Text.{clean, is_abs}
use app_listener.Recorder.{Target, Existing}
use app_listener.Recorder.Targets.{
  refused_path, overlaps, existing_section, with_section, of_kind, is_real, validate_clean,
  validate_target, join_target, validate_from, validate_targets, max_targets,
}

-- No two of the paths overlap.
abbrev pub is_disjoint : List Target → Bool
is_disjoint [] = true
is_disjoint (t ∷ ts) = not (any (λ o. overlaps t.path o.path) ts) && is_disjoint ts

overlaps_sym : (a b : Bytes) → overlaps a b ≡ overlaps b a
unfolding overlaps
overlaps_sym a b = ground (arith, bytes_iff a b, bytes_iff b a)

disjoint-append_one :
    (ts : List Target) (t : Target)
    → is_disjoint (ts ++ t ∷ []) ≡ (is_disjoint ts && not (any (λ o. overlaps t.path o.path) ts))
disjoint-append_one [] t = refl
disjoint-append_one (s ∷ ts) t = ground (
  arith,
  any-append (λ o. overlaps s.path o.path) ts (t ∷ []),
  overlaps_sym s.path t.path,
  disjoint-append_one ts t,
)

module _ (fs : FileSystem) (base : Option Config) (homes : List Bytes) where
  -- A path that may be recorded.
  abbrev pub is_allowed : Target → Bool
  is_allowed t = not (refused_path t.path homes)

  abbrev AllowedIf : Option Target → Type 0
  AllowedIf none = Unit
  AllowedIf (some t) = is_allowed t ≡ true

  with_section-path :
      (p : Bytes) (d : Bool) (b : Option Config) (h : refused_path p homes ≡ false)
      → AllowedIf (with_section p d b)
  with_section-path p d none h = ground arith
  with_section-path p d (some c) h = from (existing_section p c)
    where
      from :
          (o : Option (Option Existing))
          → AllowedIf (elim o [
            | none ↦ none
            | some ex ↦ some (record { path = p; is_dir = d; existing = ex })
          ])
      from none = tt
      from (some ex) = ground arith

  of_kind-path :
      (p : Bytes) (k : FileKind) → refused_path p homes ≡ false → AllowedIf (of_kind p base k)
  of_kind-path p directory h = with_section-path p true base h
  of_kind-path p symlink h = tt
  of_kind-path p special h = tt
  of_kind-path p (regular n) h =
      if_cases AllowedIf (ltb 1 n) none _ (λ linked. tt) λ single. with_section-path p false base h

  not_refused : (a b : Bool) → (a || b) ≡ false → a ≡ false
  not_refused a b h = ground arith

  validate_clean-allowed : (p : Bytes) → AllowedIf (validate_clean fs base homes p)
  validate_clean-allowed p =
      if_cases AllowedIf _ none _ (λ bad. tt) λ good. from (fs.lstat p) (not_refused _ _ good)
    where
      from :
          (o : Option FileKind)
          → refused_path p homes ≡ false
          → AllowedIf (elim o [
            | none ↦ none
            | some kind ↦ if not (is_real p (fs.eval_symlinks p)) then none else of_kind p base kind
          ])
      from none h = tt
      from (some kind) h =
          if_cases AllowedIf (not (is_real p (fs.eval_symlinks p))) none _ (λ linked. tt)
            λ real. of_kind-path p kind h

  validate_target-allowed : (raw : Bytes) → AllowedIf (validate_target fs base homes raw)
  unfolding validate_target
  validate_target-allowed raw =
      if_cases AllowedIf (not (is_abs raw) || contains raw 0) none _ (λ bad. tt)
        λ good. validate_clean-allowed (clean raw)

  abbrev Kept : List Target → Type 0
  Kept ts = (is_disjoint ts ≡ true) × (all is_allowed ts ≡ true)

  abbrev KeptIf : Option (List Target) → Type 0
  KeptIf none = Unit
  KeptIf (some ts) = Kept ts

  join_target-Kept :
      (out : List Target) (o : Option Target)
      → Kept out
      → AllowedIf o
      → KeptIf (join_target fs base homes out o)
  join_target-Kept out none k a = tt
  join_target-Kept out (some t) k a =
      if_cases KeptIf (any (λ o. overlaps t.path o.path) out) none (some (out ++ t ∷ []))
        (λ clash. tt)
        λ free. (
          disjoint-append_one out t ∙ both _ _ k.0 free,
          all-append is_allowed out (t ∷ []) ∙ both_true _ _ k.1 a,
        )
    where
      both : (a b : Bool) → a ≡ true → b ≡ false → (a && not b) ≡ true
      both a b h k = ground arith

      both_true : (a b : Bool) → a ≡ true → b ≡ true → (a && (b && true)) ≡ true
      both_true a b h k = ground arith

  validate_from-Kept :
      (out : List Target) (raws : List Bytes)
      → Kept out
      → KeptIf (validate_from fs base homes out raws)
  validate_from-Kept out [] k = k
  validate_from-Kept out (raw ∷ raws) k =
      from (join_target fs base homes out (validate_target fs base homes raw))
        (join_target-Kept out _ k (validate_target-allowed raw))
        (λ next n. validate_from-Kept next raws n)
    where
      from :
          (o : Option (List Target))
          → KeptIf o
          → ((next : List Target) → Kept next → KeptIf (validate_from fs base homes next raws))
          → KeptIf (elim o [ none ↦ none | some next ↦ validate_from fs base homes next raws ])
      from none n rest = tt
      from (some next) n rest = rest next n

  Kept-of : (o : Option (List Target)) (ts : List Target) → KeptIf o → o ≡ some ts → Kept ts
  Kept-of o ts k e = rw e at k

  -- When `ValidateTargets` accepts the paths of a recording, no two of them are the same or inside one
  -- another, and none is a system root, inside or around a tree that may not be guarded, or a user's home.
  pub validate_targets-apart :
      (paths : List Bytes) (ts : List Target)
      → validate_targets fs base homes paths ≡ some ts
      → (is_disjoint ts ≡ true) × (all is_allowed ts ≡ true)
  unfolding validate_targets
  validate_targets-apart paths ts e =
      Kept-of _ ts
        (if_cases KeptIf ((paths == []) || ltb max_targets (length paths)) none _ (λ bad. tt)
          λ good. validate_from-Kept [] paths (refl, refl))
        e
