-- ===== src/Recorder/Classify/Innermost.antt =====
-- internal/recorder: the resource that a path follows.
use app_listener.Base.{
  ◌≡◌, refl, Bool, true, false, not, ◌&&◌, ◌||◌, Option, none, some, List, [], ◌∷◌, nat_eq, list_eq,
  if◌then◌else◌, leb, length, all, if_cases, Bytes, arith,
}
use app_listener.DaemonConfig.{Resource, Config}
use app_listener.Recorder.Classify.{holds_path, is_longer, inner_from, innermost_resource}

-- No resource that holds the path has a longer one.
abbrev pub is_deepest : Bytes → Option Resource → Resource → Bool
is_deepest path none r = not (holds_path path r)
is_deepest path (some inner) r = not (holds_path path r) || leb (length r.path) (length inner.path)

abbrev HoldsIf : Bytes → Option Resource → Type 0
HoldsIf path none = Unit
HoldsIf path (some r) = holds_path path r ≡ true

-- A deeper find stays as good.
deeper :
    (path : Bytes) (r s : Resource) (o : Option Resource)
    → holds_path path r ≡ true
    → is_longer r o ≡ true
    → is_deepest path o s ≡ true
    → is_deepest path (some r) s ≡ true
deeper path r s none h l k = ground arith
deeper path r s (some inner) h l k = ground arith

abbrev step : Bytes → Option Resource → Resource → Option Resource
step path o r = if holds_path path r && is_longer r o then some r else o

and_parts : (a b : Bool) → (a && b) ≡ true → (a ≡ true) × (b ≡ true)
and_parts a b h = ground arith

step-keeps :
    (path : Bytes) (o : Option Resource) (r s : Resource)
    → is_deepest path o s ≡ true
    → is_deepest path (step path o r) s ≡ true
step-keeps path o r s h =
    if_cases (λ x. is_deepest path x s ≡ true) (holds_path path r && is_longer r o) (some r) o
      (λ found. let (a, b) = and_parts _ _ found in deeper path r s o a b h) λ skip. h

step-deepest :
    (path : Bytes) (o : Option Resource) (r : Resource) → is_deepest path (step path o r) r ≡ true
step-deepest path o r =
    if_cases (λ x. is_deepest path x r ≡ true) (holds_path path r && is_longer r o) (some r) o
      (λ found. ground arith) λ skip. from o skip
  where
    from :
        (o : Option Resource)
        → (holds_path path r && is_longer r o) ≡ false
        → is_deepest path o r ≡ true
    from none h = ground arith
    from (some inner) h = ground arith

step-holds :
    (path : Bytes) (o : Option Resource) (r : Resource)
    → HoldsIf path o
    → HoldsIf path (step path o r)
step-holds path o r h =
    if_cases (HoldsIf path) (holds_path path r && is_longer r o) (some r) o
      (λ found. (and_parts _ _ found).0) λ skip. h

inner_from-keeps :
    (path : Bytes) (o : Option Resource) (rs : List Resource) (s : Resource)
    → is_deepest path o s ≡ true
    → is_deepest path (inner_from path o rs) s ≡ true
inner_from-keeps path o [] s h = h
inner_from-keeps path o (r ∷ rs) s h =
    inner_from-keeps path (step path o r) rs s (step-keeps path o r s h)

-- The one list is read while the other grows.
inner_from-deepest :
    (path : Bytes) (o : Option Resource) (rs : List Resource)
    → all (is_deepest path (inner_from path o rs)) rs ≡ true
inner_from-deepest path o [] = refl
inner_from-deepest path o (r ∷ rs) =
    both _ _ (inner_from-keeps path (step path o r) rs r (step-deepest path o r))
      (inner_from-deepest path (step path o r) rs)
  where
    both : (a b : Bool) → a ≡ true → b ≡ true → (a && b) ≡ true
    both a b h k = ground arith

inner_from-holds :
    (path : Bytes) (o : Option Resource) (rs : List Resource)
    → HoldsIf path o
    → HoldsIf path (inner_from path o rs)
inner_from-holds path o [] h = h
inner_from-holds path o (r ∷ rs) h =
    inner_from-holds path (step path o r) rs (step-holds path o r h)

abbrev pub holds_if : Bytes → Option Resource → Bool
holds_if path none = true
holds_if path (some r) = holds_path path r

-- The resource that a path follows holds it, and no resource of the configuration that holds it has a longer
-- path; there is none only where no resource holds it.
pub innermost_resource-deepest :
    (path : Bytes) (cfg : Config)
    → (holds_if path (innermost_resource path cfg) ≡ true)
      × (all (is_deepest path (innermost_resource path cfg)) cfg.resources ≡ true)
unfolding innermost_resource
innermost_resource-deepest path cfg = (
  as_test (inner_from path none cfg.resources) (inner_from-holds path none cfg.resources tt),
  inner_from-deepest path none cfg.resources,
)
  where
    as_test : (o : Option Resource) → HoldsIf path o → holds_if path o ≡ true
    as_test none h = refl
    as_test (some r) h = h
