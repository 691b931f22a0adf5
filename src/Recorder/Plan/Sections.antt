-- ===== src/Recorder/Plan/Sections.antt =====
-- internal/recorder: a section of a plan whitelists what touched its path, and nothing else.
use app_listener.Base.{
  ◌≡◌, refl, ap, ◌∙◌, Bool, true, false, not, ◌&&◌, ◌||◌, Option, none, some, List, [], ◌∷◌, ◌==◌,
  nat_eq, list_eq, if◌then◌else◌, ltb, length, any, all, contains, if_cases, Bytes, arith,
}
use app_listener.Base.Assoc.{lookup, all-lookup}
use app_listener.Base.Sort.{sort, bytes_leb}
use app_listener.Recorder.{Target, Existing, Binary, has_line, is_admissible}
use app_listener.Recorder.Plan.{
  Selection, LineRule, Section, Extension, PlannedBinary, Plan, by_line, Chosen, plan_binaries,
  plan, rule_for, allow_for, keys, section_for, add_section, add_extension, plan_section,
  plan_sections, plan_extensions,
}
use app_listener.Recorder.Plan.Approved.{plan-parts}
use app_listener.Recorder.Plan.Picks.{by_line-recorded, plan_binaries-all}

-- The line was selected, and an admissible recorded binary of that line touched the path.
abbrev pub is_touched : List Binary → List Bytes → Bytes → LineRule → Bool
is_touched recorded sel path rule =
    contains sel rule.path
    && any (λ x. (is_admissible x && (x.line == rule.path)) && contains x.targets path) recorded

-- What a chosen binary allows for a path.
abbrev touch_vouched : List Binary → List Bytes → Bytes → Bytes × Binary → Bool
touch_vouched recorded sel path c =
    not (contains c.1.targets path)
    || is_touched recorded sel path (record { path = c.0; events = [] })

picked_touch :
    (recorded : List Binary) (sel : List Bytes) (path line : Bytes) (b : Binary)
    → by_line line recorded ≡ some b
    → contains sel line ≡ true
    → touch_vouched recorded sel path (line, b) ≡ true
picked_touch recorded sel path line b e c = from (contains b.targets path) refl
  where
    both : (a b : Bool) → a ≡ true → b ≡ true → (a && b) ≡ true
    both a b h k = ground arith

    from :
        (o : Bool)
        → contains b.targets path ≡ o
        → (not o || is_touched recorded sel path (record { path = line; events = [] })) ≡ true
    from false h = refl
    from true h = both _ _ c (by_line-recorded line recorded b (λ x. contains x.targets path) e h)

-- Every line of a section is one of a chosen binary that touched the path and that the section lacks.
module _ (p : LineRule → Bool) (t : Target) (chosen : Chosen) (masks : Bool)
    (vouch : (line : Bytes) (b : Binary)
      → lookup line chosen ≡ some b
      → contains b.targets t.path ≡ true
      → has_line t.existing line ≡ false
      → p (rule_for masks line b) ≡ true) where
  allow_for-all : (lines : List Bytes) → all p (allow_for t chosen masks lines) ≡ true
  allow_for-all [] = refl
  allow_for-all (line ∷ lines) = from (lookup line chosen) refl (allow_for-all lines)
    where
      from :
          (o : Option Binary)
          → lookup line chosen ≡ o
          → all p (allow_for t chosen masks lines) ≡ true
          → all p (elim o [
            | none ↦ allow_for t chosen masks lines
            | some b ↦
                if not (contains b.targets t.path) || has_line t.existing line
                then allow_for t chosen masks lines
                else rule_for masks line b ∷ allow_for t chosen masks lines
          ])
            ≡ true
      from none e rest = rest
      from (some b) e rest =
          if_cases (λ l. all p l ≡ true)
            (not (contains b.targets t.path) || has_line t.existing line) _ _ (λ skip. rest)
            λ add. both _ _ (vouch line b e (touched _ _ add) (unlisted _ _ add)) rest
        where
          both : (a b : Bool) → a ≡ true → b ≡ true → (a && b) ≡ true
          both a b h k = ground arith

          touched : (a b : Bool) → (not a || b) ≡ false → a ≡ true
          touched a b h = ground arith

          unlisted : (a b : Bool) → (not a || b) ≡ false → b ≡ false
          unlisted a b h = ground arith

module _ (recorded : List Binary) (sel : List Bytes) (chosen : Chosen) (encrypt : List Bytes)
    (masks : Bool)
    (vouched : (path : Bytes) → all (touch_vouched recorded sel path) chosen ≡ true) where
  abbrev pub is_recorded_section : Section → Bool
  is_recorded_section s = all (is_touched recorded sel s.path) s.allow

  abbrev pub is_recorded_extension : Extension → Bool
  is_recorded_extension x = all (is_touched recorded sel x.path) x.allow

  plan_section-recorded :
      (t : Target) → is_recorded_section (plan_section chosen encrypt masks t) ≡ true
  unfolding section_for
  plan_section-recorded t =
      allow_for-all (is_touched recorded sel t.path) t chosen masks
        (λ line b e touched unlisted.
          vouched_by _ _
            (all-lookup (touch_vouched recorded sel t.path) line b chosen (vouched t.path) e)
            touched)
        (sort bytes_leb (keys chosen))
    where
      vouched_by : (a b : Bool) → (not a || b) ≡ true → a ≡ true → b ≡ true
      vouched_by a b h k = ground arith

  plan_sections-recorded :
      (ts : List Target) → all is_recorded_section (plan_sections chosen encrypt masks ts) ≡ true
  plan_sections-recorded [] = refl
  plan_sections-recorded (t ∷ ts) =
      from t.existing (plan_section-recorded t) (plan_sections-recorded ts)
    where
      from :
          (o : Option Existing)
          → is_recorded_section (plan_section chosen encrypt masks t) ≡ true
          → all is_recorded_section (plan_sections chosen encrypt masks ts) ≡ true
          → all is_recorded_section (
              add_section o
                (plan_section chosen encrypt masks t)
                (plan_sections chosen encrypt masks ts))
            ≡ true
      from none h k = ground arith
      from (some e) h k = k

  plan_extensions-recorded :
      (ts : List Target)
      → all is_recorded_extension (plan_extensions chosen encrypt masks ts) ≡ true
  plan_extensions-recorded [] = refl
  plan_extensions-recorded (t ∷ ts) =
      from t.existing (plan_section chosen encrypt masks t) (plan_section-recorded t)
        (plan_extensions-recorded ts)
    where
      from :
          (o : Option Existing) (s : Section)
          → is_recorded_section s ≡ true
          → all is_recorded_extension (plan_extensions chosen encrypt masks ts) ≡ true
          → all is_recorded_extension (add_extension o s (plan_extensions chosen encrypt masks ts))
            ≡ true
      from none s h k = k
      from (some e) s h k =
          if_cases (λ l. all is_recorded_extension l ≡ true) (ltb 0 (length s.allow)) _ _
            (λ some_. both _ _ h k) λ none_. k
        where
          both : (a b : Bool) → a ≡ true → b ≡ true → (a && b) ≡ true
          both a b h k = ground arith

-- In an accepted plan, every whitelist line of a new section, and every line that an existing section gains,
-- was selected, and an admissible recorded binary of that line touched the path of that very section.
pub plan-touched :
    (targets : List Target) (recorded : List Binary) (sel : Selection) (p : Plan)
    → plan targets recorded sel ≡ some p
    → (all (λ s. all (is_touched recorded sel.binaries s.path) s.allow) p.sections ≡ true)
      × (all (λ x. all (is_touched recorded sel.binaries x.path) x.allow) p.extensions ≡ true)
plan-touched targets recorded sel p h =
    let (r, a, b, c, bs, s, x) = plan-parts targets recorded sel p h in
    (
      ap (all (λ (s : Section). all (is_touched recorded sel.binaries s.path) s.allow)) s
          ∙ plan_sections-recorded recorded sel.binaries r.1 p.encrypt sel.masks (vouched r a)
              targets,
      ap (all (λ (x : Extension). all (is_touched recorded sel.binaries x.path) x.allow)) x
          ∙ plan_extensions-recorded recorded sel.binaries r.1 p.encrypt sel.masks (vouched r a)
              targets,
    )
  where
    vouched :
        (r : List PlannedBinary × Chosen)
        → plan_binaries recorded sel.binaries ≡ some r
        → (path : Bytes) → all (touch_vouched recorded sel.binaries path) r.1 ≡ true
    vouched r a path =
        (plan_binaries-all recorded sel.binaries (touch_vouched recorded sel.binaries path)
          (λ pb. true) (picked_touch recorded sel.binaries path) (λ line b sum e k u f. refl) r a).1
