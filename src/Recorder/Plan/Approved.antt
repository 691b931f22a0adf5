-- ===== src/Recorder/Plan/Approved.antt =====
-- internal/recorder: a plan holds nothing that was not recorded and selected.
use app_listener.Base.{
  some-bind, ◌≡◌, refl, ap, sym, ◌∙◌, Bool, true, false, not, ◌&&◌, ◌||◌, Option, none, some, List,
  [], ◌∷◌, ◌==◌, nat_eq, list_eq, any, any_mono, all, contains, if_cases, Bytes, bytes_iff,
  beq_refl, arith,
}
use app_listener.Recorder.{Target, Binary, is_admissible}
use app_listener.Recorder.Plan.{
  is_covered, Selection, PlannedBinary, Plan, dedupe, decode_hex, by_line, Chosen, full_hash,
  plan_binaries, has_lib, lib_of_chosen, plan_libs, target_at, is_new, plan_encrypt, finish_plan,
  plan, plan_sections, plan_extensions, is_empty,
}
use app_listener.Recorder.Plan.Picks.{by_line-recorded, plan_binaries-all}

-- The binary was recorded, may be whitelisted, is not whitelisted everywhere yet, and its content is planned.
abbrev pub hash_is : Option Bytes → Bytes → Bool
hash_is none sum = false
hash_is (some s) sum = s == sum

abbrev pub is_approved : List Binary → List Bytes → PlannedBinary → Bool
is_approved recorded sel pb =
    contains sel pb.line
    && any
        (λ x.
          (is_admissible x && (x.line == pb.line))
          && (not (is_covered x) && hash_is (full_hash (decode_hex x.sha256)) pb.sha256))
        recorded

abbrev pub is_needed_lib : List Binary → List Bytes → Bytes → Bool
is_needed_lib recorded sel lib =
    any (λ x. (is_admissible x && contains sel x.line) && has_lib lib x) recorded

approved_line :
    (recorded : List Binary) (sel : List Bytes) (line : Bytes) (b : Binary) (sum : Bytes)
    → by_line line recorded ≡ some b
    → contains sel line ≡ true
    → is_covered b ≡ false
    → full_hash (decode_hex b.sha256) ≡ some sum
    → is_approved recorded sel
        (record { line = line; sha256 = sum; system_placed = b.system_placed })
      ≡ true
approved_line recorded sel line b sum e c u f = both _ _ c (
    by_line-recorded line recorded b _ e
      (both _ _ (flip _ u) (ap (λ o. hash_is o sum) f ∙ beq_refl sum)))
  where
    both : (a b : Bool) → a ≡ true → b ≡ true → (a && b) ≡ true
    both a b h k = ground arith

    flip : (a : Bool) → a ≡ false → not a ≡ true
    flip a h = ground arith

-- A library of a chosen binary.
abbrev lib_vouched : List Binary → List Bytes → Bytes → Bytes × Binary → Bool
lib_vouched recorded sel lib c = not (has_lib lib c.1) || is_needed_lib recorded sel lib

picked_lib :
    (recorded : List Binary) (sel : List Bytes) (lib line : Bytes) (b : Binary)
    → by_line line recorded ≡ some b
    → contains sel line ≡ true
    → lib_vouched recorded sel lib (line, b) ≡ true
picked_lib recorded sel lib line b e c = from (has_lib lib b) refl
  where
    named :
        (x : Binary)
        → ((is_admissible x && (x.line == line)) && has_lib lib x) ≡ true
        → ((is_admissible x && contains sel x.line) && has_lib lib x) ≡ true
    named x h =
        swap _ (x.line == line) (contains sel x.line) _
          (λ same. ap (contains sel) ((bytes_iff x.line line).0 same) ∙ c) h
      where
        swap :
            (a b c d : Bool)
            → (b ≡ true → c ≡ true)
            → ((a && b) && d) ≡ true
            → ((a && c) && d) ≡ true
        swap true true c true f h = ground (arith, f refl)
        swap true true c false f h = absurd cc
        swap true false c d f h = absurd cc
        swap false b c d f h = absurd cc

    from : (o : Bool) → has_lib lib b ≡ o → (not o || is_needed_lib recorded sel lib) ≡ true
    from false h = refl
    from true h = any_mono _ _ recorded named (by_line-recorded line recorded b (has_lib lib) e h)

libs_needed :
    (recorded : List Binary) (sel : List Bytes) (lib : Bytes) (chosen : Chosen)
    → all (lib_vouched recorded sel lib) chosen ≡ true
    → lib_of_chosen lib chosen ≡ true
    → is_needed_lib recorded sel lib ≡ true
libs_needed recorded sel lib [] h k = absurd cc
libs_needed recorded sel lib (c ∷ chosen) h k =
    step (has_lib lib c.1) (is_needed_lib recorded sel lib) _ _ h k
      (libs_needed recorded sel lib chosen)
  where
    step :
        (a n b d : Bool)
        → ((not a || n) && b) ≡ true
        → (a || d) ≡ true
        → (b ≡ true → d ≡ true → n ≡ true)
        → n ≡ true
    step true true b d h k f = refl
    step true false b d h k f = absurd cc
    step false n b d h k f = f h k

abbrev AllIf : (Bytes → Bool) → Option (List Bytes) → Type 0
AllIf p none = Unit
AllIf p (some l) = all p l ≡ true

all_of :
    (p : Bytes → Bool) (o : Option (List Bytes)) (l : List Bytes)
    → AllIf p o
    → o ≡ some l
    → all p l ≡ true
all_of p o l h e = rw e at h

AllIf-cons :
    (p : Bytes → Bool) (x : Bytes) (o : Option (List Bytes))
    → p x ≡ true
    → AllIf p o
    → AllIf p (elim o [ none ↦ none | some rest ↦ some (x ∷ rest) ])
AllIf-cons p x none h k = tt
AllIf-cons p x (some l) h k = ground arith

not-not : (b : Bool) → not b ≡ false → b ≡ true
not-not b h = ground arith

plan_libs-all :
    (p : Bytes → Bool) (chosen : Chosen) (ls : List Bytes)
    → ((l : Bytes) → lib_of_chosen l chosen ≡ true → p l ≡ true)
    → AllIf p (plan_libs chosen ls)
plan_libs-all p chosen [] f = refl
plan_libs-all p chosen (l ∷ ls) f =
    if_cases (AllIf p) (not (lib_of_chosen l chosen)) none _ (λ bad. tt)
      λ good.
        AllIf-cons p l (plan_libs chosen ls) (f l (not-not _ good)) (plan_libs-all p chosen ls f)

plan_encrypt-all :
    (ts : List Target) (es : List Bytes) → AllIf (λ e. is_new (target_at e ts)) (plan_encrypt ts es)
plan_encrypt-all ts [] = refl
plan_encrypt-all ts (e ∷ es) =
    if_cases (AllIf (λ e. is_new (target_at e ts))) (not (is_new (target_at e ts))) none _
      (λ bad. tt)
      λ good.
        AllIf-cons (λ e. is_new (target_at e ts)) e (plan_encrypt ts es) (not-not _ good)
          (plan_encrypt-all ts es)

finish_parts :
    (ts : List Target) (masks : Bool) (r : List PlannedBinary × Chosen) (libs enc : List Bytes)
    (p : Plan)
    → finish_plan ts masks r libs enc ≡ some p
    → (p.libs ≡ libs)
      × (p.encrypt ≡ enc)
      × (p.binaries ≡ r.0)
      × (p.sections ≡ plan_sections r.1 enc masks ts)
      × (p.extensions ≡ plan_extensions r.1 enc masks ts)
finish_parts ts masks (bs, chosen) libs enc p =
    if_cases Q
      (is_empty (plan_sections chosen enc masks ts)
        && is_empty (plan_extensions chosen enc masks ts))
      none (some made) (λ empty e. absurd cc)
      λ full e.
        let same : p ≡ made = same_plan e in
        (
          ap (λ (x : Plan). x.libs) same,
          ap (λ (x : Plan). x.encrypt) same,
          ap (λ (x : Plan). x.binaries) same,
          ap (λ (x : Plan). x.sections) same,
          ap (λ (x : Plan). x.extensions) same,
        )
  where
    made : Plan
    made = record {
      sections = plan_sections chosen enc masks ts;
      extensions = plan_extensions chosen enc masks ts;
      libs = libs;
      encrypt = enc;
      binaries = bs;
    }

    Q : Option Plan → Type 0
    Q o =
        o ≡ some p
        → (p.libs ≡ libs)
          × (p.encrypt ≡ enc)
          × (p.binaries ≡ bs)
          × (p.sections ≡ plan_sections chosen enc masks ts)
          × (p.extensions ≡ plan_extensions chosen enc masks ts)

    same_plan : some made ≡ some p → p ≡ made
    same_plan e = cc

-- The steps of a plan that was made.
pub plan-parts :
    (targets : List Target) (recorded : List Binary) (sel : Selection) (p : Plan)
    → plan targets recorded sel ≡ some p
    → (r : List PlannedBinary × Chosen) × (plan_binaries recorded sel.binaries ≡ some r)
      × (plan_libs r.1 (dedupe sel.libs) ≡ some p.libs)
      × (plan_encrypt targets (dedupe sel.encrypt) ≡ some p.encrypt)
      × (p.binaries ≡ r.0)
      × (p.sections ≡ plan_sections r.1 p.encrypt sel.masks targets)
      × (p.extensions ≡ plan_extensions r.1 p.encrypt sel.masks targets)
unfolding plan
plan-parts targets recorded sel p h =
    let (r, a, h1) = some-bind (plan_binaries recorded sel.binaries) _ p h in
    let (libs, b, h2) = some-bind (plan_libs r.1 (dedupe sel.libs)) _ p h1 in
    let (enc, c, h3) = some-bind (plan_encrypt targets (dedupe sel.encrypt)) _ p h2 in
    let (l, e, b', s, x) = finish_parts targets sel.masks r libs enc p h3 in
    (
      r,
      a,
      b ∙ ap some (sym l),
      c ∙ ap some (sym e),
      b',
      s ∙ ap (λ n. plan_sections r.1 n sel.masks targets) (sym e),
      x ∙ ap (λ n. plan_extensions r.1 n sel.masks targets) (sym e),
    )

-- When `Plan` accepts a selection, each binary it plans was selected and recorded, may be whitelisted, is not
-- whitelisted yet wherever it went, and is planned with its recorded content hash of 32 bytes; each library is
-- one without a problem of a recorded binary that was selected; and each path to encrypt is a path of the
-- recording that no section guards yet.
pub plan-approved :
    (targets : List Target) (recorded : List Binary) (sel : Selection) (p : Plan)
    → plan targets recorded sel ≡ some p
    → (all (is_approved recorded sel.binaries) p.binaries ≡ true)
      × (all (is_needed_lib recorded sel.binaries) p.libs ≡ true)
      × (all (λ e. is_new (target_at e targets)) p.encrypt ≡ true)
plan-approved targets recorded sel p h =
    let (r, a, b, c, bs, s, x) = plan-parts targets recorded sel p h in
    (
      ap (all (is_approved recorded sel.binaries)) bs
          ∙ (plan_binaries-all recorded sel.binaries (λ k. true) (is_approved recorded sel.binaries)
              (λ line b e k. refl) (approved_line recorded sel.binaries) r a).0,
      all_of (is_needed_lib recorded sel.binaries) _ p.libs
          (plan_libs-all (is_needed_lib recorded sel.binaries) r.1 (dedupe sel.libs) λ l k.
            libs_needed recorded sel.binaries l r.1
              (plan_binaries-all recorded sel.binaries (lib_vouched recorded sel.binaries l)
                (λ pb. true) (picked_lib recorded sel.binaries l) (λ line b sum e k u f. refl) r
                a).1
              k)
          b,
      all_of (λ e. is_new (target_at e targets)) _ p.encrypt
          (plan_encrypt-all targets (dedupe sel.encrypt)) c,
    )
