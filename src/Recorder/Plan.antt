-- ===== src/Recorder/Plan.antt =====
-- internal/recorder: what the operator selected becomes a plan, `Plan`, once every part of it was recorded.
pub mod Picks
pub mod Approved
pub mod Sections
use app_listener.Base.{
  ℕ, zero, suc, ◌+◌, ◌*◌, ◌-◌, Bool, true, false, not, ◌&&◌, ◌||◌, Option, none, some, List, [],
  ◌∷◌, ◌++◌, ◌==◌, nat_eq, list_eq, if◌then◌else◌, ltb, leb, length, any, contains, map, Bytes,
  codes,
}
use app_listener.Base.Assoc.{lookup}
use app_listener.Base.Sort.{sort, bytes_leb}
use app_listener.Recorder.{Target, Existing, has_line, Lib, Binary, is_admissible}

-- `Covered`
abbrev pub is_covered : Binary → Bool
is_covered b = ltb 0 (length b.whitelisted) && (length b.whitelisted == length b.targets)

-- `Selection`
pub record Selection : Type 0 where
  pub binaries : List Bytes
  pub libs : List Bytes
  pub encrypt : List Bytes
  pub masks : Bool

-- `install.BinaryRule` and `install.Section`, as this plan fills them.
pub record LineRule : Type 0 where
  pub path : Bytes
  pub events : List Bytes

pub record Section : Type 0 where
  pub path : Bytes
  pub allow : List LineRule
  pub encrypt : Bool

-- `Extension`, `PlannedBinary` and `Plan`
pub record Extension : Type 0 where
  pub path : Bytes
  pub section : Bytes
  pub allow : List LineRule

pub record PlannedBinary : Type 0 where
  pub line : Bytes
  pub sha256 : Bytes
  pub system_placed : Bool

pub record Plan : Type 0 where
  pub sections : List Section
  pub extensions : List Extension
  pub libs : List Bytes
  pub encrypt : List Bytes
  pub binaries : List PlannedBinary

-- `dedupe`, after what it has kept.
abbrev pub dedupe_from : List Bytes → List Bytes → List Bytes
dedupe_from out [] = out
dedupe_from out (s ∷ ss) = dedupe_from (if contains out s then out else out ++ s ∷ []) ss

unfoldable pub dedupe : List Bytes → List Bytes
dedupe ss = dedupe_from [] ss

-- `hex.DecodeString`
abbrev pub hex_digit : ℕ → Option ℕ
hex_digit c =
    if leb 48 c && leb c 57
    then some (c - 48)
    else if leb 97 c && leb c 102
    then some (c - 87)
    else if leb 65 c && leb c 70
    then some (c - 55)
    else none

abbrev pub pair_digits : Option ℕ → Option ℕ → Option Bytes → Option Bytes
pair_digits (some a) (some b) (some rest) = some ((16 * a + b) ∷ rest)
pair_digits _ _ _ = none

abbrev pub decode_hex : Bytes → Option Bytes
decode_hex [] = some []
decode_hex (c ∷ []) = none
decode_hex (c ∷ d ∷ s) = pair_digits (hex_digit c) (hex_digit d) (decode_hex s)

-- `byLine`: the last admissible binary of that line.
abbrev pub by_line : Bytes → List Binary → Option Binary
by_line line [] = none
by_line line (b ∷ bs) = elim (by_line line bs) [
  | some later ↦ some later
  | none ↦ if is_admissible b && (b.line == line) then some b else none
]

abbrev pub Chosen : Type 0
Chosen = List (Bytes × Binary)

-- The content hash that was recorded: 32 bytes.
abbrev pub full_hash : Option Bytes → Option Bytes
full_hash none = none
full_hash (some sum) = if length sum == 32 then some sum else none

-- One line of `planBinaries`.
abbrev pub plan_hash : Bytes → Binary → Option Bytes → Option (PlannedBinary × Binary)
plan_hash line b none = none
plan_hash line b (some sum) =
    some (record { line = line; sha256 = sum; system_placed = b.system_placed }, b)

abbrev pub plan_binary : Bytes → Option Binary → Option (PlannedBinary × Binary)
plan_binary line none = none
plan_binary line (some b) =
    if is_covered b then none else plan_hash line b (full_hash (decode_hex b.sha256))

-- The loop of `planBinaries`.
abbrev pub plan_from :
    List Binary → List Bytes → List PlannedBinary → Chosen → Option (List PlannedBinary × Chosen)
plan_from recorded [] out chosen = some (out, chosen)
plan_from recorded (line ∷ lines) out chosen = elim (plan_binary line (by_line line recorded)) [
  | none ↦ none
  | some (pb, b) ↦ plan_from recorded lines (out ++ pb ∷ []) (chosen ++ (line, b) ∷ [])
]

-- `planBinaries`
unfoldable pub plan_binaries : List Binary → List Bytes → Option (List PlannedBinary × Chosen)
plan_binaries recorded lines = plan_from recorded (dedupe lines) [] []

-- `libOfChosen`
abbrev pub has_lib : Bytes → Binary → Bool
has_lib lib b = any (λ l. (l.path == lib) && (l.problem == [])) b.libs

abbrev pub lib_of_chosen : Bytes → Chosen → Bool
lib_of_chosen lib chosen = any (λ c. has_lib lib c.1) chosen

abbrev pub plan_libs : Chosen → List Bytes → Option (List Bytes)
plan_libs chosen [] = some []
plan_libs chosen (l ∷ ls) =
    if not (lib_of_chosen l chosen)
    then none
    else elim (plan_libs chosen ls) [ none ↦ none | some rest ↦ some (l ∷ rest) ]

-- The loop over the paths to encrypt.
abbrev pub target_at : Bytes → List Target → Option Target
target_at e [] = none
target_at e (t ∷ ts) = let rest = target_at e ts in if t.path == e then some t else rest

abbrev pub is_new : Option Target → Bool
is_new none = false
is_new (some t) = elim t.existing [ none ↦ true | some e ↦ false ]

abbrev pub plan_encrypt : List Target → List Bytes → Option (List Bytes)
plan_encrypt ts [] = some []
plan_encrypt ts (e ∷ es) =
    if not (is_new (target_at e ts))
    then none
    else elim (plan_encrypt ts es) [ none ↦ none | some rest ↦ some (e ∷ rest) ]

-- `sectionFor`, over the chosen lines in order.
abbrev pub rule_for : Bool → Bytes → Binary → LineRule
rule_for masks line b = record { path = line; events = if masks then b.mask else [] }

abbrev pub allow_for : Target → Chosen → Bool → List Bytes → List LineRule
allow_for t chosen masks [] = []
allow_for t chosen masks (line ∷ lines) =
    let rest = allow_for t chosen masks lines in
    elim (lookup line chosen) [
      | none ↦ rest
      | some b ↦
          if not (contains b.targets t.path) || has_line t.existing line
          then rest
          else rule_for masks line b ∷ rest
    ]

abbrev pub keys : Chosen → List Bytes
keys [] = []
keys ((line, b) ∷ chosen) = line ∷ keys chosen

unfoldable pub section_for : Target → Chosen → Bool → Bool → Section
section_for t chosen encrypt masks = record {
  path = t.path;
  allow = allow_for t chosen masks (sort bytes_leb (keys chosen));
  encrypt = encrypt;
}

-- The loop over the targets.
abbrev pub add_section : Option Existing → Section → List Section → List Section
add_section none s ss = s ∷ ss
add_section (some ex) s ss = ss

abbrev pub add_extension : Option Existing → Section → List Extension → List Extension
add_extension none s xs = xs
add_extension (some ex) s xs =
    if ltb 0 (length s.allow)
    then record { path = s.path; section = ex.section; allow = s.allow } ∷ xs
    else xs

module _ (chosen : Chosen) (encrypt : List Bytes) (masks : Bool) where
  abbrev pub plan_section : Target → Section
  plan_section t = section_for t chosen (contains encrypt t.path) masks

  abbrev pub plan_sections : List Target → List Section
  plan_sections [] = []
  plan_sections (t ∷ ts) = add_section t.existing (plan_section t) (plan_sections ts)

  abbrev pub plan_extensions : List Target → List Extension
  plan_extensions [] = []
  plan_extensions (t ∷ ts) = add_extension t.existing (plan_section t) (plan_extensions ts)

abbrev pub is_empty : {A : Type 0} → List A → Bool
is_empty [] = true
is_empty (x ∷ xs) = false

abbrev pub finish_plan :
    List Target → Bool → List PlannedBinary × Chosen → List Bytes → List Bytes → Option Plan
finish_plan targets masks (binaries, chosen) libs encrypt =
    let sections = plan_sections chosen encrypt masks targets in
    let extensions = plan_extensions chosen encrypt masks targets in
    if is_empty sections && is_empty extensions
    then none
    else some (record {
      sections = sections;
      extensions = extensions;
      libs = libs;
      encrypt = encrypt;
      binaries = binaries;
    })

-- `Plan`, of a recording's targets and binaries; none is an error.
unfoldable pub plan : List Target → List Binary → Selection → Option Plan
plan targets recorded sel = elim (plan_binaries recorded sel.binaries) [
  | none ↦ none
  | some chosen ↦ elim (plan_libs chosen.1 (dedupe sel.libs)) [
    | none ↦ none
    | some libs ↦ elim (plan_encrypt targets (dedupe sel.encrypt)) [
      | none ↦ none
      | some encrypt ↦ finish_plan targets sel.masks chosen libs encrypt
    ]
  ]
]
