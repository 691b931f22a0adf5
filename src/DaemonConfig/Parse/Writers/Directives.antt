-- ===== src/DaemonConfig/Parse/Writers/Directives.antt =====
-- internal/daemonconfig: a section's own whitelist under each directive.
use app_listener.Base.{
  ◌≡◌, refl, inl, inr, Bool, true, false, not, ◌&&◌, ◌||◌, Option, none, some, List, [], ◌∷◌, ◌==◌,
  nat_eq, list_eq, if◌then◌else◌, all, all-append, Option-cases, Bool-cases, Bytes, codes, arith,
}
use app_listener.DaemonConfig.{
  Any, anything, Ensures, Ensures-bind, Ensures-refuse, FileSystem, BinaryRule, Resource,
  WatchGroup,
}
use app_listener.DaemonConfig.Text.{
  cut_directive, parse_need_encryption, parse_allow_lib, parse_lib_dir, parse_lib_binary,
}
use app_listener.DaemonConfig.Rules.{
  resolved_rule, resolve_rule, record_binary, record_lib_binary, apply_allow_lib, keep_lib,
  apply_lib_dir, apply_lib_binary, apply_library_block_directive, set_need_encryption,
  events_of_rest, add_binary, apply_directive, add_watch_path, path_and_rest,
}

-- Not a lib_binary rule.
abbrev pub is_reader : BinaryRule → Bool
is_reader r = not r.lib_binary

abbrev pub all_readers : List BinaryRule → List BinaryRule → Bool
all_readers rules pending = all is_reader rules && all is_reader pending

-- A section's own whitelist has no lib_binary rule.
abbrev pub Own : WatchGroup → Type 0
Own g = all_readers g.binaries g.pending ≡ true

-- The whitelist of a resource that is not read-only has no lib_binary rule.
abbrev pub keeps_out_writers : Resource → Bool
keeps_out_writers r = r.read_only || all_readers r.binaries r.pending_binaries

module _ (fs : FileSystem) where
  pub resolved_rule-reader :
      (rule : BinaryRule) (o : Option Bytes)
      → (resolved_rule fs rule o).1.lib_binary ≡ rule.lib_binary
  resolved_rule-reader rule none = refl
  resolved_rule-reader rule (some target) = ground arith

  pub resolve_rule-reader :
      (rule : BinaryRule) → (resolve_rule fs rule).1.lib_binary ≡ rule.lib_binary
  unfolding resolve_rule
  resolve_rule-reader rule =
      ground (arith, resolved_rule-reader rule (fs.resolve_confined rule.path))

  pub record_binary-Own :
      (g : WatchGroup) (b : Bool) (rule : BinaryRule)
      → Own g
      → is_reader rule ≡ true
      → Own (record_binary fs g (b, rule))
  record_binary-Own g true rule own r = ground (arith, all-append is_reader g.binaries (rule ∷ []))
  record_binary-Own g false rule own r = ground (arith, all-append is_reader g.pending (rule ∷ []))

  pub record_lib_binary-Own :
      (g : WatchGroup) (b : Bool) (rule : BinaryRule)
      → Own g
      → Own (record_lib_binary fs g (b, rule))
  record_lib_binary-Own g true rule own = own
  record_lib_binary-Own g false rule own = own

  pub keep_lib-Own :
      (g : WatchGroup) (p : Bytes) (o : Option Bytes) → Own g → Own (keep_lib fs g p o)
  keep_lib-Own g p none own = own
  keep_lib-Own g p (some t) own = own

  pub apply_allow_lib-Own :
      (g : WatchGroup) (p : Bytes) → Own g → Ensures Own (apply_allow_lib fs g p)
  unfolding apply_allow_lib
  apply_allow_lib-Own g p own =
      Ensures-refuse Own _ _ _
        λ h. keep_lib-Own g p (if fs.stat_ok p then fs.resolve_confined p else none) own

  pub apply_lib_dir-Own : (g : WatchGroup) (p : Bytes) → Own g → Ensures Own (apply_lib_dir fs g p)
  unfolding apply_lib_dir
  apply_lib_dir-Own g p own = Ensures-refuse Own _ _ _ λ h. Ensures-refuse Own _ _ _ λ k. own

  pub apply_lib_binary-Own :
      (g : WatchGroup) (v : Bytes) → Own g → Ensures Own (apply_lib_binary fs g v)
  unfolding apply_lib_binary
  apply_lib_binary-Own g v own = Ensures-bind Any Own (path_and_rest v) _ (anything _) λ parts h.
      Ensures-refuse Own _ _ _ λ h. Ensures-refuse Own _ _ _ λ k. record_lib_binary-Own g _ _ own

  pub set_need_encryption-Own :
      (g : WatchGroup) (v : Bytes) → Own g → Ensures Own (set_need_encryption fs g v)
  set_need_encryption-Own g v own = elim (Bool-cases (v == codes "true")) [
    | inl yes_ ↦ rw yes_ own
    | inr not_ ↦ elim (Bool-cases (v == codes "false")) [
      | inl false_ ↦ rw (not_, false_) own
      | inr neither ↦ rw (not_, neither) tt
    ]
  ]

  pub add_binary-Own :
      (g : WatchGroup) (parts : Bytes × Bytes) → Own g → Ensures Own (add_binary fs g parts)
  add_binary-Own g ([], rest) own = own
  add_binary-Own g (c ∷ path, rest) own =
      Ensures-bind Any Own (events_of_rest fs rest) _ (anything _) λ events h.
        record_binary-Own g _ _ own (
          ground (
            arith,
            resolve_rule-reader
                (record { path = c ∷ path; link = []; events = events; lib_binary = false }),
          ))

  pub apply_library_block_directive-Own :
      (g : WatchGroup) (line : Bytes)
      → Own g
      → Ensures Own (apply_library_block_directive fs g line)
  unfolding apply_library_block_directive cut_directive
  apply_library_block_directive-Own g line own = elim (Option-cases (parse_allow_lib line)) [
    | inr (p, lib) ↦ rw lib (apply_allow_lib-Own g p own)
    | inl no_lib ↦ elim (Option-cases (parse_lib_dir line)) [
      | inr (p, dir) ↦ rw (no_lib, dir) (apply_lib_dir-Own g p own)
      | inl no_dir ↦ elim (Option-cases (parse_lib_binary line)) [
        | inr (v, bin) ↦ rw (no_lib, no_dir, bin) (apply_lib_binary-Own g v own)
        | inl no_bin ↦ rw (no_lib, no_dir, no_bin) tt
      ]
    ]
  ]

  pub apply_directive-Own :
      (g : WatchGroup) (line : Bytes) → Own g → Ensures Own (apply_directive fs g line)
  unfolding apply_directive cut_directive
  apply_directive-Own g line own = elim (Option-cases (parse_need_encryption line)) [
    | inr (v, enc) ↦ rw enc (set_need_encryption-Own g v own)
    | inl no_enc ↦ elim (Option-cases (parse_allow_lib line)) [
      | inr (p, lib) ↦ rw (no_enc, lib) (apply_allow_lib-Own g p own)
      | inl no_lib ↦ elim (Option-cases (parse_lib_dir line)) [
        | inr (p, dir) ↦ rw (no_enc, no_lib, dir) (apply_lib_dir-Own g p own)
        | inl no_dir ↦ elim (Option-cases (parse_lib_binary line)) [
          | inr (v, bin) ↦ rw (no_enc, no_lib, no_dir, bin) (apply_lib_binary-Own g v own)
          | inl no_bin ↦
              rw (no_enc, no_lib, no_dir, no_bin)
                (Ensures-bind Any Own (path_and_rest line) _ (anything _)
                  λ parts h. add_binary-Own g parts own)
        ]
      ]
    ]
  ]

pub add_watch_path-Own :
    (g : WatchGroup) (line : Bytes) → Own g → Ensures Own (add_watch_path g line)
unfolding add_watch_path
add_watch_path-Own g line own =
    Ensures-refuse Own _ _ _ λ h. Ensures-refuse Own _ _ _ λ k. Ensures-refuse Own _ _ _ λ l. own
