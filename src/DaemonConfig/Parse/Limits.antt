-- ===== src/DaemonConfig/Parse/Limits.antt =====
-- internal/daemonconfig: the bounds of the kernel's maps hold of every configuration that parses.
use app_listener.Base.{
  ℕ, ◌≡◌, refl, Bool, true, false, ◌&&◌, ◌||◌, Option, none, some, List, [], ◌∷◌, ◌++◌, ◌==◌,
  nat_eq, list_eq, ltb, leb, length, length-append, all, all-append, contains, distinct,
  distinct-append_one, if_cases, Bytes, arith,
}
use app_listener.DaemonConfig.{
  Any, anything, Parsed, done, fault, Ensures, Ensures-bind, Ensures-refuse, Ensures-then,
  Ensures-done, FileSystem, Config, empty_config, WatchGroup, Block, watch_block, library_block,
  inspectors_block, electron_apps_block, settings_block, max_inspectors, max_electron_apps,
  max_electron_app_len, max_inodes_floor, max_inodes_ceiling, default_inspectors,
}
use app_listener.DaemonConfig.Text.{
  Header, no_header, malformed, section, parse_watch_section, trim_space,
}
use app_listener.DaemonConfig.Rules.{
  listed, path_and_rest, apply_inspector, apply_electron_app, set_max_inodes, setting,
  apply_setting, parse_uint32, cut_colon,
}
use app_listener.DaemonConfig.Materialize.{finalize_open, finalize_group}
use app_listener.DaemonConfig.Parse.{
  Open, open_block, declare_block, with_group, with_config, group_line, header_line, block_line,
  apply_config_line, close_config, parse_config, parse, validate_resources,
}
use app_listener.DaemonConfig.Parse.Runs.{parse_lines-keeps}

-- An Electron application's path fits the kernel's buffer.
abbrev pub fits_app : Bytes → Bool
fits_app path = leb (length path) max_electron_app_len

-- A limit on the inodes that a guard may hold; 0 is none given.
abbrev pub inodes_in_range : ℕ → Bool
inodes_in_range n = (n == 0) || (leb max_inodes_floor n && leb n max_inodes_ceiling)

abbrev pub within_limits : List Bytes → List Bytes → ℕ → Bool
within_limits inspectors apps inodes =
    (leb (length inspectors) max_inspectors && distinct inspectors)
    && ((leb (length apps) max_electron_apps && (distinct apps && all fits_app apps))
        && inodes_in_range inodes)

abbrev Within : Config → Type 0
Within cfg = within_limits (listed cfg.inspectors) cfg.electron_apps cfg.max_inodes ≡ true

within_limits-inspector :
    (l apps : List Bytes) (n : ℕ) (p : Bytes)
    → within_limits l apps n ≡ true
    → contains l p ≡ false
    → leb max_inspectors (length l) ≡ false
    → within_limits (l ++ p ∷ []) apps n ≡ true
within_limits-inspector l apps n p k new room =
    ground (arith, length-append l (p ∷ []), distinct-append_one l p)

within_limits-app :
    (l apps : List Bytes) (n : ℕ) (p : Bytes)
    → within_limits l apps n ≡ true
    → ltb max_electron_app_len (length p) ≡ false
    → contains apps p ≡ false
    → leb max_electron_apps (length apps) ≡ false
    → within_limits l (apps ++ p ∷ []) n ≡ true
within_limits-app l apps n p k short new room = ground (
  arith,
  length-append apps (p ∷ []),
  distinct-append_one apps p,
  all-append fits_app apps (p ∷ []),
)

apply_inspector-Within :
    (cfg : Config) (line : Bytes) → Within cfg → Ensures Within (apply_inspector cfg line)
unfolding apply_inspector
apply_inspector-Within cfg line k =
    Ensures-bind Any Within (path_and_rest line) _ (anything _) λ parts h.
      Ensures-refuse Within _ _ _ λ a. Ensures-refuse Within _ _ _ λ b.
        Ensures-refuse Within _ _ _ λ c. Ensures-refuse Within _ _ _ λ d.
          within_limits-inspector (listed cfg.inspectors) cfg.electron_apps cfg.max_inodes _ k c d

apply_electron_app-Within :
    (cfg : Config) (line : Bytes) → Within cfg → Ensures Within (apply_electron_app cfg line)
unfolding apply_electron_app
apply_electron_app-Within cfg line k =
    Ensures-bind Any Within (path_and_rest line) _ (anything _) λ parts h.
      Ensures-refuse Within _ _ _ λ a. Ensures-refuse Within _ _ _ λ b.
        Ensures-refuse Within _ _ _ λ c. Ensures-refuse Within _ _ _ λ d.
          Ensures-refuse Within _ _ _ λ f.
            within_limits-app (listed cfg.inspectors) cfg.electron_apps cfg.max_inodes _ k c d f

within_limits-inodes :
    (l apps : List Bytes) (m n : ℕ)
    → within_limits l apps m ≡ true
    → (ltb n max_inodes_floor || ltb max_inodes_ceiling n) ≡ false
    → within_limits l apps n ≡ true
within_limits-inodes l apps m n k good = ground arith

within_limits-default :
    (l apps : List Bytes) (n : ℕ)
    → within_limits l apps n ≡ true
    → within_limits default_inspectors apps n ≡ true
within_limits-default l apps n k = ground arith

set_max_inodes-Within :
    (cfg : Config) (o : Option ℕ) → Within cfg → Ensures Within (set_max_inodes cfg o)
set_max_inodes-Within cfg none k = tt
set_max_inodes-Within cfg (some n) k =
    if_cases (λ m. Ensures Within m) (ltb n max_inodes_floor || ltb max_inodes_ceiling n) _ _
      (λ bad. tt)
      λ good. within_limits-inodes (listed cfg.inspectors) cfg.electron_apps cfg.max_inodes n k good

setting-Within :
    (cfg : Config) (o : Option (Bytes × Bytes)) → Within cfg → Ensures Within (setting cfg o)
setting-Within cfg none k = tt
setting-Within cfg (some (key, value)) k = Ensures-refuse Within _ _ _ λ a.
    Ensures-refuse Within _ _ _ λ b.
      Ensures-refuse Within _ _ _ λ c. set_max_inodes-Within cfg (parse_uint32 (trim_space value)) k

-- The group that is open says nothing about the limits.
abbrev WithinOpen : Open → Type 0
WithinOpen (cfg, o) = Within cfg

with_group-Within :
    (cfg : Config) (m : Parsed WatchGroup) → Within cfg → Ensures WithinOpen (with_group cfg m)
with_group-Within cfg (done g) k = k
with_group-Within cfg (fault e) k = tt

with_config-Within :
    (g : WatchGroup) (m : Parsed Config) → Ensures Within m → Ensures WithinOpen (with_config g m)
with_config-Within g (done cfg) k = k
with_config-Within g (fault e) k = tt

declare_block-Within : (g : WatchGroup) (cfg : Config) → Within cfg → Within (declare_block g cfg)
declare_block-Within g cfg k = from g.block cfg.inspectors k
  where
    from :
        (b : Block) (o : Option (List Bytes))
        → within_limits (listed o) cfg.electron_apps cfg.max_inodes ≡ true
        → Within (elim b [
          | inspectors_block ↦ elim o [ none ↦ record cfg { inspectors = some [] } | some l ↦ cfg ]
          | _ ↦ cfg
        ])
    from watch_block o h = k
    from library_block o h = k
    from inspectors_block none h = h
    from inspectors_block (some l) h = k
    from electron_apps_block o h = k
    from settings_block o h = k

module _ (fs : FileSystem) where
  finalize_open-Within :
      (g : WatchGroup) (b : Block) (cfg : Config) → Within cfg → Within (finalize_open fs g b cfg)
  finalize_open-Within g watch_block cfg k = k
  finalize_open-Within g library_block cfg k = k
  finalize_open-Within g inspectors_block cfg k = k
  finalize_open-Within g electron_apps_block cfg k = k
  finalize_open-Within g settings_block cfg k = k

  finalize_group-Within :
      (o : Option WatchGroup) (cfg : Config) → Within cfg → Within (finalize_group fs o cfg)
  unfolding finalize_group
  finalize_group-Within none cfg k = k
  finalize_group-Within (some g) cfg k =
      if_cases Within g.skipped cfg (finalize_open fs g g.block cfg) (λ skip. k)
        λ close. finalize_open-Within g g.block cfg k

  group_line-Within :
      (cfg : Config) (g : WatchGroup) (b : Block) (line : Bytes)
      → Within cfg
      → Ensures WithinOpen (group_line fs cfg g b line)
  unfolding apply_setting
  group_line-Within cfg g watch_block line k = with_group-Within cfg _ k
  group_line-Within cfg g library_block line k = with_group-Within cfg _ k
  group_line-Within cfg g inspectors_block line k =
      with_config-Within g _ (apply_inspector-Within cfg line k)
  group_line-Within cfg g electron_apps_block line k =
      with_config-Within g _ (apply_electron_app-Within cfg line k)
  group_line-Within cfg g settings_block line k =
      with_config-Within g _ (setting-Within cfg (cut_colon line) k)

  header_line-Within :
      (o : Open) (h : Header) (line : Bytes)
      → WithinOpen o
      → Ensures WithinOpen (header_line fs o h line)
  header_line-Within o malformed line k = tt
  header_line-Within (cfg, group) (section path) line k = finalize_group-Within group cfg k
  header_line-Within (cfg, none) no_header line k = k
  header_line-Within (cfg, some g) no_header line k = group_line-Within cfg g g.block line k

  block_line-Within :
      (o : Open) (next : Option WatchGroup) (line : Bytes)
      → WithinOpen o
      → Ensures WithinOpen (block_line fs o next line)
  block_line-Within (cfg, group) (some next) line k =
      finalize_group-Within group (declare_block next cfg) (declare_block-Within next cfg k)
  block_line-Within o none line k = header_line-Within o (parse_watch_section line) line k

  apply_config_line-Within :
      (o : Open) (line : Bytes) → WithinOpen o → Ensures WithinOpen (apply_config_line fs o line)
  unfolding apply_config_line
  apply_config_line-Within o line k = block_line-Within o (open_block line) line k

  close_config-Within : (o : Open) → WithinOpen o → Within (close_config fs o)
  close_config-Within (cfg, group) k =
      from (finalize_group fs group cfg) (finalize_group fs group cfg).inspectors refl
        (finalize_group-Within group cfg k)
    where
      from :
          (c : Config) (o : Option (List Bytes))
          → c.inspectors ≡ o
          → Within c
          → Within (elim o [
            | none ↦ record c { inspectors = some default_inspectors; inspectors_default = true }
            | some l ↦ c
          ])
      from c none e h = within_limits-default (listed c.inspectors) c.electron_apps c.max_inodes h
      from c (some l) e h = h

  parse_config-Within : (raw : Bytes) → Ensures Within (parse_config fs raw)
  unfolding parse_config
  parse_config-Within raw =
      Ensures-bind WithinOpen Within _ _
        (parse_lines-keeps fs WithinOpen apply_config_line-Within (empty_config, none) _ refl)
        λ last k. close_config-Within last k

-- Whatever the text of the configuration is, when `Parse` accepts it there are at most 16 inspectors and at
-- most 32 Electron applications, none named twice, each application's path is of at most 43 bytes, and the
-- limit of inodes is 0 (none given) or between 2^15 and 2^22.
pub parse-Within :
    (fs : FileSystem) (raw : Bytes) (cfg : Config)
    → parse fs raw ≡ done cfg
    → within_limits (listed cfg.inspectors) cfg.electron_apps cfg.max_inodes ≡ true
unfolding parse
parse-Within fs raw cfg e =
    Ensures-done Within _ cfg
      (Ensures-bind Within Within _ _ (parse_config-Within fs raw)
        λ c k. Ensures-then Within (validate_resources fs c) _ λ h. k)
      e
