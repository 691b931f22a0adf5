-- ===== src/Recorder/Classify.antt =====
-- internal/recorder: what `Classify` says of a recorded executable, with internal/install's general tools. The
-- notes are shown only, and are left out.
pub mod Innermost
pub mod Masks
use app_listener.Base.{
  ℕ, Bool, true, false, not, ◌&&◌, ◌||◌, Option, none, some, List, [], ◌∷◌, ◌++◌, ◌==◌, nat_eq,
  list_eq, if◌then◌else◌, ltb, leb, length, any, contains, map, filter, reverse, Bytes, codes,
}
use app_listener.Base.Strings.{has_prefix, split}
use app_listener.EventNames.{name_of}
use app_listener.DaemonConfig.{FileSystem, BinaryRule, Resource, Config}
use app_listener.Recorder.{Target, Binary, has_line, is_admissible}
use app_listener.Recorder.Plan.{is_covered}

-- `strings.TrimRight` of a set of characters.
abbrev pub trim_left_of : (ℕ → Bool) → Bytes → Bytes
trim_left_of p [] = []
trim_left_of p (c ∷ s) = let rest = trim_left_of p s in if p c then rest else c ∷ s

abbrev pub trim_right_of : (ℕ → Bool) → Bytes → Bytes
trim_right_of p s = reverse (trim_left_of p (reverse s))

-- `filepath.Base`
abbrev pub last_part : List Bytes → Bytes
last_part [] = []
last_part (p ∷ []) = p
last_part (p ∷ q ∷ ps) = last_part (q ∷ ps)

abbrev pub base_of : Bytes → Bytes → Bytes
base_of [] [] = codes "."
base_of (c ∷ s) [] = codes "/"
base_of s (c ∷ trimmed) = last_part (split 47 (c ∷ trimmed))

unfoldable pub path_base : Bytes → Bytes
path_base s = base_of s (trim_right_of (λ c. c == 47) s)

abbrev pub is_version : ℕ → Bool
is_version c = (leb 48 c && leb c 57) || (c == 46)

abbrev pub is_joint : ℕ → Bool
is_joint c = (c == 45) || (c == 95)

-- `shellHelpers`
abbrev pub shell_helpers : List Bytes
shell_helpers =
    codes "starship"
    ∷ codes "oh-my-posh"
    ∷ codes "gitstatusd"
    ∷ codes "direnv"
    ∷ codes "zoxide"
    ∷ codes "atuin"
    ∷ codes "mcfly"
    ∷ codes "mise"
    ∷ codes "rtx"
    ∷ codes "fzf"
    ∷ codes "carapace"
    ∷ []

-- `isShellHelper`
abbrev pub names_helper : Bytes → Bool
names_helper base = any (λ h. (base == h) || has_prefix base (h ++ codes "-")) shell_helpers

unfoldable pub is_shell_helper : List Bytes → Bool
is_shell_helper paths = any (λ p. names_helper (trim_right_of is_version (path_base p))) paths

-- `generalTools`
abbrev pub general_tools : List Bytes
general_tools =
    codes "sh"
    ∷ codes "bash"
    ∷ codes "dash"
    ∷ codes "zsh"
    ∷ codes "fish"
    ∷ codes "ksh"
    ∷ codes "mksh"
    ∷ codes "csh"
    ∷ codes "tcsh"
    ∷ codes "ash"
    ∷ codes "yash"
    ∷ codes "busybox"
    ∷ codes "toybox"
    ∷ codes "coreutils"
    ∷ codes "env"
    ∷ codes "git"
    ∷ codes "node"
    ∷ codes "nodejs"
    ∷ codes "npm"
    ∷ codes "npx"
    ∷ codes "bun"
    ∷ codes "deno"
    ∷ codes "python"
    ∷ codes "perl"
    ∷ codes "ruby"
    ∷ codes "irb"
    ∷ codes "php"
    ∷ codes "lua"
    ∷ codes "luajit"
    ∷ codes "java"
    ∷ codes "tclsh"
    ∷ codes "wish"
    ∷ codes "expect"
    ∷ codes "guile"
    ∷ codes "Rscript"
    ∷ codes "R"
    ∷ codes "julia"
    ∷ codes "pwsh"
    ∷ codes "gdb"
    ∷ codes "m4"
    ∷ codes "make"
    ∷ codes "sqlite3"
    ∷ codes "cp"
    ∷ codes "mv"
    ∷ codes "install"
    ∷ codes "rsync"
    ∷ codes "tar"
    ∷ codes "curl"
    ∷ codes "wget"
    ∷ codes "cat"
    ∷ codes "tac"
    ∷ codes "head"
    ∷ codes "tail"
    ∷ codes "dd"
    ∷ codes "od"
    ∷ codes "xxd"
    ∷ codes "hexdump"
    ∷ codes "hd"
    ∷ codes "strings"
    ∷ codes "base64"
    ∷ codes "base32"
    ∷ codes "basenc"
    ∷ codes "sed"
    ∷ codes "awk"
    ∷ codes "gawk"
    ∷ codes "mawk"
    ∷ codes "grep"
    ∷ codes "egrep"
    ∷ codes "fgrep"
    ∷ codes "rg"
    ∷ codes "tee"
    ∷ codes "less"
    ∷ codes "more"
    ∷ codes "sort"
    ∷ codes "uniq"
    ∷ codes "nl"
    ∷ codes "cut"
    ∷ codes "paste"
    ∷ codes "fold"
    ∷ codes "fmt"
    ∷ codes "pr"
    ∷ codes "rev"
    ∷ codes "expand"
    ∷ codes "unexpand"
    ∷ codes "join"
    ∷ codes "comm"
    ∷ codes "diff"
    ∷ codes "split"
    ∷ codes "csplit"
    ∷ codes "shuf"
    ∷ codes "column"
    ∷ codes "iconv"
    ∷ codes "look"
    ∷ codes "tsort"
    ∷ codes "ptx"
    ∷ codes "bat"
    ∷ codes "batcat"
    ∷ codes "vi"
    ∷ codes "vim"
    ∷ codes "view"
    ∷ codes "ex"
    ∷ codes "ed"
    ∷ codes "red"
    ∷ codes "nvim"
    ∷ codes "nano"
    ∷ codes "emacs"
    ∷ codes "openssl"
    ∷ codes "nc"
    ∷ codes "ncat"
    ∷ codes "netcat"
    ∷ codes "socat"
    ∷ codes "jq"
    ∷ codes "gzip"
    ∷ codes "gunzip"
    ∷ codes "zcat"
    ∷ codes "xz"
    ∷ codes "xzcat"
    ∷ codes "zstd"
    ∷ codes "zstdcat"
    ∷ codes "bzip2"
    ∷ codes "bzcat"
    ∷ codes "zip"
    ∷ codes "unzip"
    ∷ codes "7z"
    ∷ codes "cpio"
    ∷ codes "pv"
    ∷ []

-- `namedGeneralTool`
abbrev pub unversioned : Bytes → Bytes
unversioned n = trim_right_of is_joint (trim_right_of is_version n)

abbrev pub before_dot : Bytes → Bytes
before_dot [] = []
before_dot (c ∷ s) = let rest = before_dot s in if c == 46 then [] else c ∷ rest

unfoldable pub named_general_tool : Bytes → Bool
named_general_tool path =
    let base = path_base path in
    any (contains general_tools)
      (base ∷ unversioned base ∷ before_dot base ∷ unversioned (before_dot base) ∷ [])

-- `ResolvesToGeneralTool`
abbrev pub names_tool : Option Bytes → Bool
names_tool none = false
names_tool (some resolved) = named_general_tool resolved

abbrev pub resolves_to_general_tool : FileSystem → Bytes → Bool
resolves_to_general_tool fs path = named_general_tool path || names_tool (fs.eval_symlinks path)

-- `beyondEvents`
abbrev pub implies_open : List Bytes → Bool
implies_open allowed =
    any (λ e. (e == codes "READ") || ((e == codes "WRITE") || (e == codes "MMAP"))) allowed

abbrev pub is_allowed_op : List Bytes → Bytes → Bool
is_allowed_op allowed o =
    contains allowed o || (implies_open allowed && ((o == codes "OPEN") || (o == codes "STAT")))

unfoldable pub beyond_events : List Bytes → List Bytes → List Bytes
beyond_events ops [] = []
beyond_events ops (e ∷ allowed) = filter (λ o. not (is_allowed_op (e ∷ allowed) o)) ops

-- `EventTypes`
abbrev pub all_types : List ℕ
all_types = 0 ∷ 1 ∷ 2 ∷ 3 ∷ 4 ∷ 5 ∷ 6 ∷ 7 ∷ 8 ∷ 9 ∷ 10 ∷ 11 ∷ []

-- `maskFor`: the types it wants, in the order of `EventTypes`, and their names.
abbrev pub wanted : List ℕ → List ℕ
wanted ops = if contains ops 0 then 1 ∷ 10 ∷ ops else 10 ∷ ops

unfoldable pub mask_types : List ℕ → List ℕ
mask_types ops = filter (contains (wanted ops)) all_types

abbrev pub mask_for : List ℕ → List Bytes
mask_for ops = map name_of (mask_types ops)

-- `noteWhitelisted`: the targets whose section lists the binary's line already.
abbrev pub whitelisted_in : Binary → List Target → List Bytes
whitelisted_in b [] = []
whitelisted_in b (t ∷ ts) =
    let rest = whitelisted_in b ts in
    if contains b.targets t.path && has_line t.existing b.line then t.path ∷ rest else rest

abbrev pub note_whitelisted : Binary → List Target → Binary
note_whitelisted b ts = record b { whitelisted = b.whitelisted ++ whitelisted_in b ts }

-- `finishBinary`
abbrev pub judged : FileSystem → Bool → Binary → Binary
judged fs placed b =
    let tool = resolves_to_general_tool fs b.line in
    let helper = not tool && is_shell_helper (b.line ∷ b.exe ∷ []) in
    record b {
      general_tool = tool;
      shell_helper = helper;
      suggested = placed && (not tool && (not helper && not (is_covered b)));
    }

unfoldable pub finish_binary : FileSystem → Bool → List Target → Binary → Binary
finish_binary fs placed ts b =
    if not (is_admissible b) then b else judged fs placed (note_whitelisted b ts)

-- `innermostResource`
abbrev pub holds_path : Bytes → Resource → Bool
holds_path path r = (path == r.path) || has_prefix path (r.path ++ codes "/")

abbrev pub is_longer : Resource → Option Resource → Bool
is_longer r none = true
is_longer r (some inner) = ltb (length inner.path) (length r.path)

abbrev pub inner_from : Bytes → Option Resource → List Resource → Option Resource
inner_from path inner [] = inner
inner_from path inner (r ∷ rs) =
    inner_from path (if holds_path path r && is_longer r inner then some r else inner) rs

unfoldable pub innermost_resource : Bytes → Config → Option Resource
innermost_resource path cfg = inner_from path none cfg.resources

-- `libCovered`
abbrev pub writes_in : Bytes → Option Resource → Bool
writes_in exe none = false
writes_in exe (some inner) =
    not inner.read_only
    || any (λ b. (b.path == exe) || (b.link == exe)) (inner.binaries ++ inner.pending_binaries)

abbrev pub covered_by : Bytes → Bytes → Option Config → Bool
covered_by lib exe none = false
covered_by lib exe (some base) =
    contains base.shared_allow_libs lib
    || (any (λ r. contains r.allow_libs lib) base.resources
        || writes_in exe (innermost_resource lib base))

unfoldable pub lib_covered : Bytes → Bytes → List Target → Option Config → Bool
lib_covered lib exe ts base =
    any (λ t. (lib == t.path) || (t.is_dir && has_prefix lib (t.path ++ codes "/"))) ts
    || covered_by lib exe base
