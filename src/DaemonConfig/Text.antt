-- ===== src/DaemonConfig/Text.antt =====
-- internal/daemonconfig: the text functions of a line, over bytes. White space is ASCII's.
use app_listener.Base.{
  ℕ, Bool, false, not, ◌&&◌, ◌||◌, Option, none, some, List, [], ◌∷◌, ◌++◌, reverse, ◌==◌, nat_eq,
  list_eq, if◌then◌else◌, leb, length, drop, Bytes, codes,
}
use app_listener.Base.Strings.{has_prefix, split}

abbrev pub is_white : ℕ → Bool
is_white c = (c == 32) || (leb 9 c && leb c 13)

-- `strings.TrimLeft` of white space.
abbrev pub trim_left : Bytes → Bytes
trim_left [] = []
trim_left (c ∷ s) = let rest = trim_left s in if is_white c then rest else c ∷ s

-- `strings.TrimSpace`
unfoldable pub trim_space : Bytes → Bytes
trim_space s = reverse (trim_left (reverse (trim_left s)))

-- `strings.CutPrefix`
abbrev pub cut_prefix : Bytes → Bytes → Option Bytes
cut_prefix s [] = some s
cut_prefix [] (c ∷ p) = none
cut_prefix (d ∷ s) (c ∷ p) = let rest = cut_prefix s p in if d == c then rest else none

-- `strings.TrimPrefix`
abbrev pub trim_prefix : Bytes → Bytes → Bytes
trim_prefix s p = elim (cut_prefix s p) [ none ↦ s | some rest ↦ rest ]

-- `strings.HasSuffix` and `strings.TrimSuffix`
abbrev pub has_suffix : Bytes → Bytes → Bool
has_suffix s p = has_prefix (reverse s) (reverse p)

abbrev pub trim_suffix : Bytes → Bytes → Bytes
trim_suffix s p = reverse (trim_prefix (reverse s) (reverse p))

abbrev pub quote : ℕ
quote = 34

-- `s[1 : len(s)-1]` of a text that ends in a quote: none without one.
abbrev pub before_quote : Bytes → Option Bytes
before_quote [] = none
before_quote (c ∷ []) = if c == quote then some [] else none
before_quote (c ∷ d ∷ s) = elim (before_quote (d ∷ s)) [ none ↦ none | some b ↦ some (c ∷ b) ]

abbrev pub or_else : Option Bytes → Bytes → Bytes
or_else none s = s
or_else (some t) s = t

-- `UnquotePath`
unfoldable pub unquote_path : Bytes → Bytes
unquote_path [] = []
unquote_path (c ∷ s) = if c == quote then or_else (before_quote s) (c ∷ s) else c ∷ s

-- `strings.Fields(s)[0]`, `[]` where there is no field, of a text without leading white space.
abbrev pub first_field : Bytes → Bytes
first_field [] = []
first_field (c ∷ s) = let rest = first_field s in if is_white c then [] else c ∷ rest

-- A text cut at its first quote.
abbrev pub cut_quote : Bytes → Option (Bytes × Bytes)
cut_quote [] = none
cut_quote (c ∷ s) =
    let rest = cut_quote s in
    if c == quote then some ([], s) else elim rest [ none ↦ none | some (p, r) ↦ some (c ∷ p, r) ]

-- `splitPathAndRest`: none for an unterminated quote.
unfoldable pub split_path_and_rest : Bytes → Option (Bytes × Bytes)
split_path_and_rest line =
    if has_prefix line (quote ∷ [])
    then elim (cut_quote (drop 1 line)) [ none ↦ none | some (p, rest) ↦ some (p, trim_space rest) ]
    else (let path = first_field (trim_left line) in
        some (path, trim_space (drop (length path) line)))

-- `CutDirective`
abbrev pub is_separator : Bytes → Bool
is_separator [] = false
is_separator (c ∷ s) = (c == 32) || ((c == 9) || (c == 58))

unfoldable pub cut_directive : Bytes → Bytes → Option Bytes
cut_directive line name = elim (cut_prefix line name) [
  | none ↦ none
  | some rest ↦ if is_separator rest then some (trim_space (trim_prefix rest (58 ∷ []))) else none
]

abbrev pub unquoted : Option Bytes → Option Bytes
unquoted none = none
unquoted (some v) = some (unquote_path v)

-- `parseAllowLib`, `parseLibDir` and `parseLibBinary`
abbrev pub parse_allow_lib : Bytes → Option Bytes
parse_allow_lib line = unquoted (cut_directive line (codes "allow_lib"))

abbrev pub parse_lib_dir : Bytes → Option Bytes
parse_lib_dir line = unquoted (cut_directive line (codes "lib_dir"))

abbrev pub parse_lib_binary : Bytes → Option Bytes
parse_lib_binary line = cut_directive line (codes "lib_binary")

-- `parseNeedEncryption`
abbrev pub parse_need_encryption : Bytes → Option Bytes
parse_need_encryption line = elim (cut_prefix line (codes "need_encryption:")) [
  | none ↦ none
  | some v ↦ some (trim_space v)
]

-- The value of `parsePathDirective` after one of its prefixes.
abbrev pub path_value : Option Bytes → Option Bytes
path_value none = none
path_value (some v) = if trim_space v == [] then none else some (unquote_path (trim_space v))

abbrev pub first_of : Option Bytes → Option Bytes → Option Bytes
first_of (some v) o = some v
first_of none o = o

-- `parsePathDirective`
abbrev pub parse_path_directive : Bytes → Option Bytes
parse_path_directive line =
    first_of (path_value (cut_prefix line (codes "path = ")))
      (path_value (cut_prefix line (codes "path=")))

-- `isWatchDirective`
abbrev pub is_watch_directive : Bytes → Bool
is_watch_directive line = has_prefix line (codes "watch:") || has_prefix line (codes "watch ")

abbrev pub watch_path_of : Bytes → Bytes
watch_path_of line =
    unquote_path (trim_space (trim_prefix (trim_prefix line (codes "watch:")) (codes "watch")))

-- What `parseWatchSection` makes of a line.
pub data Header : Type 0 where
  no_header malformed : Header
  section : Bytes → Header

-- `parseWatchSection`
unfoldable pub parse_watch_section : Bytes → Header
parse_watch_section line =
    if not (has_prefix line (codes "["))
    then no_header
    else if line == codes "[watch]"
    then section []
    else if not (has_prefix line (codes "[watch ")) || not (has_suffix line (codes "]"))
    then malformed
    else section
        (unquote_path (trim_space (trim_suffix (trim_prefix line (codes "[watch ")) (codes "]"))))

-- `ParseLibrariesSection`
abbrev pub libraries_name : Bytes → Option Bytes
libraries_name [] = some []
libraries_name (c ∷ rest) =
    if not (c == 32) && not (c == 9) then none else some (unquote_path (trim_space (c ∷ rest)))

unfoldable pub parse_libraries_section : Bytes → Option Bytes
parse_libraries_section line =
    if not (has_prefix line (codes "[libraries")) || not (has_suffix line (codes "]"))
    then none
    else libraries_name (trim_suffix (trim_prefix line (codes "[libraries")) (codes "]"))

-- `isInsidePath`
unfoldable pub is_inside_path : Bytes → Bytes → Bool
is_inside_path path dir = not (path == dir) && has_prefix (path ++ 47 ∷ []) (dir ++ 47 ∷ [])

-- `filepath.Clean`: the parts of a path, last first; a rooted path has nothing above its root.
abbrev pub clean_parts : Bool → List Bytes → List Bytes → List Bytes
clean_parts rooted kept [] = kept
clean_parts rooted kept (part ∷ parts) =
    if (part == []) || (part == codes ".")
    then clean_parts rooted kept parts
    else if part == codes ".."
    then (elim kept [
      | [] ↦ if rooted then clean_parts rooted [] parts else clean_parts rooted (part ∷ []) parts
      | k ∷ ks ↦
          if k == codes ".."
          then clean_parts rooted (part ∷ k ∷ ks) parts
          else clean_parts rooted ks parts
    ])
    else clean_parts rooted (part ∷ kept) parts

abbrev pub join_parts : Bytes → List Bytes → Bytes
join_parts lead [] = lead
join_parts lead (p ∷ []) = lead ++ p
join_parts lead (p ∷ q ∷ ps) = join_parts (lead ++ p ++ 47 ∷ []) (q ∷ ps)

abbrev pub is_abs : Bytes → Bool
is_abs path = has_prefix path (47 ∷ [])

unfoldable pub clean : Bytes → Bytes
clean path =
    let rooted = is_abs path in
    let parts = reverse (clean_parts rooted [] (split 47 path)) in
    let text = join_parts (if rooted then 47 ∷ [] else []) parts in
    if text == [] then codes "." else text
