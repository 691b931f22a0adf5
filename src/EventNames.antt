-- ===== src/EventNames.antt =====
-- internal/infrastructure/event.go: the names of the event types. `strings.ToUpper` is a parameter.
use app_listener.Base.{
  ℕ, zero, suc, ◌<◌, ◌≡◌, refl, ◌∙◌, ap, Bool, true, false, ◌&&◌, ◌||◌, inl, inr, Bool-cases,
  Option, none, some, [], ◌∷◌, ◌==◌, nat_eq, list_eq, if◌then◌else◌, ltb, Bytes, codes, arith,
}

-- The constants of `EventType`.
abbrev pub event_open : ℕ
event_open = 0

abbrev pub event_read : ℕ
event_read = 1

abbrev pub event_write : ℕ
event_write = 2

abbrev pub event_delete : ℕ
event_delete = 3

abbrev pub event_rename : ℕ
event_rename = 4

abbrev pub event_symlink : ℕ
event_symlink = 5

abbrev pub event_hardlink : ℕ
event_hardlink = 6

abbrev pub event_mkdir : ℕ
event_mkdir = 7

abbrev pub event_mmap : ℕ
event_mmap = 8

abbrev pub event_attr : ℕ
event_attr = 9

abbrev pub event_stat : ℕ
event_stat = 10

abbrev pub event_mknod : ℕ
event_mknod = 11

abbrev pub unknown_label : Bytes
unknown_label = codes "UNKNOWN"

-- `String`: the first case that is the type.
unfoldable pub name_of : ℕ → Bytes
name_of t =
    if t == event_open
    then codes "OPEN"
    else if t == event_read
    then codes "READ"
    else if t == event_write
    then codes "WRITE"
    else if t == event_delete
    then codes "DELETE"
    else if t == event_rename
    then codes "RENAME"
    else if t == event_symlink
    then codes "SYMLINK"
    else if t == event_hardlink
    then codes "HARDLINK"
    else if t == event_mkdir
    then codes "MKDIR"
    else if t == event_mmap
    then codes "MMAP"
    else if t == event_attr
    then codes "ATTR"
    else if t == event_stat
    then codes "STAT"
    else if t == event_mknod
    then codes "MKNOD"
    else unknown_label

-- The switch of `ParseEventType`, on the string in upper case.
abbrev pub parse_upper : Bytes → Option ℕ
parse_upper s =
    if s == codes "OPEN"
    then some event_open
    else if s == codes "READ"
    then some event_read
    else if s == codes "WRITE"
    then some event_write
    else if s == codes "DELETE"
    then some event_delete
    else if s == codes "RENAME"
    then some event_rename
    else if s == codes "SYMLINK"
    then some event_symlink
    else if s == codes "HARDLINK"
    then some event_hardlink
    else if s == codes "MKDIR"
    then some event_mkdir
    else if s == codes "MMAP"
    then some event_mmap
    else if s == codes "ATTR"
    then some event_attr
    else if s == codes "STAT"
    then some event_stat
    else if s == codes "MKNOD"
    then some event_mknod
    else none

-- `ParseEventType`
unfoldable pub parse_event_type : (Bytes → Bytes) → Bytes → Option ℕ
parse_event_type to_upper s = parse_upper (to_upper s)

-- No byte is an ASCII lower-case letter, and all are ASCII.
abbrev pub no_lower : Bytes → Bool
no_lower [] = true
no_lower (c ∷ s) = (ltb c 97 || (ltb 122 c && ltb c 128)) && no_lower s

-- A test holds of every number below `n`.
abbrev all_below : (ℕ → Bool) → ℕ → Bool
all_below p zero = true
all_below p (suc n) = p n && all_below p n

all_below_lem : (p : ℕ → Bool) (n t : ℕ) → all_below p n ≡ true → t < n → p t ≡ true
all_below_lem p zero t h k = ground arith
all_below_lem p (suc n) t h k = elim (Bool-cases (t == n)) [
  | inl last ↦ ground arith
  | inr other ↦ all_below_lem p n t (ground arith) (ground arith)
]

abbrev reads_as : Option ℕ → ℕ → Bool
reads_as none t = false
reads_as (some n) t = n == t

name_good : ℕ → Bool
name_good t = no_lower (name_of t) && reads_as (parse_upper (name_of t)) t

name_good_lem : (t : ℕ) → t < 12 → name_good t ≡ true
unfolding name_good name_of
name_good_lem t h = all_below_lem name_good 12 t refl h

reads : (o : Option ℕ) (t : ℕ) → reads_as o t ≡ true → o ≡ some t
reads none t e = cc
reads (some n) t e = ground arith

-- Every event type's name parses back to the type, if upper-casing leaves a string without
-- lower-case letters alone.
pub parse-name_of :
    (to_upper : Bytes → Bytes)
    → ((s : Bytes) → no_lower s ≡ true → to_upper s ≡ s)
    → (t : ℕ) → t < 12
    → parse_event_type to_upper (name_of t) ≡ some t
unfolding parse_event_type name_good
parse-name_of to_upper keeps t h =
    let (upper, back) = both _ _ (name_good_lem t h) in
    ap parse_upper (keeps (name_of t) upper) ∙ reads _ t back
  where
    both : (a b : Bool) → (a && b) ≡ true → (a ≡ true) × (b ≡ true)
    both a b e = ground arith
