-- ===== src/Samples.antt =====
-- Concrete runs: each result applied to an input where its conditions hold.
mod Guarding
mod Grants
mod Configs
mod Kernel
mod Upkeep
mod Recordings
mod Transactions
use app_listener.Base.{
  ℕ, ◌+◌, ◌-◌, ◌%◌, ◌<◌, ◌≤◌, ◌≡◌, refl, ◌≢◌, ◌⊎◌, Bool, true, false, not, ◌&&◌, ◌||◌, Option, none,
  some, List, [], ◌∷◌, ◌++◌, ◌==◌, nat_eq, list_eq, pair_eq, if◌then◌else◌, ltb, leb, length, take,
  get_elem?, min, contains, Bytes, codes, arith,
}
use app_listener.Base.Assoc.{lookup}
use app_listener.Base.Strings.{has_prefix}
use app_listener.Base.State.{ok}
use app_listener.Guard.Keys.{InodeKey, inode_eq, whitelist}
use app_listener.Guard.Engine.{Engine, SlotGuard}
use app_listener.Guard.Inodes.{path_within, slash, nearest_root_claims, may_claim, batch_inode_rows}
use app_listener.Guard.Inodes.Paths.{path_within_lem}
use app_listener.Guard.Inodes.Claims.{may_claim-one_way, times, times-batch_inode_rows}
use app_listener.Guard.Freed.{droppable_freed, first_seen, droppable_freed-twice}
use app_listener.EventNames.{name_of, parse_event_type, no_lower, parse-name_of}
use app_listener.Codeedit.{
  Unicode, word_right, word_left, right_in, left_in, soft_tab_forward, only_spaces,
}
use app_listener.Codeedit.Words.{word_right-bounds, word_left-bounds}
use app_listener.Codeedit.Indent.{soft_tab_forward-stop}
use app_listener.Session.{guards_for}
use app_listener.Session.Guards.{Serves, guards_for-Serves}

path_within_lem_example : path_within (codes "/etc/app") (codes "/etc") ≡ (
    (codes "/etc/app" == codes "/etc")
    || has_prefix (codes "/etc/app") (codes "/etc" ++ slash ∷ []))
path_within_lem_example = path_within_lem (codes "/etc/app") (codes "/etc")

abbrev key : ℕ → InodeKey
key n = record { dev = 1; ino = n }

abbrev nested_roots : List (ℕ × InodeKey)
nested_roots = (1, key 10) ∷ (2, key 20) ∷ []

abbrev inner_chain : List InodeKey
inner_chain = key 30 ∷ key 20 ∷ key 10 ∷ []

abbrev tree : Bytes → SlotGuard
tree path = record { path = path; mode = whitelist; canonical_root = true }

abbrev two_trees : Engine
two_trees = record {
  slots = (1, tree (codes "/srv")) ∷ (2, tree (codes "/srv/db")) ∷ [];
  started = true;
  refs = 2;
  allows = [];
  allows_made = true;
  sets = [];
  set_at = [];
  set_rows = [];
  union_rows = [];
  member_rows = [];
  successor = [];
  inspectors = [];
  prev_owner = [];
  mc_tags = [];
  mc_builds = [];
  mc_names = [];
}

abbrev as_it_is : Bytes → Bytes
as_it_is path = path

inner_claims :
    may_claim as_it_is two_trees nested_roots 2 (tree (codes "/srv/db")) (some inner_chain) 1 ≡ true
unfolding nearest_root_claims
inner_claims = refl

may_claim-one_way_example :
    may_claim as_it_is two_trees nested_roots 1 (tree (codes "/srv")) (some inner_chain) 2 ≡ false
may_claim-one_way_example =
    may_claim-one_way as_it_is two_trees nested_roots inner_chain 2 1 (tree (codes "/srv/db"))
      (tree (codes "/srv")) (key 20) (key 10) (λ e. ground arith) (λ e. ground arith) refl refl refl
      refl refl refl refl refl inner_claims

times-batch_inode_rows_example :
    times (key 1) (batch_inode_rows ((key 1, 5) ∷ (key 2, 6) ∷ (key 1, 5) ∷ []) 5) ≡ (
      if contains {A = InodeKey × ℕ} ((key 1, 5) ∷ (key 2, 6) ∷ (key 1, 5) ∷ []) (key 1, 5)
      then 1
      else 0)
times-batch_inode_rows_example =
    times-batch_inode_rows ((key 1, 5) ∷ (key 2, 6) ∷ (key 1, 5) ∷ []) 5 (key 1)

abbrev freed_first : List InodeKey
freed_first = key 1 ∷ key 2 ∷ []

abbrev freed_then : List InodeKey
freed_then = key 2 ∷ key 3 ∷ []

abbrev never : List (InodeKey × ℕ)
never = []

droppable_freed-twice_example :
    (contains
        (droppable_freed 60 freed_then (droppable_freed 60 freed_first never 100 true).1 200 true).0
        (key 2)
      ≡ (contains freed_first (key 2)
          && (contains freed_then (key 2)
              && (not true || leb 60 (200 - first_seen never 100 (key 2))))))
    × (lookup
          (key 2)
          (droppable_freed 60 freed_then
            (droppable_freed 60 freed_first never 100 true).1
            200
            true).1
        ≡ (if contains freed_then (key 2)
            then some (if contains freed_first (key 2) then first_seen never 100 (key 2) else 200)
            else none))
droppable_freed-twice_example =
    droppable_freed-twice 60 freed_first freed_then never 100 200 true true (key 2)

-- Upper-casing of ASCII.
abbrev upper : Bytes → Bytes
upper [] = []
upper (c ∷ s) = (if ltb c 97 || ltb 122 c then c else c - 32) ∷ upper s

upper-no_lower : (s : Bytes) → no_lower s ≡ true → upper s ≡ s
upper-no_lower [] h = refl
upper-no_lower (c ∷ s) h = ground (arith, upper-no_lower s)

parse-name_of_example : parse_event_type upper (name_of 6) ≡ some 6
parse-name_of_example = parse-name_of upper upper-no_lower 6 (omega arith)

abbrev ascii : Unicode
ascii = record {
  is_space = λ c. c == 32;
  is_letter = λ c. not (ltb c 97) && ltb c 123;
  is_digit = λ c. not (ltb c 48) && ltb c 58;
}

abbrev two_words : Bytes
two_words = codes "ab  cd"

word_right-bounds_example :
    (word_right ascii (two_words ∷ []) 0 1 ≡ some (0, right_in ascii two_words 1))
    × (1 < right_in ascii two_words 1)
    × (right_in ascii two_words 1 ≤ length two_words)
word_right-bounds_example =
    word_right-bounds ascii (two_words ∷ []) 0 1 two_words refl (omega arith)

word_left-bounds_example :
    (word_left ascii (two_words ∷ []) 0 9
      ≡ some (0, left_in ascii two_words (min 9 (length two_words))))
    × (left_in ascii two_words (min 9 (length two_words)) < min 9 (length two_words))
word_left-bounds_example =
    word_left-bounds ascii (two_words ∷ []) 0 9 two_words refl (omega arith) (omega arith)

abbrev indented : Bytes
indented = codes "      x"

removes_two : soft_tab_forward indented 2 ≡ 2
unfolding soft_tab_forward
removes_two = refl

soft_tab_forward-stop_example :
    (soft_tab_forward indented 2 ≤ 4)
    × (2 + soft_tab_forward indented 2 ≤ length indented)
    × ((2 + soft_tab_forward indented 2) % 4 ≡ 0)
    × (only_spaces (take (2 + soft_tab_forward indented 2) indented) ≡ true)
soft_tab_forward-stop_example = soft_tab_forward-stop indented 2 (ground (arith, removes_two))

abbrev guarded : List (Bytes × ℕ)
guarded = (codes "/etc", 0) ∷ (codes "/srv", 1) ∷ []

both_found :
    guards_for guarded [] (codes "/srv" ∷ codes "/etc" ∷ codes "/srv" ∷ []) ≡ ok (1 ∷ 0 ∷ [])
unfolding guards_for
both_found = refl

guards_for-Serves_example : Serves guarded (1 ∷ 0 ∷ []) (codes "/etc")
guards_for-Serves_example =
    guards_for-Serves guarded [] (codes "/srv" ∷ codes "/etc" ∷ codes "/srv" ∷ []) (1 ∷ 0 ∷ [])
      both_found (codes "/etc") refl refl
