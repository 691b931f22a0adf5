-- ===== src/Guard/Inodes.antt =====
-- internal/guard/engine.go: which resource an inode's row belongs to. `filepath.Clean` and the inode's
-- physical chain are parameters.
pub mod Paths
pub mod Claims
pub mod Release
use app_listener.Base.{
  ℕ, zero, suc, ◌+◌, ◌-◌, ◌≡◌, Bool, true, false, not, ◌&&◌, ◌||◌, Option, none, some, List, [],
  ◌∷◌, ◌++◌, ◌==◌, nat_eq, list_eq, if◌then◌else◌, ltb, length, get_elem?, take, contains, Bytes,
}
use app_listener.Base.Assoc.{lookup, insert, delete, has_key}
use app_listener.Base.State.{Error, Result, ok, err, pure, ◌>>=◌, ◌>>◌, when, each}
use app_listener.Guard.Keys.{InodeKey, inode_eq, guard_max_res}
use app_listener.Guard.Kernel.{Kernel, Row, inode_row, successor_row}
use app_listener.Guard.Engine.{
  SlotGuard, Engine, World, Act, put_row, delete_row, lookup_row, set_engine, on_engine,
  is_read_only,
}

abbrev pub slash : ℕ
slash = 47

abbrev pub byte_is : Option ℕ → ℕ → Bool
byte_is none c = false
byte_is (some b) c = b == c

-- `pathWithin`
unfoldable pub path_within : Bytes → Bytes → Bool
path_within path root =
    if length path == length root
    then path == root
    else ltb (length root) (length path)
      && (byte_is (get_elem? path (length root)) slash && (take (length root) path == root))

-- `tieRank`
abbrev pub tie_rank : SlotGuard → ℕ
tie_rank g = (if g.canonical_root then 2 else 0) + (if is_read_only g.mode then 0 else 1)

-- Some root of a matching resource is `k`.
abbrev pub root_matches : List (ℕ × InodeKey) → (ℕ → Bool) → InodeKey → Bool
root_matches [] match_id k = false
root_matches ((id, r) ∷ roots) match_id k =
    ((r == k) && match_id id) || root_matches roots match_id k

-- `nearestOf`: an index into the chain, from `i`.
abbrev pub nearest_from : ℕ → List InodeKey → List (ℕ × InodeKey) → (ℕ → Bool) → Option ℕ
nearest_from i [] roots match_id = none
nearest_from i (k ∷ chain) roots match_id =
    let further = nearest_from (suc i) chain roots match_id in
    if root_matches roots match_id k then some i else further

abbrev pub nearest_of : List InodeKey → List (ℕ × InodeKey) → (ℕ → Bool) → Option ℕ
nearest_of chain roots match_id = nearest_from 0 chain roots match_id

-- The comparison with a live owner, by the two indices.
abbrev pub takes_from_owner : Option ℕ → Option ℕ → Bool → Bool
takes_from_owner s none outranks = true
takes_from_owner none (some o) outranks = false
takes_from_owner (some s) (some o) outranks = ltb s o || ((s == o) && outranks)

-- `slices.Index(chain, k)`
abbrev pub index_from : ℕ → List InodeKey → InodeKey → Option ℕ
index_from i [] k = none
index_from i (c ∷ chain) k =
    let further = index_from (suc i) chain k in if c == k then some i else further

-- `i < sIdx`, where an index that is not found is -1.
abbrev pub before : Option ℕ → Option ℕ → Bool
before i none = false
before none (some s) = true
before (some i) (some s) = ltb i s

abbrev pub index_of_root : List InodeKey → Option InodeKey → Option ℕ
index_of_root chain none = index_from 0 chain (record { dev = 0; ino = 0 })
index_of_root chain (some k) = index_from 0 chain k

-- A root that keeps `self` from a symlink's target.
abbrev pub blocks :
    List InodeKey → List (ℕ × InodeKey) → (ℕ → Bool) → (ℕ → Bool) → Option ℕ → ℕ → Bool
blocks chain roots self outranks s id =
    not (self id) && (before (index_of_root chain (lookup id roots)) s || not (outranks id))

abbrev pub is_unblocked : Option ℕ → Option ℕ → Bool
is_unblocked none blocking = false
is_unblocked (some s) none = true
is_unblocked (some s) (some b) = ltb s b

-- `nearestRootClaims`
unfoldable pub nearest_root_claims :
    List InodeKey → List (ℕ × InodeKey) → (ℕ → Bool) → ℕ → (ℕ → Bool) → Bool
nearest_root_claims chain roots self owner outranks =
    let s = nearest_of chain roots self in
    if owner == 0
    then is_unblocked s (nearest_of chain roots (blocks chain roots self outranks s))
    else takes_from_owner s (nearest_of chain roots λ id. id == owner) (outranks owner)

-- `appendInodeRow`: `seen` holds the keys of `rows`.
abbrev pub append_inode_row : List InodeKey → InodeKey × ℕ → ℕ → List InodeKey
append_inode_row rows (key, val) res =
    if not (val == res) || contains rows key then rows else rows ++ key ∷ []

-- `batchInodeRows`, over the rows that the walk visits.
abbrev batch_from : List InodeKey → List (InodeKey × ℕ) → ℕ → List InodeKey
batch_from rows [] res = rows
batch_from rows (visit ∷ visits) res = batch_from (append_inode_row rows visit res) visits res

unfoldable pub batch_inode_rows : List (InodeKey × ℕ) → ℕ → List InodeKey
batch_inode_rows visits res = batch_from [] visits res

abbrev pub path_of : Engine → ℕ → Bytes
path_of e id = elim (lookup id e.slots) [ none ↦ [] | some g ↦ g.path ]

abbrev pub rank_of : Engine → ℕ → ℕ
rank_of e id = elim (lookup id e.slots) [ none ↦ 0 | some g ↦ tie_rank g ]

-- A lookup whose error counts as absence.
abbrev pub found_or_none : (K : Kernel) → Row → Act K (Option ℕ)
found_or_none K r w =
    let (x, w') = lookup_row K r w in elim x [ ok o ↦ (ok o, w') | err e ↦ (ok none, w') ]

module _ (clean : Bytes → Bytes) where
  -- The loop of `innerResourceOwnsLocked`.
  abbrev pub inner_in : List (ℕ × SlotGuard) → ℕ → Bytes → Bytes → Bool
  inner_in [] res outer path = false
  inner_in ((id, o) ∷ slots) res outer path =
      let root = clean o.path in
      (not (id == res)
        && (not (root == outer) && (path_within root outer && path_within path root)))
      || inner_in slots res outer path

  -- `innerResourceOwnsLocked`; the guard is the one in slot `res`.
  abbrev pub inner_resource_owns : Engine → ℕ → SlotGuard → Bytes → Bool
  inner_resource_owns e res g path = inner_in e.slots res (clean g.path) path

  -- `mayClaimLocked`, but for the log: an unknowable chain claims nothing.
  abbrev pub may_claim :
      Engine → List (ℕ × InodeKey) → ℕ → SlotGuard → Option (List InodeKey) → ℕ → Bool
  may_claim e roots res g none owner = false
  may_claim e roots res g (some chain) owner =
      nearest_root_claims chain roots (λ id. (id == res) || (path_of e id == g.path)) owner
        (λ id. ltb (rank_of e id) (tie_rank g))

  -- The live owner that the row names, 0 for none.
  abbrev pub live_owner_of : Engine → ℕ → Option ℕ → ℕ
  live_owner_of e res none = 0
  live_owner_of e res (some cur) =
      if not (cur == res) && (ltb cur guard_max_res && has_key cur e.slots) then cur else 0

  abbrev pub replaces : Engine → SlotGuard → ℕ → Bool
  replaces e g owner = not (owner == 0) && (clean (path_of e owner) == clean g.path)

  module _ (K : Kernel) where
    abbrev pub remember_owner : InodeKey → ℕ → Act K (Unit {0})
    remember_owner key owner =
        when (not (owner == 0))
          (set_engine K λ e. record e { prev_owner = insert key owner e.prev_owner })

    -- The end of `claimInode`, once the row's owner is read.
    abbrev pub claim_from :
        List (ℕ × InodeKey)
        → ℕ
        → SlotGuard
        → Option (List InodeKey)
        → InodeKey
        → Bool
        → ℕ
        → Act K (Unit {0})
    claim_from roots res g chain key via_link owner = on_engine K λ e.
        if not (replaces e g owner)
          && ((not (owner == 0) || via_link) && not (may_claim e roots res g chain owner))
        then pure tt
        else (do remember_owner key owner; put_row K (inode_row key) res)

    -- `claimInode`; the roots and the chain are those that the engine reads.
    unfoldable pub claim_inode :
        List (ℕ × InodeKey)
        → ℕ
        → SlotGuard
        → Bytes
        → Option (List InodeKey)
        → InodeKey
        → Bool
        → Act K (Unit {0})
    claim_inode roots res g path chain key via_link = on_engine K λ e.
        if inner_resource_owns e res g (clean path) then pure tt else (do
          cur ← found_or_none K (inode_row key)
          claim_from roots res g chain key via_link (live_owner_of e res cur))

module _ (K : Kernel) where
  -- A displaced owner that is still live.
  abbrev pub live_prev : Engine → ℕ → Option ℕ → Option ℕ
  live_prev e res none = none
  live_prev e res (some prev) =
      if not (prev == res) && (ltb prev guard_max_res && has_key prev e.slots)
      then some prev
      else none

  abbrev pub give_row : InodeKey → Option ℕ → Act K (Unit {0})
  give_row k none = delete_row K (inode_row k)
  give_row k (some prev) = put_row K (inode_row k) prev

  -- The loop body of `releaseInodes`: the row goes back to its owner before, or goes.
  abbrev pub release_inode : ℕ → InodeKey → Act K (Unit {0})
  release_inode res k = do
    on_engine K λ e. give_row k (live_prev e res (lookup k e.prev_owner))
    set_engine K λ e. record e { prev_owner = delete k e.prev_owner }

  -- The last loop: no record is left that points at the resource.
  abbrev pub forget_prev : ℕ → List (InodeKey × ℕ) → List (InodeKey × ℕ)
  forget_prev res [] = []
  forget_prev res ((k, v) ∷ prev) =
      if v == res then forget_prev res prev else (k, v) ∷ forget_prev res prev

  -- `releaseInodes`, over the rows that `inodeRowsOf` lists.
  unfoldable pub release_inodes : ℕ → List InodeKey → Act K (Unit {0})
  release_inodes res owned = do
    each (release_inode res) owned
    set_engine K λ e. record e { prev_owner = forget_prev res e.prev_owner }

  -- The loop body of `linkReloadTwinLocked`; a failed write is only logged.
  abbrev pub link_slot :
      (Bytes → Bytes) → ℕ → SlotGuard → ℕ × SlotGuard → World K.State → World K.State
  link_slot clean id g (old, o) w =
      let (r, w') = put_row K (successor_row old) id w in
      if (old == id) || not (clean o.path == clean g.path) then w else elim r [
        | err e ↦ w'
        | ok u ↦ record w' {
          engine = record w'.engine { successor = insert old id w'.engine.successor };
        }
      ]

  abbrev pub link_slots :
      (Bytes → Bytes) → ℕ → SlotGuard → List (ℕ × SlotGuard) → World K.State → World K.State
  link_slots clean id g [] w = w
  link_slots clean id g (slot ∷ slots) w = link_slots clean id g slots (link_slot clean id g slot w)

  -- `linkReloadTwinLocked`, over the live slots.
  unfoldable pub link_reload_twin : (Bytes → Bytes) → ℕ → SlotGuard → World K.State → World K.State
  link_reload_twin clean id g w = link_slots clean id g w.engine.slots w

  abbrev pub unlink_rows : ℕ → List (ℕ × ℕ) → K.State → K.State
  unlink_rows id [] s = s
  unlink_rows id ((old, next) ∷ links) s =
      let skip = unlink_rows id links s in
      let rest = unlink_rows id links (K.put (successor_row old) 0 s).1 in
      if not (old == id) && not (next == id) then skip else rest

  abbrev pub unlinked : ℕ → List (ℕ × ℕ) → List (ℕ × ℕ)
  unlinked id [] = []
  unlinked id ((old, next) ∷ links) =
      let rest = unlinked id links in
      if not (old == id) && not (next == id) then (old, next) ∷ rest else rest

  -- `unlinkReloadTwinLocked`: a link goes even where clearing its row failed.
  unfoldable pub unlink_reload_twin : ℕ → World K.State → World K.State
  unlink_reload_twin id w = record w {
    kernel = unlink_rows id w.engine.successor w.kernel;
    engine = record w.engine { successor = unlinked id w.engine.successor };
  }

-- `reloadTwins`: the slots of the live guards on the root, other than the guard's own.
unfoldable pub reload_twins : (Bytes → Bytes) → List (ℕ × SlotGuard) → ℕ → SlotGuard → List ℕ
reload_twins clean [] res g = []
reload_twins clean ((id, o) ∷ slots) res g =
    let rest = reload_twins clean slots res g in
    if not (id == res) && (clean o.path == clean g.path) then id ∷ rest else rest
