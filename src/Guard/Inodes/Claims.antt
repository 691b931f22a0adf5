-- ===== src/Guard/Inodes/Claims.antt =====
-- internal/guard/engine.go: who takes an inode's row from whom, and which rows a release lists.
use app_listener.Base.{
  distinct, distinct-append_one, Bytes, bytes_iff, beq_refl, list_eq, Bool, not, ap, if◌then◌else◌,
  suc, ℕ, ◌≡◌, ◌+◌, ◌++◌, ◌≢◌, refl, sym, ◌∙◌, true, false, ◌&&◌, ◌||◌, Option, none, some, List,
  [], ◌∷◌, ◌==◌, nat_eq, pair_eq, ltb, Bool-cases, inl, inr, contains, contains-append, arith,
}
use app_listener.Guard.Keys.{InodeKey, inode_eq}
use app_listener.Base.Assoc.{lookup}
use app_listener.Guard.Engine.{Engine, SlotGuard}
use app_listener.Guard.Inodes.{
  path_of, root_matches, may_claim, rank_of, tie_rank, nearest_from, nearest_root_claims,
  nearest_of, takes_from_owner, batch_inode_rows, batch_from, append_inode_row,
}

one_way :
    (s o : Option ℕ) (a b : ℕ)
    → s ≢ none
    → o ≢ none
    → takes_from_owner s o (ltb b a) ≡ true
    → takes_from_owner o s (ltb a b) ≡ false
one_way none o a b h k e = absurd (h refl)
one_way (some s) none a b h k e = absurd (k refl)
one_way (some s) (some o) a b h k e = ground arith

-- Every live resource with that path, a reload's twin, has its root at `r`.
abbrev pub twins_share : Engine → Bytes → InodeKey → List (ℕ × InodeKey) → Bool
twins_share e path r [] = true
twins_share e path r ((id, q) ∷ roots) =
    (not (path_of e id == path) || (q == r)) && twins_share e path r roots

-- A root is that of the resource or of a twin.
abbrev is_self : Engine → ℕ → Bytes → ℕ → Bool
is_self e res path id = (id == res) || (path_of e id == path)

lookup-root_matches :
    (roots : List (ℕ × InodeKey)) (a : ℕ) (r : InodeKey)
    → lookup a roots ≡ some r
    → root_matches roots (λ id. id == a) r ≡ true
lookup-root_matches [] a r h = absurd cc
lookup-root_matches ((id, q) ∷ roots) a r h =
    ground (arith, inode_eq.beq_iff q r, lookup-root_matches roots a r)

twin_matches :
    (e : Engine) (roots : List (ℕ × InodeKey)) (a : ℕ) (path : Bytes) (r k : InodeKey)
    → path_of e a ≡ path
    → twins_share e path r roots ≡ true
    → root_matches roots (is_self e a path) k ≡ true
    → r ≡ k
twin_matches e [] a path r k p t h = absurd cc
twin_matches e ((id, q) ∷ roots) a path r k p t h = ground (
  arith,
  inode_eq.beq_iff q r,
  inode_eq.beq_iff q k,
  bytes_iff (path_of e id) path,
  ap (path_of e),
  twin_matches e roots a path r k p,
)

own_matches :
    (e : Engine) (roots : List (ℕ × InodeKey)) (a : ℕ) (path : Bytes) (k : InodeKey)
    → root_matches roots (λ id. id == a) k ≡ true
    → root_matches roots (is_self e a path) k ≡ true
own_matches e [] a path k h = h
own_matches e ((id, q) ∷ roots) a path k h = ground (arith, own_matches e roots a path k)

same_truth : (x y : Bool) → (x ≡ true → y ≡ true) → (y ≡ true → x ≡ true) → x ≡ y
same_truth true y h k = sym (h refl)
same_truth false true h k = k refl
same_truth false false h k = refl

-- A root's match does not depend on the twins, nor does the nearest one.
matches_own :
    (e : Engine) (roots : List (ℕ × InodeKey)) (a : ℕ) (path : Bytes) (r k : InodeKey)
    → path_of e a ≡ path
    → lookup a roots ≡ some r
    → twins_share e path r roots ≡ true
    → root_matches roots (is_self e a path) k ≡ root_matches roots (λ id. id == a) k
matches_own e roots a path r k p h t =
    same_truth _ _
      (λ m.
        ap (root_matches roots λ id. id == a) (sym (twin_matches e roots a path r k p t m))
        ∙ lookup-root_matches roots a r h)
      (own_matches e roots a path k)

nearest_own :
    (e : Engine) (chain : List InodeKey) (roots : List (ℕ × InodeKey)) (i a : ℕ) (path : Bytes)
    (r : InodeKey)
    → path_of e a ≡ path
    → lookup a roots ≡ some r
    → twins_share e path r roots ≡ true
    → nearest_from i chain roots (is_self e a path) ≡ nearest_from i chain roots (λ id. id == a)
nearest_own e [] roots i a path r p h t = refl
nearest_own e (k ∷ chain) roots i a path r p h t =
    rw (matches_own e roots a path r k p h t, nearest_own e chain roots (suc i) a path r p h t) refl

rank_of_lem :
    (e : Engine) (a : ℕ) (g : SlotGuard) → lookup a e.slots ≡ some g → rank_of e a ≡ tie_rank g
rank_of_lem e a g h = rw (h, rank_of) refl

-- A root on the chain is found there.
nearest-found :
    (chain : List InodeKey) (roots : List (ℕ × InodeKey)) (i a : ℕ) (r : InodeKey)
    → lookup a roots ≡ some r
    → contains chain r ≡ true
    → nearest_from i chain roots (λ id. id == a) ≢ none
nearest-found [] roots i a r h c = λ e. cc
nearest-found (k ∷ chain) roots i a r h c = ground (
  arith,
  inode_eq.beq_iff k r,
  lookup-root_matches roots a r h,
  nearest-found chain roots (suc i) a r h,
)

-- Without its twins, a claim on a live owner's row is the comparison of the two roots.
may_claim_lem :
    (clean : Bytes → Bytes) (e : Engine) (roots : List (ℕ × InodeKey)) (chain : List InodeKey)
    (a b : ℕ) (g : SlotGuard) (r : InodeKey)
    → b ≢ 0
    → lookup a e.slots ≡ some g
    → lookup a roots ≡ some r
    → twins_share e g.path r roots ≡ true
    → may_claim clean e roots a g (some chain) b
      ≡ takes_from_owner
          (nearest_of chain roots (λ id. id == a))
          (nearest_of chain roots (λ id. id == b))
          (ltb (rank_of e b) (tie_rank g))
unfolding nearest_root_claims
may_claim_lem clean e roots chain a b g r real live h t =
    let owner : (b == 0) ≡ false = ground arith in
    rw owner (
      ap
        (λ o.
          takes_from_owner o (nearest_of chain roots (λ id. id == b))
            (ltb (rank_of e b) (tie_rank g)))
        (nearest_own e chain roots 0 a g.path r (rw (live, path_of) refl) h t))

-- Two live resources with roots on an inode's chain: if every reload twin of either has its root where
-- the resource has it, at most one of the two may take the inode's row from the other, whatever the
-- places of their roots and their ranks.
pub may_claim-one_way :
    (clean : Bytes → Bytes) (e : Engine) (roots : List (ℕ × InodeKey)) (chain : List InodeKey)
    (a b : ℕ) (g h : SlotGuard) (r q : InodeKey)
    → a ≢ 0
    → b ≢ 0
    → lookup a e.slots ≡ some g
    → lookup b e.slots ≡ some h
    → lookup a roots ≡ some r
    → lookup b roots ≡ some q
    → contains chain r ≡ true
    → contains chain q ≡ true
    → twins_share e g.path r roots ≡ true
    → twins_share e h.path q roots ≡ true
    → may_claim clean e roots a g (some chain) b ≡ true
    → may_claim clean e roots b h (some chain) a ≡ false
may_claim-one_way clean e roots chain a b g h r q ra rb la lb ha hb ca cb ta tb takes =
    may_claim_lem clean e roots chain b a h q ra lb hb tb
    ∙ ap
        (λ n.
          takes_from_owner (nearest_of chain roots (λ id. id == b))
            (nearest_of chain roots (λ id. id == a)) (ltb n (tie_rank h)))
        (rank_of_lem e a g la)
    ∙ one_way _ _ (tie_rank g) (tie_rank h) (nearest-found chain roots 0 a r ha ca)
        (nearest-found chain roots 0 b q hb cb)
        (sym (
            ap
              (λ n.
                takes_from_owner (nearest_of chain roots (λ id. id == a))
                  (nearest_of chain roots (λ id. id == b)) (ltb n (tie_rank g)))
              (rank_of_lem e b h lb))
          ∙ sym (may_claim_lem clean e roots chain a b g r rb la ha ta)
          ∙ takes)

contains-append_inode_row :
    (rows : List InodeKey) (key : InodeKey) (val res : ℕ) (k : InodeKey)
    → contains (append_inode_row rows (key, val) res) k
      ≡ (contains rows k || ((key == k) && (val == res)))
contains-append_inode_row rows key val res k = elim (Bool-cases (key == k)) [
  | inl same ↦ grind (arith, contains-append rows (key ∷ []) k, (inode_eq.beq_iff key k).0 same)
  | inr other ↦ grind (arith, contains-append rows (key ∷ []) k)
]

contains-batch_from :
    (visits : List (InodeKey × ℕ)) (rows : List InodeKey) (res : ℕ) (k : InodeKey)
    → contains (batch_from rows visits res) k ≡ (contains rows k || contains visits (k, res))
contains-batch_from [] rows res k = ground arith
contains-batch_from ((key, val) ∷ visits) rows res k =
    contains-batch_from visits (append_inode_row rows (key, val) res) res k
    ∙ rw (contains-append_inode_row rows key val res k) (ground arith)

-- How often a key is listed.
abbrev pub times : InodeKey → List InodeKey → ℕ
times k [] = 0
times k (j ∷ rows) = (if j == k then 1 else 0) + times k rows

times-append : (k : InodeKey) (xs ys : List InodeKey) → times k (xs ++ ys) ≡ times k xs + times k ys
times-append k [] ys = omega arith
times-append k (x ∷ xs) ys = omega (arith, times-append k xs ys)

-- No key is listed twice.
abbrev ListedOnce : List InodeKey → InodeKey → Type 0
ListedOnce rows k = times k rows ≡ (if contains rows k then 1 else 0)

ListedOnce-if :
    (rows : List InodeKey) (k : InodeKey) (skip : Bool)
    → (skip ≡ false → contains rows k ≡ false)
    → ListedOnce rows k
    → ListedOnce (if skip then rows else rows ++ k ∷ []) k
ListedOnce-if rows k true new h = h
ListedOnce-if rows k false new h =
    ground
      (arith, new refl, contains-append rows (k ∷ []) k, times-append k rows (k ∷ []), beq_refl k)

append_inode_row-ListedOnce :
    (rows : List InodeKey) (key : InodeKey) (val res : ℕ) (k : InodeKey)
    → ListedOnce rows k
    → ListedOnce (append_inode_row rows (key, val) res) k
append_inode_row-ListedOnce rows key val res k h = elim (Bool-cases (key == k)) [
  | inl same ↦
      rw ((inode_eq.beq_iff key k).0 same)
        (ListedOnce-if rows k (not (val == res) || contains rows k) (λ e. ground arith) h)
  | inr other ↦ ground (arith, contains-append rows (key ∷ []) k, times-append k rows (key ∷ []))
]

batch_from-ListedOnce :
    (visits : List (InodeKey × ℕ)) (rows : List InodeKey) (res : ℕ) (k : InodeKey)
    → ListedOnce rows k
    → ListedOnce (batch_from rows visits res) k
batch_from-ListedOnce [] rows res k h = h
batch_from-ListedOnce ((key, val) ∷ visits) rows res k h =
    batch_from-ListedOnce visits (append_inode_row rows (key, val) res) res k
      (append_inode_row-ListedOnce rows key val res k h)

distinct-append_inode_row :
    (rows : List InodeKey) (key : InodeKey) (val res : ℕ)
    → distinct rows ≡ true
    → distinct (append_inode_row rows (key, val) res) ≡ true
distinct-append_inode_row rows key val res h = go (not (val == res) || contains rows key) refl
  where
    go :
        (skip : Bool)
        → (not (val == res) || contains rows key) ≡ skip
        → distinct (if skip then rows else rows ++ key ∷ []) ≡ true
    go true e = h
    go false e = ground (arith, distinct-append_one rows key)

distinct-batch_from :
    (visits : List (InodeKey × ℕ)) (rows : List InodeKey) (res : ℕ)
    → distinct rows ≡ true
    → distinct (batch_from rows visits res) ≡ true
distinct-batch_from [] rows res h = h
distinct-batch_from ((key, val) ∷ visits) rows res h =
    distinct-batch_from visits (append_inode_row rows (key, val) res) res
      (distinct-append_inode_row rows key val res h)

-- The listed rows, for the loops over them.
pub distinct-batch_inode_rows :
    (visits : List (InodeKey × ℕ)) (res : ℕ) → distinct (batch_inode_rows visits res) ≡ true
unfolding batch_inode_rows
distinct-batch_inode_rows visits res = distinct-batch_from visits [] res refl

pub contains-batch_inode_rows :
    (visits : List (InodeKey × ℕ)) (res : ℕ) (k : InodeKey)
    → contains (batch_inode_rows visits res) k ≡ contains visits (k, res)
unfolding batch_inode_rows
contains-batch_inode_rows visits res k = contains-batch_from visits [] res k

-- A walk that visits a row lists it exactly once, however often it visits it, if the row has the
-- resource's number, and lists no other row.
pub times-batch_inode_rows :
    (visits : List (InodeKey × ℕ)) (res : ℕ) (k : InodeKey)
    → times k (batch_inode_rows visits res) ≡ (if contains visits (k, res) then 1 else 0)
unfolding batch_inode_rows
times-batch_inode_rows visits res k =
    batch_from-ListedOnce visits [] res k refl
    ∙ ap (λ b. if b then 1 else 0) (contains-batch_from visits [] res k)
