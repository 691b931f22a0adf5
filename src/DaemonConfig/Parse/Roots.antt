-- ===== src/DaemonConfig/Parse/Roots.antt =====
-- internal/daemonconfig: the guarded trees of a configuration that parses, against one another.
use app_listener.Base.{
  ℕ, zero, suc, ◌+◌, sym, ◌≡◌, ◌≢◌, ap, ◌∙◌, false, not, ◌&&◌, some, List, [], ◌∷◌, ◌==◌, nat_eq,
  list_eq, refl, true, ◌++◌, append_assoc, get_elem?, Bytes, bytes_iff, arith,
}
use app_listener.DaemonConfig.{done, refuse_if-done, then-done, bind-done, FileSystem, Config}
use app_listener.Base.Strings.{has_prefix}
use app_listener.DaemonConfig.Text.{is_inside_path}
use app_listener.DaemonConfig.Parse.{
  no_repeats, no_clash, no_clashes, validate_resources, resolved_paths, parse, parse_config,
}

-- The path is the other with a slash and more behind it.
abbrev pub Below : Bytes → Bytes → Type 0
Below a b = (rest : Bytes) × (a ≡ b ++ 47 ∷ rest)

-- Two roots that are no obstacle to each other.
abbrev pub Apart : Bytes → Bytes → Type 0
Apart a b = (a ≢ b) × (¬ (Below a b))

has_prefix-append : (a p : Bytes) → has_prefix (a ++ p) a ≡ true
has_prefix-append [] p = refl
has_prefix-append (c ∷ a) p = ground (arith, has_prefix-append a p)

-- What is below a path is not that path.
append-ne : (b : Bytes) (c : ℕ) (rest : Bytes) → (b ++ c ∷ rest == b) ≡ false
append-ne [] c rest = refl
append-ne (d ∷ b) c rest = ground (arith, append-ne b c rest)

-- `isInsidePath` sees all that is below a path.
below-inside : (b rest : Bytes) → is_inside_path (b ++ 47 ∷ rest) b ≡ true
unfolding is_inside_path
below-inside b rest =
    rw (append-ne b 47 rest, regroup) (has_prefix-append (b ++ 47 ∷ []) (rest ++ 47 ∷ []))
  where
    regroup : (b ++ 47 ∷ rest) ++ 47 ∷ [] ≡ (b ++ 47 ∷ []) ++ (rest ++ 47 ∷ [])
    regroup = append_assoc b (47 ∷ rest) (47 ∷ []) ∙ sym (append_assoc b (47 ∷ []) _)

not-Below : (a b : Bytes) → is_inside_path a b ≡ false → ¬ (Below a b)
not-Below a b h (rest, e) =
    let inside : is_inside_path a b ≡ true = rw e (below-inside b rest) in cc

same_element : (a c : Bytes) → some c ≡ some a → c ≡ a
same_element a c e = cc

clash_free :
    (i k : ℕ) (a c b : Bytes)
    → (not (i == k) && (a == c)) ≡ false
    → (not (i == k) && is_inside_path a c) ≡ false
    → c ≡ b
    → i ≢ k
    → Apart a b
clash_free i k a c b same inside e ne =
    rw⁻¹ e ((λ x. absurd (ground (arith, bytes_iff a c))), not-Below a c (ground arith))

-- The inner loop compares its root with the root of every other place.
no_clash-Apart :
    (i : ℕ) (a : Bytes) (k : ℕ) (bs : List Bytes) (j : ℕ) (b : Bytes)
    → no_clash i a k bs ≡ done tt
    → get_elem? bs j ≡ some b
    → i ≢ j + k
    → Apart a b
no_clash-Apart i a k [] j b h e ne = absurd cc
no_clash-Apart i a k (c ∷ bs) zero b h e ne =
    let (same, rest) = then-done _ _ tt h in
    let (inside, more) = then-done _ _ tt rest in
    clash_free i k a c b (refuse_if-done _ _ same) (refuse_if-done _ _ inside) (same_element b c e)
      (λ x. ne (omega arith))
no_clash-Apart i a k (c ∷ bs) (suc j) b h e ne =
    let (same, rest) = then-done _ _ tt h in
    let (inside, more) = then-done _ _ tt rest in
    no_clash-Apart i a (suc k) bs j b more e λ x. ne (omega arith)

no_clashes-Apart :
    (i : ℕ) (bs all : List Bytes) (n m : ℕ) (a b : Bytes)
    → no_clashes i bs all ≡ done tt
    → get_elem? bs n ≡ some a
    → get_elem? all m ≡ some b
    → n + i ≢ m
    → Apart a b
no_clashes-Apart i [] all n m a b h e f ne = absurd cc
no_clashes-Apart i (c ∷ bs) all zero m a b h e f ne =
    no_clash-Apart i a 0 all m b
      (ap (λ x. no_clash i x 0 all) (sym (same_element a c e)) ∙ (then-done _ _ tt h).0) f
      λ x. ne (omega arith)
no_clashes-Apart i (c ∷ bs) all (suc n) m a b h e f ne =
    no_clashes-Apart (suc i) bs all n m a b (then-done _ _ tt h).1 e f λ x. ne (omega arith)

same_resources : (c cfg : Config) → done c ≡ done cfg → c.resources ≡ cfg.resources
same_resources c cfg e = cc

-- When `Parse` accepts a configuration, the resolved path of a resource is not that of a resource at another
-- place and does not begin with that path and a slash. This excludes every tree inside a guarded tree other
-- than `/`; a path inside `/` is not excluded, since it does not begin with two slashes.
pub parse-Apart :
    (fs : FileSystem) (raw : Bytes) (cfg : Config) (n m : ℕ) (a b : Bytes)
    → parse fs raw ≡ done cfg
    → get_elem? (resolved_paths fs cfg.resources) n ≡ some a
    → get_elem? (resolved_paths fs cfg.resources) m ≡ some b
    → n ≢ m
    → Apart a b
unfolding parse validate_resources
parse-Apart fs raw cfg n m a b h e f ne =
    let (c, k, rest) = bind-done (parse_config fs raw) _ cfg h in
    let (valid, same) = then-done (validate_resources fs c) (done c) cfg rest in
    let (repeats, clashes) = then-done (no_repeats [] c.resources) _ tt valid in
    let at_place : (i : ℕ)
        → get_elem? (resolved_paths fs c.resources) i
          ≡ get_elem? (resolved_paths fs cfg.resources) i =
      λ i. ap (λ d. get_elem? (resolved_paths fs d) i) (same_resources c cfg same) in
    no_clashes-Apart 0 _ _ n m a b clashes (at_place n ∙ e) (at_place m ∙ f) λ x. ne (omega arith)
