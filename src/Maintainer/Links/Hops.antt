-- ===== src/Maintainer/Links/Hops.antt =====
-- internal/maintainer: `resolve` ends within its hops, and accepts only what leads where it may.
use app_listener.Base.{
  ℕ, zero, suc, ◌+◌, ◌≤◌, ◌≡◌, refl, ap, sym, ◌∙◌, Bool, true, false, ◌&&◌, Option, none, some,
  List, [], ◌∷◌, ◌++◌, ◌==◌, nat_eq, list_eq, ltb, if_cases, get_elem?, Bytes, bytes_iff, arith,
}
use app_listener.Maintainer.{OpKind, op_delete, op_dir, op_link, op_file, Op}
use app_listener.Maintainer.Links.{
  max_link_hops, Entry, entry_missing, entry_dir, entry_file, entry_link, LiveTree, LinkView,
  link_target, lib_from, Verdict, leads_in, leads_astray, out_of_fuel, kind, join_rest, follow_link,
  at_entry, walk, below, resolve, join_path, check_target, check_link, check_links,
}

-- A path to judge, or a walk below a lib_dir with the parts that are left.
pub data Place : Type 0 where
  at_path : Bytes → Place
  in_lib : Bytes → List Bytes → Place

abbrev pub is_decided : Verdict → Bool
is_decided leads_in = true
is_decided leads_astray = true
is_decided out_of_fuel = false

module _ (live : LiveTree) (v : LinkView) where
  -- A place leads, through every symlink on the way, to a name below a lib_dir or to one that root decides.
  pub data Leads : Place → Type 0 where
    decided_by_root :
        (p : Bytes) → lib_from p [] v.libs ≡ [] → live.root_placed p ≡ true → Leads (at_path p)
    enters_lib :
        (p : Bytes)
        → (lib_from p [] v.libs == []) ≡ false
        → Leads (in_lib (lib_from p [] v.libs) (below live v (lib_from p [] v.libs) p))
        → Leads (at_path p)
    ends : (cur : Bytes) → Leads (in_lib cur [])
    skips : (cur : Bytes) (cs : List Bytes) → Leads (in_lib cur cs) → Leads (in_lib cur ([] ∷ cs))
    is_missing :
        (cur c : Bytes) (cs : List Bytes)
        → kind live v (cur ++ 47 ∷ c) ≡ some entry_missing
        → Leads (in_lib cur (c ∷ cs))
    is_file :
        (cur c : Bytes) (cs : List Bytes)
        → kind live v (cur ++ 47 ∷ c) ≡ some entry_file
        → Leads (in_lib cur (c ∷ cs))
    descends :
        (cur c : Bytes) (cs : List Bytes)
        → kind live v (cur ++ 47 ∷ c) ≡ some entry_dir
        → Leads (in_lib (cur ++ 47 ∷ c) cs)
        → Leads (in_lib cur (c ∷ cs))
    hops :
        (cur c target next : Bytes) (cs : List Bytes)
        → kind live v (cur ++ 47 ∷ c) ≡ some (entry_link target)
        → link_target (cur ++ 47 ∷ c) target ≡ some next
        → Leads (at_path (join_rest live v next cs))
        → Leads (in_lib cur (c ∷ cs))

  module _ (follow : Bytes → Verdict) where
    at_entry-decided :
        (cur : Bytes) (rest : List Bytes) (more : Verdict) (o : Option Entry)
        → ((p : Bytes) → is_decided (follow p) ≡ true)
        → is_decided more ≡ true
        → is_decided (at_entry live v follow cur rest more o) ≡ true
    at_entry-decided cur rest more none f m = refl
    at_entry-decided cur rest more (some entry_missing) f m = refl
    at_entry-decided cur rest more (some entry_file) f m = refl
    at_entry-decided cur rest more (some entry_dir) f m = m
    at_entry-decided cur rest more (some (entry_link target)) f m = from (link_target cur target)
      where
        from : (o : Option Bytes) → is_decided (follow_link live v follow rest o) ≡ true
        from none = refl
        from (some next) = f (join_rest live v next rest)

    walk-decided :
        (cur : Bytes) (cs : List Bytes)
        → ((p : Bytes) → is_decided (follow p) ≡ true)
        → is_decided (walk live v follow cur cs) ≡ true
    walk-decided cur [] f = refl
    walk-decided cur (c ∷ cs) f =
        if_cases (λ x. is_decided x ≡ true) (c == []) _ _ (λ empty. walk-decided cur cs f)
          λ named.
            at_entry-decided (cur ++ 47 ∷ c) cs _ (kind live v (cur ++ 47 ∷ c)) f
              (walk-decided (cur ++ 47 ∷ c) cs f)

  -- A call on `hops` hops needs at most 42 - `hops` calls: the walk of a symlink always ends in a verdict.
  pub resolve-decided :
      (fuel : ℕ) (p : Bytes) (n : ℕ)
      → 42 ≤ fuel + n
      → n ≤ 41
      → is_decided (resolve live v fuel p n) ≡ true
  resolve-decided zero p n h k = absurd (omega arith)
  resolve-decided (suc fuel) p n h k =
      if_cases (λ x. is_decided x ≡ true) (ltb max_link_hops n) leads_astray _ (λ over. refl)
        λ under.
          if_cases (λ x. is_decided x ≡ true) (lib_from p [] v.libs == []) _ _
            (λ out.
              if_cases (λ x. is_decided x ≡ true) (live.root_placed p) leads_in leads_astray
                (λ a. refl) (λ a. refl))
            λ inside.
              walk-decided (λ next. resolve live v fuel next (suc n)) (lib_from p [] v.libs)
                (below live v (lib_from p [] v.libs) p)
                (λ q. resolve-decided fuel q (suc n) (omega arith) (few n under))
    where
      few : (n : ℕ) → ltb max_link_hops n ≡ false → suc n ≤ 41
      few n h = ground arith

  module _ (follow : Bytes → Verdict)
      (good : (p : Bytes) → follow p ≡ leads_in → Leads (at_path p)) where
    walk-Leads :
        (cur : Bytes) (cs : List Bytes)
        → walk live v follow cur cs ≡ leads_in
        → Leads (in_lib cur cs)
    walk-Leads cur [] = λ e. ends cur
    walk-Leads cur (c ∷ cs) =
        if_cases (λ x. x ≡ leads_in → Leads (in_lib cur (c ∷ cs))) (c == []) _ _
          (λ empty e. from_empty ((bytes_iff c []).0 empty) (walk-Leads cur cs e))
          λ named e. from (kind live v (cur ++ 47 ∷ c)) refl e (walk-Leads (cur ++ 47 ∷ c) cs)
      where
        from_empty : c ≡ [] → Leads (in_lib cur cs) → Leads (in_lib cur (c ∷ cs))
        from_empty h k = rw h (skips cur cs k)

        from :
            (o : Option Entry)
            → kind live v (cur ++ 47 ∷ c) ≡ o
            → at_entry live v follow (cur ++ 47 ∷ c) cs (walk live v follow (cur ++ 47 ∷ c) cs) o
              ≡ leads_in
            → (walk live v follow (cur ++ 47 ∷ c) cs ≡ leads_in → Leads (in_lib (cur ++ 47 ∷ c) cs))
            → Leads (in_lib cur (c ∷ cs))
        from none h e k = absurd cc
        from (some entry_missing) h e k = is_missing cur c cs h
        from (some entry_file) h e k = is_file cur c cs h
        from (some entry_dir) h e k = descends cur c cs h (k e)
        from (some (entry_link target)) h e k = at_link (link_target (cur ++ 47 ∷ c) target) refl e
          where
            at_link :
                (o : Option Bytes)
                → link_target (cur ++ 47 ∷ c) target ≡ o
                → follow_link live v follow cs o ≡ leads_in
                → Leads (in_lib cur (c ∷ cs))
            at_link none g e = absurd cc
            at_link (some next) g e =
                hops cur c target next cs h g (good (join_rest live v next cs) e)

  -- Every path that `resolve` accepts leads, through every symlink on the way, into a lib_dir or to a name that
  -- root decides.
  pub resolve-Leads :
      (fuel : ℕ) (p : Bytes) (n : ℕ) → resolve live v fuel p n ≡ leads_in → Leads (at_path p)
  resolve-Leads zero p n = λ e. absurd cc
  resolve-Leads (suc fuel) p n =
      if_cases Q (ltb max_link_hops n) leads_astray _ (λ over e. absurd cc)
        λ under.
          if_cases Q (lib_from p [] v.libs == []) _ _
            (λ out.
              if_cases Q (live.root_placed p) leads_in leads_astray
                (λ root e. decided_by_root p ((bytes_iff (lib_from p [] v.libs) []).0 out) root)
                (λ user e. absurd cc))
            λ inside e. enters_lib p inside (
              walk-Leads (λ next. resolve live v fuel next (suc n))
                (λ q k. resolve-Leads fuel q (suc n) k) (lib_from p [] v.libs)
                (below live v (lib_from p [] v.libs) p) e)
    where
      Q : Verdict → Type 0
      Q x = x ≡ leads_in → Leads (at_path p)

  check_target-Leads :
      (o : Option Bytes)
      → check_target live v o ≡ true
      → (next : Bytes) × (o ≡ some next) × Leads (at_path next)
  check_target-Leads none h = absurd cc
  check_target-Leads (some next) h =
      (next, refl, resolve-Leads 41 next 1 (accepted (resolve live v 41 next 1) h))
    where
      accepted : (x : Verdict) → (elim x [ leads_in ↦ true | _ ↦ false ]) ≡ true → x ≡ leads_in
      accepted leads_in h = refl
      accepted leads_astray h = absurd cc
      accepted out_of_fuel h = absurd cc

  check_link-Leads :
      (dir : Bytes) (o : Op)
      → check_link live v dir o ≡ true
      → o.kind ≡ op_link
      → (next : Bytes) × (link_target (join_path dir o.rel) o.target ≡ some next)
        × Leads (at_path next)
  check_link-Leads dir o h k =
      check_target-Leads (link_target (join_path dir o.rel) o.target) (from o.kind k h)
    where
      t : Bool
      t = check_target live v (link_target (join_path dir o.rel) o.target)

      from : (x : OpKind) → x ≡ op_link → (elim x [ op_link ↦ t | _ ↦ true ]) ≡ true → t ≡ true
      from op_link e h = h
      from op_delete e h = absurd cc
      from op_dir e h = absurd cc
      from op_file e h = absurd cc

  -- When `checkLinks` accepts the operations of a run on a lib_dir, the target of each of its symlinks is a path
  -- that leads, through every further symlink on the way, to a name below a lib_dir or to one that root decides.
  pub check_links-Leads :
      (dir : Bytes) (ops : List Op) (i : ℕ) (o : Op)
      → check_links live v dir ops ≡ true
      → get_elem? ops i ≡ some o
      → o.kind ≡ op_link
      → (next : Bytes) × (link_target (join_path dir o.rel) o.target ≡ some next)
        × Leads (at_path next)
  unfolding check_links
  check_links-Leads dir [] i o h e k = absurd cc
  check_links-Leads dir (x ∷ ops) zero o h e k =
      check_link-Leads dir o (ap (check_link live v dir) (sym (same_op e)) ∙ both_left _ _ h) k
    where
      same_op : some x ≡ some o → x ≡ o
      same_op e = cc

      both_left : (a b : Bool) → (a && b) ≡ true → a ≡ true
      both_left a b h = ground arith
  check_links-Leads dir (x ∷ ops) (suc i) o h e k =
      check_links-Leads dir ops i o (both_right _ _ h) e k
    where
      both_right : (a b : Bool) → (a && b) ≡ true → b ≡ true
      both_right a b h = ground arith
