-- ===== src/Guard/Multicall.antt =====
-- internal/guard/multicall.go: the registry of applet tags, and the rows that tell the kernel which
-- applets a multicall binary has.
pub mod Tags
use app_listener.Base.{
  ℕ, suc, ◌+◌, ◌≡◌, refl, Bool, true, false, not, Option, none, some, List, [], ◌∷◌, ◌==◌, nat_eq,
  list_eq, if◌then◌else◌, leb, length, take, contains, Bytes,
}
use app_listener.Base.Assoc.{lookup, insert}
use app_listener.Base.State.{
  Error, kernel_fault, no_tag_left, unclassified, Result, ok, err, pure, throw, ◌>>=◌, ◌>>◌, when,
  each,
}
use app_listener.Guard.Keys.{InodeKey, inode_eq, mc_tag_none}
use app_listener.Guard.Kernel.{Kernel, multicall_row, mc_name_row}
use app_listener.Guard.Engine.{Engine, World, Act, put_row, delete_row, set_engine, on_engine}
use app_listener.Guard.Engine.Quiet.{
  Quiet, Quiet-then, Quiet-bind, Quiet-pure, Quiet-put_row, Quiet-delete_row, Quiet-on_engine,
}
use app_listener.Guard.Engine.Frame.{Quiet-if, Quiet-each_any, Quiet-bookkeeping, Quiet-throw}

-- `appletTag` on the registry: the tag, and the registry after it.
unfoldable pub applet_tag : Bytes → List (Bytes × ℕ) → Option (ℕ × List (Bytes × ℕ))
applet_tag name tags = elim (lookup name tags) [
  | some t ↦ some (t, tags)
  | none ↦
      (let t = length tags + 1 in if leb mc_tag_none t then none else some (t, insert name t tags))
]

-- `registerBuild`
abbrev pub register_build : InodeKey → List Bytes → Engine → Engine
register_build file applets e = record e { mc_builds = insert file applets e.mc_builds }

-- `mcNameKey`: a name is cut to 15 bytes, so that a NUL ends it.
abbrev pub mc_name_key : Bytes → Bytes
mc_name_key name = take 15 name

abbrev pub names_of : Option (List Bytes) → List Bytes
names_of none = []
names_of (some names) = names

-- `prev, done := e.mcNames[file]; done && slices.Equal(prev, applets)`
abbrev pub names_done : Option (List Bytes) → List Bytes → Bool
names_done none applets = false
names_done (some prev) applets = prev == applets

module _ (K : Kernel) where
  -- `appletTag` on the process's registry.
  abbrev pub keep_tag : Option (ℕ × List (Bytes × ℕ)) → Act K ℕ
  keep_tag none = throw no_tag_left
  keep_tag (some (t, tags)) = do set_engine K λ e. record e { mc_tags = tags }; pure t

  unfoldable pub take_tag : Bytes → Act K ℕ
  take_tag name = on_engine K λ e. keep_tag (applet_tag name e.mc_tags)

  abbrev pub write_name : InodeKey → Bytes → Act K (Unit {0})
  write_name file a = do tag ← take_tag a; put_row K (mc_name_row file (mc_name_key a)) tag

  abbrev pub drop_name : InodeKey → List Bytes → Bytes → Act K (Unit {0})
  drop_name file applets a =
      if contains applets a then pure tt else delete_row K (mc_name_row file (mc_name_key a))

  -- `syncMulticallNamesLocked`
  unfoldable pub sync_multicall_names : InodeKey → List Bytes → List Bytes → Act K (Unit {0})
  sync_multicall_names file prev applets = do
    each (write_name file) applets
    each (drop_name file applets) prev

  -- The rewrite of the names, unless they are already there.
  abbrev pub refresh_names : InodeKey → List Bytes → Option (List Bytes) → Act K (Unit {0})
  refresh_names file applets prev = if names_done prev applets then pure tt else (do
    sync_multicall_names file (names_of prev) applets
    set_engine K λ e. record e { mc_names = insert file applets e.mc_names })

  -- `ensureMulticall`
  abbrev pub ensure_build : InodeKey → Option (List Bytes) → Option (List Bytes) → Act K (Unit {0})
  ensure_build file prev none = throw unclassified
  ensure_build file prev (some applets) = do
    refresh_names file applets prev
    put_row K (multicall_row file) 1

  unfoldable pub ensure_multicall : InodeKey → Act K (Unit {0})
  ensure_multicall file =
      on_engine K λ e. ensure_build file (lookup file e.mc_names) (lookup file e.mc_builds)

module _ (K : Kernel) (r : ℕ) where
  Quiet-take_tag : (name : Bytes) → Quiet K r (take_tag K name)
  unfolding take_tag
  Quiet-take_tag name = Quiet-on_engine K r _ λ e own. go (applet_tag name e.mc_tags)
    where
      go : (o : Option (ℕ × List (Bytes × ℕ))) → Quiet K r (keep_tag K o)
      go none = Quiet-throw K r no_tag_left
      go (some (t, tags)) =
          Quiet-then K r _ _ (Quiet-bookkeeping K r _ (λ e. refl) (λ e. refl)) (Quiet-pure K r t)

  Quiet-sync_multicall_names :
      (file : InodeKey) (prev applets : List Bytes)
      → Quiet K r (sync_multicall_names K file prev applets)
  unfolding sync_multicall_names
  Quiet-sync_multicall_names file prev applets =
      Quiet-then K r _ _
        (Quiet-each_any K r _ applets
          λ a. Quiet-bind K r _ _ (Quiet-take_tag a) (λ tag. Quiet-put_row K r _ tag refl))
        (Quiet-each_any K r _ prev
          λ a. Quiet-if K r (contains applets a) _ (Quiet-delete_row K r _ refl))

  pub Quiet-ensure_multicall : (file : InodeKey) → Quiet K r (ensure_multicall K file)
  unfolding ensure_multicall
  Quiet-ensure_multicall file =
      Quiet-on_engine K r _ λ e own. go (lookup file e.mc_names) (lookup file e.mc_builds)
    where
      go : (prev o : Option (List Bytes)) → Quiet K r (ensure_build K file prev o)
      go prev none = Quiet-throw K r unclassified
      go prev (some applets) =
          Quiet-then K r _ _
            (Quiet-if K r (names_done prev applets) _ (
              Quiet-then K r _ _ (Quiet-sync_multicall_names file _ applets)
                (Quiet-bookkeeping K r _ (λ e. refl) (λ e. refl))))
            (Quiet-put_row K r _ 1 refl)
