-- ===== src/Samples/Upkeep.antt =====
-- Concrete runs of the maintainer's check of symlinks.
use app_listener.Base.{◌≡◌, refl, true, false, some, List, [], ◌∷◌, Bytes, codes, arith}
use app_listener.Base.Strings.{split}
use app_listener.DaemonConfig.Text.{clean}
use app_listener.Maintainer.{op_link, op_file, Op}
use app_listener.Maintainer.Links.{
  entry_missing, LiveTree, LinkView, new_link_view, link_target, join_path, kind, resolve,
  check_links,
}
use app_listener.Maintainer.Links.Hops.{
  Leads, at_path, is_decided, resolve-decided, check_links-Leads,
}

abbrev empty_tree : LiveTree
empty_tree = record { entry_at = λ p. some entry_missing; root_placed = λ p. false }

abbrev new_link : Op
new_link = record {
  kind = op_link;
  rel = codes "bin/run";
  opaque = false;
  target = codes "../app-2/run";
}

abbrev new_file : Op
new_file = record { kind = op_file; rel = codes "app-2/run"; opaque = false; target = [] }

abbrev run_ops : List Op
run_ops = new_file ∷ new_link ∷ []

abbrev run_view : LinkView
run_view =
    new_link_view (codes "/opt/app" ∷ []) (record { dir = codes "/opt/app"; ops = run_ops } ∷ [])

run_accepted : check_links empty_tree run_view (codes "/opt/app") run_ops ≡ true
unfolding check_links link_target kind clean split
run_accepted = refl

resolve-decided_example :
    is_decided (resolve empty_tree run_view 41 (codes "/opt/app/bin/run") 1) ≡ true
resolve-decided_example =
    resolve-decided empty_tree run_view 41 (codes "/opt/app/bin/run") 1 (omega arith) (omega arith)

check_links-Leads_example :
    (next : Bytes) × (link_target (join_path (codes "/opt/app") new_link.rel) new_link.target
      ≡ some next)
    × Leads empty_tree run_view (at_path next)
check_links-Leads_example =
    check_links-Leads empty_tree run_view (codes "/opt/app") run_ops 1 new_link run_accepted refl
      refl
