-- ===== src/Mibdb/OidBranch/Tests.antt =====
-- Runs of oidbranch.go, and its theorems at a small tree.
use net_mapper.Prelude.{ℕ, ◌≡◌, refl, [], ◌∷◌, some, none, if◌then◌else◌, str_eq}
use net_mapper.Go.Oid.{Oid}
use net_mapper.Mibdb.OidBranch.{
  Branch, branch, nil, child, def, new_branch, get_child, set_child, child_or_new, add_definition,
  find_oid, prefer_below, def_at,
}
use net_mapper.Mibdb.OidBranch.Define.{def_at-add_definition}
use net_mapper.Mibdb.OidBranch.Find.{
  IsLongestMatch, find_oid-IsLongestMatch, find_oid-add_definition,
}

-- mib-2 (1.3.6.1.2.1), where only the object 7 and the object 9 below it by two are defined.
abbrev mib2 : Branch ℕ
mib2 =
    branch none (
      child 1 (branch (some 7) (child 3 (branch none (child 6 (branch (some 9) nil) nil)) nil)) nil)

abbrev instance_oid : Oid
instance_oid = 1 ∷ 3 ∷ 6 ∷ 0 ∷ []

abbrev column_oid : Oid
column_oid = 1 ∷ 3 ∷ 5 ∷ []

find_instance : find_oid mib2 instance_oid ≡ (branch (some 9) nil, 0 ∷ [])
unfolding find_oid prefer_below get_child
find_instance = refl

built_in_steps :
    add_definition (add_definition new_branch (1 ∷ []) (some 7)) (1 ∷ 3 ∷ 6 ∷ []) (some 9) ≡ mib2
unfolding add_definition set_child child_or_new get_child
built_in_steps = refl

def_at-add_definition_run :
    def_at (add_definition mib2 column_oid (some 4)) instance_oid
    ≡ (if str_eq column_oid instance_oid then some 4 else def_at mib2 instance_oid)
def_at-add_definition_run = def_at-add_definition mib2 column_oid instance_oid (some 4)

find_oid-IsLongestMatch_example :
    IsLongestMatch mib2 instance_oid (find_oid mib2 instance_oid).0 (find_oid mib2 instance_oid).1
find_oid-IsLongestMatch_example = find_oid-IsLongestMatch mib2 instance_oid

find_oid-add_definition_run :
    (def (find_oid (add_definition mib2 column_oid (some 4)) column_oid).0 ≡ some 4)
    × ((find_oid (add_definition mib2 column_oid (some 4)) column_oid).1 ≡ [])
find_oid-add_definition_run = find_oid-add_definition mib2 column_oid 4
