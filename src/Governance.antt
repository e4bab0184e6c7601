-- ===== src/Governance.antt =====
-- internal/governance/lineage.go: the parents and the children of claims. The mutex makes each method one step.
pub mod Family
use agenova.Prelude.{
  String, Bool, true, false, not, ◌&&◌, List, [], ◌∷◌, ◌++◌, Option, none, some, ◌==◌, ◌!=◌,
  string_eq, contains, Map, update, empty_map, get_or, if◌then◌else◌,
}

pub record Lineage : Type 0 where
  pub parents : Map String String
  pub children : Map String (List String)

-- The errors of RegisterChild.
pub data LineageError : Type 0 where
  parent_required : LineageError
  child_required : LineageError
  own_parent : LineageError
  registered_under : (child existing : String) → LineageError

unfoldable pub new_lineage : Lineage
new_lineage = record { parents = empty_map; children = empty_map }

abbrev pub children_of : Lineage → String → List String
children_of l parent_claim_id = get_or [] (l.children parent_claim_id)

-- The end of RegisterChild, once the child may have this parent.
abbrev pub registered : Lineage → String → String → Lineage
registered l parent_claim_id child_claim_id =
    let parents = update l.parents child_claim_id parent_claim_id in
    let siblings = children_of l parent_claim_id in
    if contains siblings child_claim_id then record l { parents = parents } else record {
      parents = parents;
      children = update l.children parent_claim_id (siblings ++ child_claim_id ∷ []);
    }

abbrev pub register_under :
    Lineage → String → String → Option String → Lineage × Option LineageError
register_under l parent_claim_id child_claim_id none =
    (registered l parent_claim_id child_claim_id, none)
register_under l parent_claim_id child_claim_id (some existing) =
    if existing != parent_claim_id
    then (l, some (registered_under child_claim_id existing))
    else (registered l parent_claim_id child_claim_id, none)

unfoldable pub register_child : Lineage → String → String → Lineage × Option LineageError
register_child l parent_claim_id child_claim_id =
    if parent_claim_id == ""
    then (l, some parent_required)
    else if child_claim_id == ""
    then (l, some child_required)
    else if parent_claim_id == child_claim_id
    then (l, some own_parent)
    else register_under l parent_claim_id child_claim_id (l.parents child_claim_id)

unfoldable pub parent : Lineage → String → Option String
parent l child_claim_id = l.parents child_claim_id

-- A nil slice is the empty one.
unfoldable pub children : Lineage → String → List String
children l parent_claim_id = children_of l parent_claim_id

unfoldable pub is_child_of : Lineage → String → String → Bool
is_child_of l parent_claim_id child_claim_id =
    get_or "" (l.parents child_claim_id) == parent_claim_id
