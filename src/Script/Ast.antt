-- ===== src/Script/Ast.antt =====
-- script/ast.rs: programs as arenas of combinator nodes.
use exfer.Common.{
  ℕ, suc, ◌-◌, max, Bool, true, false, ◌&&◌, ◌==◌, leb, if◌then◌else◌, Option, none, some, List, [],
  ◌∷◌, length, get_elem?, get_or, set, replicate, Result, ok, ◌>>◌, reject,
}
use exfer.Types.Hash.{Hash256}
use exfer.Script.Value.Defs.{Value}
use exfer.Script.Jets.{JetId}

abbrev pub NodeId : Type 0
NodeId = ℕ

pub data Combinator : Type 0 where
  iden : Combinator
  comp : NodeId → NodeId → Combinator
  unit : Combinator
  pair : NodeId → NodeId → Combinator
  take : NodeId → Combinator
  drop : NodeId → Combinator
  inj_l : NodeId → Combinator
  inj_r : NodeId → Combinator
  case : NodeId → NodeId → Combinator
  fold : NodeId → NodeId → ℕ → Combinator
  list_fold : NodeId → NodeId → Combinator
  jet : JetId → Combinator
  witness : Combinator
  merkle_hidden : Hash256 → Combinator
  const : Value → Combinator

pub record Program : Type 0 where
  pub nodes : List Combinator
  pub root : NodeId

abbrev pub single : Combinator → Program
single comb = record { nodes = comb ∷ []; root = 0 }

abbrev pub node_count : Program → ℕ
node_count p = length p.nodes

abbrev pub get : Program → NodeId → Option Combinator
get p id = get_elem? p.nodes id

abbrev pub children_of : Combinator → List NodeId
children_of (take f) = f ∷ []
children_of (drop f) = f ∷ []
children_of (inj_l f) = f ∷ []
children_of (inj_r f) = f ∷ []
children_of (comp f g) = f ∷ g ∷ []
children_of (pair f g) = f ∷ g ∷ []
children_of (case f g) = f ∷ g ∷ []
children_of (list_fold f g) = f ∷ g ∷ []
children_of (fold f z k) = f ∷ z ∷ []
children_of _ = []

pub data StructureError : Type 0 where
  empty_program : StructureError
  root_out_of_bounds : StructureError
  child_out_of_bounds : StructureError
  child_not_greater : StructureError
  unreachable_nodes : StructureError

-- The first pass: every child is in range and stands behind its parent.
unfoldable pub check_children : ℕ → ℕ → List NodeId → Result (Unit {0}) StructureError
check_children n i [] = ok tt
check_children n i (child ∷ rest) = do
  reject (leb n child) child_out_of_bounds
  reject (leb child i) child_not_greater
  check_children n i rest

unfoldable pub check_nodes : ℕ → ℕ → List Combinator → Result (Unit {0}) StructureError
check_nodes n i [] = ok tt
check_nodes n i (node ∷ rest) = do check_children n i (children_of node); check_nodes n (suc i) rest

-- The second pass marks what is reached from the root, in one scan.
unfoldable pub mark : List NodeId → List Bool → List Bool
mark [] reachable = reachable
mark (child ∷ rest) reachable = mark rest (set reachable child true)

unfoldable pub scan : List Combinator → ℕ → List Bool → List Bool
scan [] i reachable = reachable
scan (node ∷ rest) i reachable =
    scan rest (suc i)
      (if get_or reachable i false then mark (children_of node) reachable else reachable)

unfoldable pub all_reachable : List Bool → Bool
all_reachable [] = true
all_reachable (r ∷ rest) = r && all_reachable rest

unfoldable pub validate_structure : Program → Result (Unit {0}) StructureError
validate_structure p = do
  reject (length p.nodes == 0) empty_program
  reject (leb (length p.nodes) p.root) root_out_of_bounds
  check_nodes (length p.nodes) 0 p.nodes
  reject
      (if all_reachable (scan p.nodes 0 (set (replicate (length p.nodes) false) p.root true))
        then false
        else true)
      unreachable_nodes
  ok tt

-- A vector that is filled from its end: the entry of `child`, when `later` holds those behind i.
-- What the vector holds at i and before is `none`, and so is, here, an entry beyond its end.
unfoldable pub behind {ℓ} : {A : Type ℓ} → ℕ → List A → NodeId → Option A
behind i later child = if leb child i then none else get_elem? later (child - suc i)

abbrev pub depth_or_zero : Option ℕ → ℕ
depth_or_zero none = 0
depth_or_zero (some d) = d

unfoldable pub max_child : (NodeId → Option ℕ) → List NodeId → ℕ
max_child depth [] = 0
max_child depth (child ∷ rest) = max (depth_or_zero (depth child)) (max_child depth rest)

-- The loop `for i in (0..n).rev()` of `max_depth`, from node i on.
unfoldable pub depths : ℕ → List Combinator → List ℕ
depths i [] = []
depths i (node ∷ rest) =
    let later = depths (suc i) rest in suc (max_child (behind i later) (children_of node)) ∷ later

unfoldable pub max_depth : Program → ℕ
max_depth p = depth_or_zero (get_elem? (depths 0 p.nodes) p.root)
