-- ===== src/Pcl/Archived/Destroy.antt =====
-- archive/13-llvm/01-naive: the destructors of the first version, in Node.cc.
use mathlib.Core.Path.{ap₂}
use cpp_graduate.Base.{◌≡◌, refl, List, [], ◌++◌}
use cpp_graduate.Pcl.{
  INode, null, value, decl, scope, operand, while_loop, if_then, Branches, no_branch, branch,
}
use cpp_graduate.Pcl.Destroy.{delete, delete_other, destroy, delete_branches}

-- `Op::~Op`, `While::~While` and `If::~If`, by what the nodes below delete
abbrev pub op_destroy : INode → List INode → INode → List INode → List INode
op_destroy left l right r = delete_other left l ++ delete_other right r

abbrev pub while_destroy : INode → List INode → INode → List INode → List INode
while_destroy op l body r = delete_other op l ++ delete body r

abbrev pub if_destroy : INode → List INode → INode → List INode → List INode
if_destroy op l body r = delete_other op l ++ delete body r

unfoldable mutual
  pub node_destroy : INode → List INode
  node_destroy null = []
  node_destroy (value v) = []
  node_destroy (decl d) = []
  node_destroy (scope bs) = scope_destroy bs
  node_destroy (operand l op r) = op_destroy l (node_destroy l) r (node_destroy r)
  node_destroy (while_loop c body) = while_destroy c (node_destroy c) body (node_destroy body)
  node_destroy (if_then c body) = if_destroy c (node_destroy c) body (node_destroy body)

  pub scope_destroy : Branches → List INode
  scope_destroy no_branch = []
  scope_destroy (branch x rest) = delete x (node_destroy x) ++ scope_destroy rest

mutual
  unfolding node_destroy scope_destroy destroy delete_branches

  node_Destroyed : (n : INode) → node_destroy n ≡ destroy n
  node_Destroyed null = refl
  node_Destroyed (value v) = refl
  node_Destroyed (decl d) = refl
  node_Destroyed (scope bs) = branches_Destroyed bs
  node_Destroyed (operand l op r) =
      ap₂ (λ a b. delete_other l a ++ delete_other r b) (node_Destroyed l) (node_Destroyed r)
  node_Destroyed (while_loop c body) =
      ap₂ (λ a b. delete_other c a ++ delete body b) (node_Destroyed c) (node_Destroyed body)
  node_Destroyed (if_then c body) =
      ap₂ (λ a b. delete_other c a ++ delete body b) (node_Destroyed c) (node_Destroyed body)

  branches_Destroyed : (bs : Branches) → scope_destroy bs ≡ delete_branches bs
  branches_Destroyed no_branch = refl
  branches_Destroyed (branch n rest) =
      ap₂ (λ a b. delete n a ++ b) (node_Destroyed n) (branches_Destroyed rest)

-- The first version deletes what the later one deletes.
node_destroy-destroy : (n : INode) → node_destroy n ≡ destroy n
node_destroy-destroy n = node_Destroyed n
