-- ===== src/Pcl/Destroy.antt =====
-- 15-llvm/naive-pcl: the destructors of the nodes in Node.hpp and Node.cc, as the nodes whose memory a
-- `delete` gives back, in order. The declarations of a scope are deleted by its table of names.
use mathlib.Core.Path.{ap₂}
use cpp_graduate.Base.{
  and_left, and_right, ◌≡◌, refl, ap, sym, ◌∙◌, List, [], ◌∷◌, ◌++◌, Bool, true, false, ◌&&◌,
}
use cpp_graduate.Pcl.{
  INode, null, value, decl, scope, operand, while_loop, if_then, Branches, no_branch, branch,
}

-- `delete` of a node, after what its destructor deletes
abbrev pub delete : INode → List INode → List INode
delete null l = []
delete n l = l ++ n ∷ []

-- `if (n && typeid(Decl) != typeid(*n)) delete n`
abbrev pub delete_other : INode → List INode → List INode
delete_other (decl d) l = []
delete_other n l = delete n l

-- `While::~While` and `If::~If`, by what the nodes below delete
abbrev pub destroy_while : INode → List INode → INode → List INode → List INode
destroy_while op l body r = delete_other op l ++ delete body r

abbrev pub destroy_if : INode → List INode → INode → List INode → List INode
destroy_if op l body r = delete_other op l ++ delete body r

unfoldable mutual
  pub destroy : INode → List INode
  destroy null = []
  destroy (value v) = []
  destroy (decl d) = []
  destroy (scope bs) = delete_branches bs
  destroy (operand l op r) = delete_other l (destroy l) ++ delete_other r (destroy r)
  destroy (while_loop c body) = destroy_while c (destroy c) body (destroy body)
  destroy (if_then c body) = destroy_if c (destroy c) body (destroy body)

  pub delete_branches : Branches → List INode
  delete_branches no_branch = []
  delete_branches (branch n rest) = delete n (destroy n) ++ delete_branches rest

-- All nodes of a program, each behind those below it.
unfoldable mutual
  pub postorder : INode → List INode
  postorder null = []
  postorder (value v) = value v ∷ []
  postorder (decl d) = decl d ∷ []
  postorder (scope bs) = postorders bs ++ scope bs ∷ []
  postorder (operand l op r) = (postorder l ++ postorder r) ++ operand l op r ∷ []
  postorder (while_loop c body) = (postorder c ++ postorder body) ++ while_loop c body ∷ []
  postorder (if_then c body) = (postorder c ++ postorder body) ++ if_then c body ∷ []

  pub postorders : Branches → List INode
  postorders no_branch = []
  postorders (branch n rest) = postorder n ++ postorders rest

abbrev pub without_decls : List INode → List INode
without_decls [] = []
without_decls (decl d ∷ ns) = without_decls ns
without_decls (n ∷ ns) = n ∷ without_decls ns

abbrev is_other : INode → Bool
is_other (decl d) = false
is_other n = true

-- No statement is a bare variable.
unfoldable mutual
  pub is_tidy : INode → Bool
  is_tidy (scope bs) = are_tidy bs
  is_tidy (operand l op r) = is_tidy l && is_tidy r
  is_tidy (while_loop c body) = is_tidy c && (is_other body && is_tidy body)
  is_tidy (if_then c body) = is_tidy c && (is_other body && is_tidy body)
  is_tidy n = true

  pub are_tidy : Branches → Bool
  are_tidy no_branch = true
  are_tidy (branch n rest) = (is_other n && is_tidy n) && are_tidy rest

without_decls-append :
    (ns ms : List INode) → without_decls (ns ++ ms) ≡ without_decls ns ++ without_decls ms
without_decls-append [] ms = refl
without_decls-append (decl d ∷ ns) ms = without_decls-append ns ms
without_decls-append (n ∷ ns) ms = ap (◌∷◌ n) (without_decls-append ns ms)

delete-delete_other :
    (n : INode) (l : List INode) → is_other n ≡ true → delete n l ≡ delete_other n l
delete-delete_other (decl d) l e = absurd cc
delete-delete_other n l e = refl

-- Two lists of deleted nodes, and the node above them.
deleted_above :
    (xs ys ns ms : List INode) (n : INode)
    → xs ≡ without_decls ns
    → ys ≡ without_decls ms
    → n ∷ [] ≡ without_decls (n ∷ [])
    → (xs ++ ys) ++ n ∷ [] ≡ without_decls ((ns ++ ms) ++ n ∷ [])
deleted_above xs ys ns ms n h k o =
    ap₂ (λ a b. a ++ b) (ap₂ (λ a b. a ++ b) h k ∙ sym (without_decls-append ns ms)) o
    ∙ sym (without_decls-append (ns ++ ms) (n ∷ []))

deleted_body :
    (n : INode)
    → (is_other n && is_tidy n) ≡ true
    → delete_other n (destroy n) ≡ without_decls (postorder n)
    → delete n (destroy n) ≡ without_decls (postorder n)
deleted_body n e h = delete-delete_other n (destroy n) (and_left _ _ e) ∙ h

mutual
  unfolding destroy delete_branches postorder postorders is_tidy are_tidy

  deleted :
      (n : INode) → is_tidy n ≡ true → delete_other n (destroy n) ≡ without_decls (postorder n)
  deleted null e = refl
  deleted (value v) e = refl
  deleted (decl d) e = refl
  deleted (scope bs) e =
      ap (λ l. l ++ scope bs ∷ []) (deleted_branches bs e)
      ∙ sym (without_decls-append (postorders bs) (scope bs ∷ []))
  deleted (operand l op r) e =
      deleted_above _ _ (postorder l) (postorder r) _ (deleted l (and_left _ _ e))
        (deleted r (and_right (is_tidy l) _ e)) refl
  deleted (while_loop c body) e =
      deleted_above _ _ (postorder c) (postorder body) _ (deleted c (and_left _ _ e))
        (deleted_body body (and_right (is_tidy c) _ e)
          (deleted body (and_right (is_other body) _ (and_right (is_tidy c) _ e))))
        refl
  deleted (if_then c body) e =
      deleted_above _ _ (postorder c) (postorder body) _ (deleted c (and_left _ _ e))
        (deleted_body body (and_right (is_tidy c) _ e)
          (deleted body (and_right (is_other body) _ (and_right (is_tidy c) _ e))))
        refl

  deleted_branches :
      (bs : Branches) → are_tidy bs ≡ true → delete_branches bs ≡ without_decls (postorders bs)
  deleted_branches no_branch e = refl
  deleted_branches (branch n rest) e =
      ap₂ (λ a b. a ++ b)
        (deleted_body n (and_left _ _ e) (deleted n (and_right (is_other n) _ (and_left _ _ e))))
        (deleted_branches rest (and_right (is_other n && is_tidy n) _ e))
      ∙ sym (without_decls-append (postorder n) (postorders rest))
