-- ===== src/Pcl.antt =====
-- 15-llvm/naive-pcl: the interpreter of ParaCL, `calc` of the nodes in Node.hpp and Node.cc. A pointer to
-- a node is the node, `null` is nullptr, and a `Decl`, which is the one node that is shared and changed,
-- is its identity with its value in the state. The recursion of `calc` takes fuel.
pub mod Fuel
pub mod Loops
pub mod Eval
pub mod Order
pub mod Scopes
pub mod Llvm
pub mod Codegen
pub mod Dump
pub mod Destroy
pub mod Archived
pub mod Tests
use cpp_graduate.Base.{
  ℕ, zero, suc, ◌+◌, List, [], ◌∷◌, ◌++◌, Bool, true, false, Option, none, some, ◌==◌,
  if◌then◌else◌,
}
use cpp_graduate.Base.Int.{ℤ, pos, negsuc, ◌+ℤ◌, ◌-ℤ◌, ◌*ℤ◌, div_ℤ, mod_ℤ, ltb_ℤ, eqb_ℤ, in_int32}

-- `Operation` of INode.hpp.
pub data Operation : Type 0 where
  plus minus assign greater less greater_eq less_eq std_out std_in equal not_equal : Operation
  div mul modulo negation conjunction disjunction : Operation

mutual
  pub data INode : Type 0 where
    null : INode
    value : ℤ → INode
    decl : ℕ → INode
    scope : Branches → INode
    operand : INode → Operation → INode → INode
    while_loop : INode → INode → INode
    if_then : INode → INode → INode

  -- `std::vector<INode *> Branches_`
  pub data Branches : Type 0 where
    no_branch : Branches
    branch : INode → Branches → Branches

-- The values of the declarations, `none` before the first `SetValue`; the integers that `std::cin` still
-- holds; what was printed, in order.
pub record State : Type 0 where
  pub vals : ℕ → Option ℤ
  pub input : List ℤ
  pub output : List ℤ

-- `thrown` is the exception of a division by zero; `undefined` is what C++ leaves undefined: a null
-- or uninitialized read, a signed overflow, a remainder by zero.
pub data Result : Type 0 where
  ok : ℤ → State → Result
  thrown : State → Result
  undefined out_of_fuel : Result

abbrev pub M : Type 0
M = State → Result

infixl 5 ◌>>=◌
abbrev pub ◌>>=◌ : M → (ℤ → M) → M
◌>>=◌ m f s = elim (m s) [
  | ok v s' ↦ f v s'
  | thrown s' ↦ thrown s'
  | undefined ↦ undefined
  | out_of_fuel ↦ out_of_fuel
]

abbrev pub pure : ℤ → M
pure v s = ok v s

abbrev pub fault : M
fault s = undefined

-- The value of an `int` expression.
unfoldable pub int : ℤ → M
int v = if in_int32 v then pure v else fault

-- A `bool` as an `int`.
abbrev pub from_bool : Bool → ℤ
from_bool b = if b then pos 1 else pos 0

-- The test of an `int` as a condition.
abbrev pub truthy : ℤ → Bool
truthy v = if eqb_ℤ v (pos 0) then false else true

-- `Decl::calc`
unfoldable pub read_decl : ℕ → M
read_decl d s = elim (s.vals d) [ none ↦ undefined | some v ↦ ok v s ]

-- `Decl::SetValue`
unfoldable pub set_value : ℕ → ℤ → M
set_value d v s = ok v (record s { vals = λ e. if d == e then some v else s.vals e })

-- `std::cout << v << std::endl`; the case ends with `return Val`, which is 0.
unfoldable pub print : ℤ → M
print v s = ok (pos 0) (record s { output = s.output ++ v ∷ [] })

-- The number that `std::cin >> Val` stores: that of the input, or the limit of `int` that it passes.
unfoldable pub nearest_int : ℤ → ℤ
nearest_int v =
    if in_int32 v then v else (if ltb_ℤ v (pos 0) then negsuc 2147483647 else pos 2147483647)

-- `std::cin >> Val`, with 0 in `Val` before. A number out of range leaves a failed stream, and a stream that
-- has failed or is at its end gives nothing any more, so that `Val` stays 0.
unfoldable pub scan : M
unfolding nearest_int
scan s = elim s.input [
  | [] ↦ ok (pos 0) s
  | v ∷ rest ↦ ok (nearest_int v) (record s { input = if in_int32 v then rest else [] })
]

-- `If::calc`, by the `calc` of the condition and of the body
abbrev pub calc_if : M → M → M
calc_if cond body = cond >>= λ v. if truthy v then (body >>= λ _. pure (pos 0)) else pure (pos 0)

-- The two operands of a built-in operator, whose order C++ leaves to the compiler.
module _ (left_first : Bool) where
  abbrev pub both : M → M → (ℤ → ℤ → M) → M
  both l r f = if left_first then (l >>= λ a. r >>= λ b. f a b) else (r >>= λ b. l >>= λ a. f a b)

  -- The cases of `Operand::calc` with both operands; `calc` of a node is the first argument.
  unfoldable pub operate : (INode → M) → INode → Operation → INode → M
  unfolding int print scan set_value ◌+ℤ◌ ◌-ℤ◌ ◌*ℤ◌ div_ℤ mod_ℤ
  operate calc null plus r = calc r
  operate calc l plus r = both (calc l) (calc r) (λ a b. int (a +ℤ b))
  operate calc null minus r = calc r >>= λ b. int (pos 0 -ℤ b)
  operate calc l minus r = both (calc l) (calc r) (λ a b. int (a -ℤ b))
  operate calc l greater r = both (calc l) (calc r) (λ a b. pure (from_bool (ltb_ℤ b a)))
  operate calc l less r = both (calc l) (calc r) (λ a b. pure (from_bool (ltb_ℤ a b)))
  operate calc l greater_eq r =
      both (calc l) (calc r) (λ a b. pure (if ltb_ℤ a b then pos 0 else pos 1))
  operate calc l less_eq r =
      both (calc l) (calc r) (λ a b. pure (if ltb_ℤ b a then pos 0 else pos 1))
  operate calc (decl d) assign r = calc r >>= λ v. set_value d v
  operate calc l assign r = calc r >>= λ v. fault
  operate calc l std_out r = calc r >>= λ v. print v
  operate calc l std_in r = scan
  operate calc l equal r = both (calc l) (calc r) (λ a b. pure (from_bool (eqb_ℤ a b)))
  operate calc l not_equal r =
      both (calc l) (calc r) (λ a b. pure (if eqb_ℤ a b then pos 0 else pos 1))
  operate calc l negation r = calc r >>= λ b. pure (if truthy b then pos 0 else pos 1)
  operate calc l conjunction r = calc l >>= λ a.
      if truthy a then (calc r >>= λ b. pure (from_bool (truthy b))) else pure (pos 0)
  operate calc l disjunction r = calc l >>= λ a.
      if truthy a then pure (pos 1) else (calc r >>= λ b. pure (from_bool (truthy b)))
  operate calc l div r = calc r >>= λ v.
      if truthy v
      then both (calc l) (calc r) (λ a b. if truthy b then int (div_ℤ a b) else fault)
      else thrown
  operate calc l mul r = both (calc l) (calc r) (λ a b. int (a *ℤ b))
  operate calc l modulo r =
      both (calc l) (calc r)
        (λ a b. if truthy b then (int (div_ℤ a b) >>= λ _. pure (mod_ℤ a b)) else fault)

  -- The loop of `Scope::calc`.
  unfoldable pub calc_branches : (INode → M) → Branches → M
  calc_branches calc no_branch = pure (pos 0)
  calc_branches calc (branch n rest) = calc n >>= λ _. calc_branches calc rest

  -- `calc` of a node, by the `calc` of the nodes that it calls. A round of `While::calc` ends by
  -- another `calc` of the loop.
  unfoldable pub calc_node : (INode → M) → INode → M
  unfolding operate calc_branches read_decl
  calc_node calc null = fault
  calc_node calc (value v) = pure v
  calc_node calc (decl d) = read_decl d
  calc_node calc (scope bs) = calc_branches calc bs
  calc_node calc (operand l op r) = operate calc l op r
  calc_node calc (while_loop c body) = calc c >>= λ v.
      if truthy v then (calc body >>= λ _. calc (while_loop c body)) else pure (pos 0)
  calc_node calc (if_then c body) = calc_if (calc c) (calc body)

  unfoldable pub calc : ℕ → INode → M
  unfolding calc_node
  calc zero n = λ s. out_of_fuel
  calc (suc fuel) n = calc_node (calc fuel) n
