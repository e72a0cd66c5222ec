-- ===== src/Pcl/Codegen/Documented.antt =====
-- What the code generator (15-llvm/naive-pcl) relies on in LLVM, as its documentation states it: the type
-- of each value, the requirements of each call, the blocks that have no terminator yet.
use Prim.Native.String.{String}
use mathlib.Core.List.{Perm}
use cpp_graduate.Base.{
  ◌≡◌, ◌≢◌, ◌⊎◌, List, [], ◌∷◌, map, Bool, true, false, Option, none, some, if◌then◌else◌,
}
use cpp_graduate.Base.Int.{ℤ}
use cpp_graduate.Pcl.Llvm.{
  Llvm, Method, create_add, create_sub, create_mul, create_sdiv, create_srem, create_and, create_or,
}

-- The methods that compare.
abbrev pub is_icmp : Method → Bool
is_icmp create_add = false
is_icmp create_sub = false
is_icmp create_mul = false
is_icmp create_sdiv = false
is_icmp create_srem = false
is_icmp create_and = false
is_icmp create_or = false
is_icmp m = true

-- What is observed of a module: `IsValid` says that no call has broken a requirement of LLVM.
pub record Observed (llvm : Llvm) : Type 1 where
  pub int1_ty : llvm.Ty
  pub type_of : llvm.Value → llvm.Ty
  pub signature : llvm.Function → llvm.Ty × List llvm.Ty
  pub parent : llvm.Block → llvm.Function
  pub insert_block : llvm.Ir → Option llvm.Block
  pub open_blocks : llvm.Ir → List llvm.Block
  pub has_body : llvm.Function → llvm.Ir → Type 0
  pub IsValid : llvm.Ir → Type 0

module _ (llvm : Llvm) (seen : Observed llvm) where
  open llvm use {
    Ir, Ty, Value, Block, Function, new_module, int32_ty, void_ty, const_int, create_function,
    get_function, entry_block, create_block, set_insert_point, create_alloca, allocated_type,
    create_load, create_store, create_binary, create_not, create_call, create_cond_br, create_br,
    create_ret_void,
  }
  open seen use {int1_ty, type_of, signature, parent, insert_block, open_blocks, has_body, IsValid}

  -- A valid module whose builder stands in the block `b` of `f`, at its end; `b` and `rest` are the
  -- blocks without a terminator, in some order.
  pub record Opens (f : Function) (ir : Ir) (b : Block) (rest : List Block) : Type 0 where
    pub valid : IsValid ir
    pub within : parent b ≡ f
    pub position : insert_block ir ≡ some b
    pub unfinished : Perm (open_blocks ir) (b ∷ rest)

  -- The same after the terminator of `b`.
  pub record Closes (ir : Ir) (rest : List Block) : Type 0 where
    pub valid : IsValid ir
    pub unfinished : Perm (open_blocks ir) rest

  abbrev pub SameFunctions : Ir → Ir → Type 0
  SameFunctions ir ir' = (x : String) → get_function x ir' ≡ get_function x ir

  -- An instruction that is no terminator, and whose requirements are met.
  pub record IsInstruction (ir ir' : Ir) : Type 0 where
    pub keeps :
        (f : Function) (b : Block) (rest : List Block) → Opens f ir b rest → Opens f ir' b rest
    pub functions : SameFunctions ir ir'
    pub bodies : (f : Function) → has_body f ir → has_body f ir'

  -- A terminator of the block that the builder stands in.
  pub record IsTerminator (f : Function) (ir ir' : Ir) : Type 0 where
    pub ends : (b : Block) (rest : List Block) → Opens f ir b rest → Closes ir' rest
    pub functions : SameFunctions ir ir'

  abbrev pub IsInteger : Ty → Type 0
  IsInteger t = (t ≡ int1_ty) ⊎ (t ≡ int32_ty)

  pub record Documented : Type 0 where
    pub new_valid : (x : String) → IsValid (new_module x)
    pub new_blocks : (x : String) → open_blocks (new_module x) ≡ []
    pub new_functions : (x y : String) → get_function y (new_module x) ≡ none
    pub const_type : (t : Ty) (v : ℤ) → type_of (const_int t v) ≡ t
    -- A function with an unused name.
    pub function_named :
        (t : Ty) (ts : List Ty) (x : String) (ir : Ir)
        → get_function x ir ≡ none
        → get_function x (create_function t ts x ir).1 ≡ some (create_function t ts x ir).0
    pub function_signature :
        (t : Ty) (ts : List Ty) (x : String) (ir : Ir)
        → signature (create_function t ts x ir).0 ≡ (t, ts)
    pub function_others :
        (t : Ty) (ts : List Ty) (x y : String) (ir : Ir)
        → x ≢ y
        → get_function y (create_function t ts x ir).1 ≡ get_function y ir
    pub function_valid :
        (t : Ty) (ts : List Ty) (x : String) (ir : Ir)
        → IsValid ir
        → IsValid (create_function t ts x ir).1
    pub function_blocks :
        (t : Ty) (ts : List Ty) (x : String) (ir : Ir)
        → open_blocks (create_function t ts x ir).1 ≡ open_blocks ir
    -- A block is new, belongs to its function and has no terminator.
    pub block_parent : (x : String) (f : Function) (ir : Ir) → parent (create_block x f ir).0 ≡ f
    pub block_body : (x : String) (f : Function) (ir : Ir) → has_body f (create_block x f ir).1
    pub block_blocks :
        (x : String) (f : Function) (ir : Ir)
        → Perm (open_blocks (create_block x f ir).1) ((create_block x f ir).0 ∷ open_blocks ir)
    pub block_at :
        (x : String) (f : Function) (ir : Ir)
        → insert_block (create_block x f ir).1 ≡ insert_block ir
    pub block_valid :
        (x : String) (f : Function) (ir : Ir) → IsValid ir → IsValid (create_block x f ir).1
    pub block_functions :
        (x : String) (f : Function) (ir : Ir) → SameFunctions ir (create_block x f ir).1
    pub insert_at : (b : Block) (ir : Ir) → insert_block (set_insert_point b ir) ≡ some b
    pub insert_blocks : (b : Block) (ir : Ir) → open_blocks (set_insert_point b ir) ≡ open_blocks ir
    pub insert_valid : (b : Block) (ir : Ir) → IsValid ir → IsValid (set_insert_point b ir)
    pub insert_functions : (b : Block) (ir : Ir) → SameFunctions ir (set_insert_point b ir)
    pub insert_body :
        (b : Block) (ir : Ir) (f : Function) → has_body f ir → has_body f (set_insert_point b ir)
    -- The instructions; an entry block needs a function with a body.
    pub alloca_instruction :
        (f : Function) (t : Ty) (x : String) (ir : Ir)
        → has_body f ir
        → IsInstruction ir (create_alloca (entry_block f ir) t x ir).1
    pub alloca_type :
        (b : Block) (t : Ty) (x : String) (ir : Ir) → allocated_type (create_alloca b t x ir).0 ≡ t
    pub load_instruction :
        (p : Value) (x : String) (ir : Ir)
        → IsInstruction ir (create_load (allocated_type p) p x ir).1
    pub load_type :
        (t : Ty) (p : Value) (x : String) (ir : Ir) → type_of (create_load t p x ir).0 ≡ t
    pub store_instruction :
        (v p : Value) (ir : Ir)
        → type_of v ≡ allocated_type p
        → IsInstruction ir (create_store v p ir).1
    pub binary_instruction :
        (m : Method) (a b : Value) (ir : Ir)
        → IsInteger (type_of a)
        → type_of b ≡ type_of a
        → IsInstruction ir (create_binary m a b ir).1
    pub binary_type :
        (m : Method) (a b : Value) (ir : Ir)
        → type_of (create_binary m a b ir).0 ≡ (if is_icmp m then int1_ty else type_of a)
    pub not_instruction :
        (a : Value) (ir : Ir) → IsInteger (type_of a) → IsInstruction ir (create_not a ir).1
    pub not_type : (a : Value) (ir : Ir) → type_of (create_not a ir).0 ≡ type_of a
    pub call_instruction :
        (callee : Function) (args : List Value) (ir : Ir)
        → map type_of args ≡ (signature callee).1
        → IsInstruction ir (create_call callee args ir).1
    pub call_type :
        (callee : Function) (args : List Value) (ir : Ir)
        → type_of (create_call callee args ir).0 ≡ (signature callee).0
    -- The terminators; a branch stays in its function.
    pub cond_br_terminator :
        (f : Function) (c : Value) (then_bb else_bb : Block) (ir : Ir)
        → type_of c ≡ int1_ty
        → parent then_bb ≡ f
        → parent else_bb ≡ f
        → IsTerminator f ir (create_cond_br c then_bb else_bb ir)
    pub br_terminator :
        (f : Function) (b : Block) (ir : Ir) → parent b ≡ f → IsTerminator f ir (create_br b ir)
    pub ret_terminator :
        (f : Function) (ir : Ir)
        → (signature f).0 ≡ void_ty
        → IsTerminator f ir (create_ret_void ir)
