-- ===== src/Pcl/Llvm.antt =====
-- What the code generator of 15-llvm/naive-pcl calls of LLVM, which is not code of the repository: the
-- module under construction with its builder (`Ir`), and the calls that read and change it.
use Prim.Native.String.{String}
use cpp_graduate.Base.{List, Option}
use cpp_graduate.Base.Int.{ℤ}

-- The builder's methods with two operands: `CreateAdd`, `CreateICmpSGT` and so on.
pub data Method : Type 0 where
  create_add create_sub create_mul create_sdiv create_srem create_and create_or : Method
  create_icmp_sgt create_icmp_slt create_icmp_sge create_icmp_sle create_icmp_eq : Method
  create_icmp_ne : Method

pub record Llvm : Type 1 where
  pub Ir : Type 0
  pub Ty : Type 0
  pub Value : Type 0
  pub Block : Type 0
  pub Function : Type 0
  -- `Module(Name, Context)` with an `IRBuilder<>(Context)`
  pub new_module : String → Ir
  pub int32_ty : Ty
  pub void_ty : Ty
  pub const_int : Ty → ℤ → Value
  -- `Function::Create` for the type of the result, those of the parameters, and the name
  pub create_function : Ty → List Ty → String → Ir → Function × Ir
  pub get_function : String → Ir → Option Function
  pub entry_block : Function → Ir → Block
  -- `BasicBlock::Create`
  pub create_block : String → Function → Ir → Block × Ir
  pub set_insert_point : Block → Ir → Ir
  -- `CreateAlloca` of a builder at the beginning of the block
  pub create_alloca : Block → Ty → String → Ir → Value × Ir
  pub allocated_type : Value → Ty
  pub create_load : Ty → Value → String → Ir → Value × Ir
  -- `CreateLoad` of older versions, which takes the type from the pointer
  pub create_load_pointee : Value → String → Ir → Value × Ir
  pub create_store : Value → Value → Ir → Value × Ir
  pub create_binary : Method → Value → Value → Ir → Value × Ir
  pub create_not : Value → Ir → Value × Ir
  pub create_call : Function → List Value → Ir → Value × Ir
  pub create_cond_br : Value → Block → Block → Ir → Ir
  pub create_br : Block → Ir → Ir
  pub create_ret_void : Ir → Ir
