-- ===== src/Pcl/Codegen/Sample.antt =====
-- A builder as the code generator (15-llvm/naive-pcl) expects it, which checks the types of its operands. It
-- keeps the blocks without a terminator and forgets the instructions.
use Prim.Native.String.{String}
use mathlib.Core.List.{Perm}
use mathlib.Core.List
use mathlib.Core.List.Perm
use native.Mathlib.Decide.{ℕ_discrete}
use text.Mathlib.Text.{◌==◌}
use text.Mathlib.TextEquality.{eq_iff}
use cpp_graduate.Base.{
  ℕ, suc, ◌≡◌, inl, inr, refl, sym, ap, ◌∙◌, subst, List, [], ◌∷◌, map, Bool, true, false, ◌&&◌,
  ◌||◌, Option, none, some, if◌then◌else◌,
}
use cpp_graduate.Pcl.Llvm.{Llvm}
use cpp_graduate.Pcl.Codegen.Documented.{
  Observed, IsInstruction, IsTerminator, Documented, IsInteger, is_icmp,
}

pub data Ty : Type 0 where
  void int1 int32 pointer : Ty

unfoldable pub Ty-discrete : Discrete Ty
Ty-discrete = hlevel

-- Its number, its result and its parameters.
pub record Function : Type 0 where
  pub number : ℕ
  pub result : Ty
  pub params : List Ty

pub Function-discrete : Discrete Function
Function-discrete = hlevel (ℕ_discrete, Ty-discrete, List.List-discrete)

pub record Block : Type 0 where
  pub index : ℕ
  pub owner : Function

pub Block-discrete : Discrete Block
Block-discrete = hlevel (ℕ_discrete, Function-discrete)

pub record Value : Type 0 where
  pub type_of : Ty
  pub allocated : Ty

pub record Ir : Type 0 where
  pub count : ℕ
  pub functions : String → Option Function
  pub position : Option Block
  pub open_blocks : List Block
  pub valid : Bool

abbrev is_yes : {A : Type 0} → Dec A → Bool
is_yes (yes p) = true
is_yes (no p) = false

is_yes_lem : {A : Type 0} (d : Dec A) → A → is_yes d ≡ true
is_yes_lem (yes p) a = refl
is_yes_lem (no p) a = absurd (p a)

abbrev is_integer : Ty → Bool
is_integer t = is_yes (Ty-discrete t int1) || is_yes (Ty-discrete t int32)

-- A requirement of a call.
abbrev check : Bool → Ir → Ir
check t ir = record ir { valid = ir.valid && t }

-- The block that the builder stands in gets its terminator.
abbrev terminated : Option Block → List Block → List Block
terminated none l = l
terminated (some b) l = List.erase Block-discrete l b

abbrev terminate : Bool → Ir → Ir
terminate t ir = record (check t ir) { open_blocks = terminated ir.position ir.open_blocks }

abbrev returns_void : Option Block → Bool
returns_void none = false
returns_void (some b) = is_yes (Ty-discrete b.owner.result void)

abbrev in_function : Option Block → Block → Bool
in_function none c = false
in_function (some b) c = is_yes (Function-discrete c.owner b.owner)

abbrev new_function : Ty → List Ty → Ir → Function
new_function t ts ir = record { number = ir.count; result = t; params = ts }

abbrev new_block : Function → Ir → Block
new_block f ir = record { index = ir.count; owner = f }

abbrev pub checking : Llvm
checking = record {
  Ir = Ir;
  Ty = Ty;
  Value = Value;
  Block = Block;
  Function = Function;
  new_module = λ x. record {
    count = 0;
    functions = λ y. none;
    position = none;
    open_blocks = [];
    valid = true;
  };
  int32_ty = int32;
  void_ty = void;
  const_int = λ t v. record { type_of = t; allocated = void };
  create_function = λ t ts x ir. (
    new_function t ts ir,
    record ir {
      count = suc ir.count;
      functions = λ y. if x == y then some (new_function t ts ir) else ir.functions y;
    },
  );
  get_function = λ x ir. ir.functions x;
  entry_block = λ f ir. new_block f ir;
  create_block = λ x f ir. (
    new_block f ir,
    record ir { count = suc ir.count; open_blocks = new_block f ir ∷ ir.open_blocks },
  );
  set_insert_point = λ b ir. record ir { position = some b };
  create_alloca = λ b t x ir. (record { type_of = pointer; allocated = t }, ir);
  allocated_type = λ v. v.allocated;
  create_load = λ t p x ir.
      (record { type_of = t; allocated = void }, check (is_yes (Ty-discrete t p.allocated)) ir);
  create_load_pointee = λ p x ir. (
    record { type_of = p.allocated; allocated = void },
    check (is_yes (Ty-discrete p.allocated p.allocated)) ir,
  );
  create_store = λ v p ir. (
    record { type_of = void; allocated = void },
    check (is_yes (Ty-discrete v.type_of p.allocated)) ir,
  );
  create_binary = λ m a b ir. (
    record { type_of = if is_icmp m then int1 else a.type_of; allocated = void },
    check (is_integer a.type_of && is_yes (Ty-discrete b.type_of a.type_of)) ir,
  );
  create_not =
      λ a ir. (record { type_of = a.type_of; allocated = void }, check (is_integer a.type_of) ir);
  create_call = λ f args ir. (
    record { type_of = f.result; allocated = void },
    check (is_yes (List.List-discrete Ty-discrete (map (λ v. v.type_of) args) f.params)) ir,
  );
  create_cond_br = λ c b b' ir.
      terminate
        (is_yes (Ty-discrete c.type_of int1)
          && in_function ir.position b
          && in_function ir.position b')
        ir;
  create_br = λ b ir. terminate (in_function ir.position b) ir;
  create_ret_void = λ ir. terminate (returns_void ir.position) ir;
}

abbrev pub observed : Observed checking
observed = record {
  int1_ty = int1;
  type_of = λ v. v.type_of;
  signature = λ f. (f.result, f.params);
  parent = λ b. b.owner;
  insert_block = λ ir. ir.position;
  open_blocks = λ ir. ir.open_blocks;
  has_body = λ f ir. Unit;
  IsValid = λ ir. ir.valid ≡ true;
}

is_integer_lem : (t : Ty) → IsInteger checking observed t → is_integer t ≡ true
unfolding Ty-discrete
is_integer_lem t (inl e) = rw (is_yes_lem (Ty-discrete t int1) e) refl
is_integer_lem t (inr e) = subst (λ z. is_integer z ≡ true) (sym e) refl

and_true : (a b : Bool) → a ≡ true → b ≡ true → (a && b) ≡ true
and_true a b h k = rw (h, k) refl

check-IsInstruction :
    (t : Bool) (ir : Ir) → t ≡ true → IsInstruction checking observed ir (check t ir)
check-IsInstruction t ir e = record {
  keeps = λ f b rest o. record {
    valid = and_true _ _ o.valid e;
    within = o.within;
    position = o.position;
    unfinished = o.unfinished;
  };
  functions = λ x. refl;
  bodies = λ f h. h;
}

terminate-IsTerminator :
    (f : Function) (t : Bool) (ir : Ir)
    → ((b : Block) → b.owner ≡ f → ir.position ≡ some b → t ≡ true)
    → IsTerminator checking observed f ir (terminate t ir)
terminate-IsTerminator f t ir e = record {
  ends = λ b rest o. record {
    valid = and_true _ _ o.valid (e b o.within o.position);
    unfinished =
        subst (λ z. Perm (terminated z ir.open_blocks) rest) (sym o.position)
          (subst (λ z. Perm (List.erase Block-discrete ir.open_blocks b) z)
            (List.erase-cons-head Block-discrete b rest)
            (Perm.erase Block-discrete b o.unfinished));
  };
  functions = λ x. refl;
}

in_function_lem :
    (f : Function) (o : Option Block) (b c : Block)
    → o ≡ some b
    → b.owner ≡ f
    → c.owner ≡ f
    → in_function o c ≡ true
in_function_lem f o b c e h k = rw e (is_yes_lem (Function-discrete c.owner b.owner) (k ∙ sym h))

returns_void_lem :
    (f : Function) (o : Option Block) (b : Block)
    → o ≡ some b
    → b.owner ≡ f
    → f.result ≡ void
    → returns_void o ≡ true
returns_void_lem f o b e h k =
    rw e (is_yes_lem (Ty-discrete b.owner.result void) (ap (λ z. z.result) h ∙ k))

if_true : {A : Type 0} (b : Bool) (x y : A) → b ≡ true → (if b then x else y) ≡ x
if_true b x y e = rw e refl

if_false : {A : Type 0} (b : Bool) (x y : A) → ¬ (b ≡ true) → (if b then x else y) ≡ y
if_false true x y h = absurd (h refl)
if_false false x y h = refl

pub documented : Documented checking observed
documented = record {
  new_valid = λ x. refl;
  new_blocks = λ x. refl;
  new_functions = λ x y. refl;
  const_type = λ t v. refl;
  function_named = λ t ts x ir e. if_true _ _ _ ((eq_iff x x).1 refl);
  function_signature = λ t ts x ir. refl;
  function_others = λ t ts x y ir ne. if_false _ _ _ (λ h. ne ((eq_iff x y).0 h));
  function_valid = λ t ts x ir h. h;
  function_blocks = λ t ts x ir. refl;
  block_parent = λ x f ir. refl;
  block_body = λ x f ir. tt;
  block_blocks = λ x f ir. Perm.refl _;
  block_at = λ x f ir. refl;
  block_valid = λ x f ir h. h;
  block_functions = λ x f ir y. refl;
  insert_at = λ b ir. refl;
  insert_blocks = λ b ir. refl;
  insert_valid = λ b ir h. h;
  insert_functions = λ b ir x. refl;
  insert_body = λ b ir f h. tt;
  alloca_instruction =
      λ f t x ir h. record { keeps = λ f b rest o. o; functions = λ y. refl; bodies = λ f k. tt };
  alloca_type = λ b t x ir. refl;
  load_instruction = λ p x ir. check-IsInstruction _ ir (is_yes_lem (Ty-discrete _ _) refl);
  load_type = λ t p x ir. refl;
  store_instruction = λ v p ir e. check-IsInstruction _ ir (is_yes_lem (Ty-discrete _ _) e);
  binary_instruction = λ m a b ir i e.
      check-IsInstruction _ ir
        (and_true _ _ (is_integer_lem a.type_of i) (is_yes_lem (Ty-discrete _ _) e));
  binary_type = λ m a b ir. refl;
  not_instruction = λ a ir i. check-IsInstruction _ ir (is_integer_lem a.type_of i);
  not_type = λ a ir. refl;
  call_instruction = λ callee args ir e.
      check-IsInstruction _ ir (is_yes_lem (List.List-discrete Ty-discrete _ _) e);
  call_type = λ callee args ir. refl;
  cond_br_terminator = λ f c b b' ir e h k. terminate-IsTerminator f _ ir (λ here w at.
      and_true _ _
        (and_true _ _ (is_yes_lem (Ty-discrete c.type_of int1) e)
          (in_function_lem f ir.position here b at w h))
        (in_function_lem f ir.position here b' at w k));
  br_terminator = λ f b ir h.
      terminate-IsTerminator f _ ir (λ here w at. in_function_lem f ir.position here b at w h);
  ret_terminator = λ f ir h.
      terminate-IsTerminator f _ ir (λ here w at. returns_void_lem f ir.position here at w h);
}
