-- ===== src/Ssa.antt =====
-- src/middleend/ssa/SSAInstruction.hpp: the intermediate representation.
-- A 64-bit integer is its bit pattern, a number below 2^64; a double is its bit pattern too.
pub mod Machine
use lsm_toolchain.Prelude.{ℕ, List, [], ◌∷◌, String, Bool, true, false, ◌++◌, str_eq, not, ◌&&◌}

pub data ArchType : Type 0 where
  x86_64 x86_32 arm64 : ArchType

pub data StaticType : Type 0 where
  int64 int32 int16 int8 float64 string ptr ptr32 bool void dynamic unknown : StaticType

unfoldable pub default_int_type : ArchType → StaticType
default_int_type x86_32 = int32
default_int_type _ = int64

unfoldable pub default_ptr_type : ArchType → StaticType
default_ptr_type x86_32 = ptr32
default_ptr_type _ = ptr

pub data Op : Type 0 where
  const_num const_float const_str copy : Op
  add sub mul div modulo : Op
  bit_and bit_or bit_xor bit_not shl shr : Op
  fadd fsub fmul fdiv : Op
  equal not_equal less_than less_equal greater_than greater_equal : Op
  fequal fnot_equal fless_than fless_equal fgreater_than fgreater_equal : Op
  branch cond_branch call return : Op
  array_alloc array_load array_store : Op
  region_enter region_exit alloc_local alloc_escaped : Op
  task_spawn task_yield : Op
  set_register get_register cpu_halt disable_interrupts enable_interrupts : Op
  io_port_read io_port_write io_port_read16 io_port_write16 : Op
  volatile_load volatile_store : Op
  atomic_rmw phi vector_add : Op

pub record Value : Type 0 where
  pub name : String
  pub type : StaticType
  pub is_constant : Bool
  pub num : ℕ
  pub float : ℕ
  pub str : String

abbrev pub make_var : String → StaticType → Value
make_var n t = record { name = n; type = t; is_constant = false; num = 0; float = 0; str = "" }

abbrev pub make_const_num : ℕ → StaticType → Value
make_const_num n t = record {
  name = "";
  type = t;
  is_constant = true;
  num = n;
  float = 0;
  str = "";
}

pub record Instruction : Type 0 where
  pub op : Op
  pub result : Value
  pub operands : List Value

pub record BasicBlock : Type 0 where
  pub label : String
  pub instructions : List Instruction
  pub predecessors : List String
  pub successors : List String

pub record Function : Type 0 where
  pub name : String
  pub params : List (String × StaticType)
  pub return_type : StaticType
  pub blocks : List BasicBlock
  pub is_naked : Bool
  pub is_inline : Bool

-- `result.name.empty()`, negated
abbrev pub is_named : Instruction → Bool
is_named i = not (str_eq i.result.name "")

-- the instructions of all blocks, in the order in which the passes visit them
abbrev pub all_instructions : List BasicBlock → List Instruction
all_instructions [] = []
all_instructions (b ∷ bs) = b.instructions ++ all_instructions bs
