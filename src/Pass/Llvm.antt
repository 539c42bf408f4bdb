-- ===== src/Pass/Llvm.antt =====
-- What the pass asks of LLVM: the program as it is given to the pass, and the analyses, as a
-- parameter. A pointer is a number and 0 is null; the order of the numbers is that of the addresses.
use mpi_comp_match.Base.{ℕ, Bool, List}

pub record Llvm : Type 0 where
  -- the functions of the module
  pub functions : List ℕ
  pub users : ℕ → List ℕ
  pub is_constant : ℕ → Bool
  -- F.hasFnAttribute(NoReturn), F.isIntrinsic(), TLI->getLibFunc(F), F.isDeclaration()
  pub is_no_return : ℕ → Bool
  pub is_intrinsic : ℕ → Bool
  pub is_lib_func : ℕ → Bool
  pub is_declaration : ℕ → Bool
  -- getName().contains("MPI")
  pub name_contains_mpi : ℕ → Bool
  -- the instructions of a function, in order
  pub instructions : ℕ → List ℕ
  -- of an instruction: dyn_cast to a class
  pub is_call : ℕ → Bool
  pub is_invoke : ℕ → Bool
  pub is_branch : ℕ → Bool
  pub is_return : ℕ → Bool
  pub is_unreachable : ℕ → Bool
  pub is_alloca : ℕ → Bool
  pub is_bit_cast : ℕ → Bool
  pub is_terminator : ℕ → Bool
  -- its place in the program
  pub get_parent : ℕ → ℕ
  pub get_function : ℕ → ℕ
  pub get_next_node : ℕ → ℕ
  -- of a call
  pub get_called_function : ℕ → ℕ
  pub get_num_arg_operands : ℕ → ℕ
  pub get_arg_operand : ℕ → ℕ → ℕ
  -- of an invoke
  pub get_normal_dest : ℕ → ℕ
  -- of a terminator
  pub successors : ℕ → List ℕ
  pub is_conditional : ℕ → Bool
  pub get_condition : ℕ → ℕ
  -- of a block
  pub predecessors : ℕ → List ℕ
  pub get_terminator : ℕ → ℕ
  pub get_first_non_phi : ℕ → ℕ
  -- the types of two values are the same; their scalar evolutions are known to be unequal
  pub same_type : ℕ → ℕ → Bool
  pub is_instruction : ℕ → Bool
  pub is_known_unequal : ℕ → ℕ → Bool
  pub same_function_type : ℕ → ℕ → Bool
