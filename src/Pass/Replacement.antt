-- ===== src/Pass/Replacement.antt =====
-- replacement.cpp: the calls that use the requests of the operations to be replaced, and what each is
-- replaced by; and the selection of the operations in mpi_compiler_assistance_matching_pass.cpp.
pub mod Exact
use mpi_comp_match.Base.{
  ℕ, Bool, true, false, List, [], ◌∷◌, ◌++◌, Option, none, some, ◌||◌, ◌&&◌, not, ◌==◌,
  if◌then◌else◌,
}
use mpi_comp_match.Pass.Checked.{Checked, ◌>>=◌, ◌>>◌, assert, pure}
use mpi_comp_match.Pass.Llvm.{Llvm}
use mpi_comp_match.Pass.Functions.{MpiFunctions, OptimizedFunctions, is_mpi_call}
use mpi_comp_match.Pass.Search.{insert}

module _ (ir : Llvm) where
  unfoldable pub check_if_all_usages_of_ptr_are_lifetime : List ℕ → Bool
  check_if_all_usages_of_ptr_are_lifetime [] = true
  check_if_all_usages_of_ptr_are_lifetime (u ∷ rest) =
      (ir.is_call u && ir.is_intrinsic (ir.get_called_function u))
      && check_if_all_usages_of_ptr_are_lifetime rest

  -- Whether one use of a request is allowed, and whether it is a call to be replaced.
  unfoldable pub classify_use : ℕ → Checked Bool
  unfolding check_if_all_usages_of_ptr_are_lifetime
  classify_use u =
      if ir.is_call u
      then (if is_mpi_call ir u then pure true else none)
      else (if ir.is_bit_cast u
          then (do assert (check_if_all_usages_of_ptr_are_lifetime (ir.users u)); pure false)
          else none)

  unfoldable pub gather_uses : List ℕ → Checked (List ℕ)
  gather_uses [] = pure []
  gather_uses (u ∷ rest) = do
    is_replaced ← classify_use u
    calls ← gather_uses rest
    pure (if is_replaced then u ∷ calls else calls)

module _ (ir : Llvm) (mpi : MpiFunctions) where
  unfoldable pub get_usage_of_request : ℕ → Checked (List ℕ)
  get_usage_of_request call = do
    let f = ir.get_called_function call in assert (f == mpi.mpi_send_init || f == mpi.mpi_recv_init)
    assert (ir.get_num_arg_operands call == 7)
    gather_uses ir (ir.users (ir.get_arg_operand call 6))

  -- std::copy into the set
  unfoldable pub insert_all : (calls set : List ℕ) → List ℕ
  unfolding insert
  insert_all [] set = set
  insert_all (c ∷ rest) set = insert_all rest (insert c set)

  unfoldable pub gather_all_uses : (inits set : List ℕ) → Checked (List ℕ)
  unfolding insert_all
  gather_all_uses [] set = pure set
  gather_all_uses (init ∷ rest) set = do
    uses ← get_usage_of_request init
    gather_all_uses rest (insert_all uses set)

  unfoldable pub optimized_function : ℕ → Checked ℕ
  optimized_function f =
      if f == mpi.mpi_wait
      then pure mpi.optimized.mpi_wait
      else (if f == mpi.mpi_start
          then pure mpi.optimized.mpi_start
          else (if f == mpi.mpi_request_free
              then pure mpi.optimized.mpi_request_free
              else (if f == mpi.mpi_send_init
                  then pure mpi.optimized.mpi_send_init
                  else (if f == mpi.mpi_recv_init
                      then pure mpi.optimized.mpi_recv_init
                      else none))))

  -- The call, and the function that it calls from now on; the operands stay.
  unfoldable pub replace_call : (call func : ℕ) → Checked (ℕ × ℕ)
  replace_call call func = do assert (ir.same_function_type call func); pure (call, func)

  unfoldable pub replace_each : List ℕ → Checked (List (ℕ × ℕ))
  replace_each [] = pure []
  replace_each (c ∷ rest) = do
    func ← optimized_function (ir.get_called_function c)
    replaced ← replace_call c func
    others ← replace_each rest
    pure (replaced ∷ others)

  unfoldable pub replace_communication_calls :
      (init_send_calls init_recv_calls : List ℕ) → Checked (List (ℕ × ℕ))
  replace_communication_calls init_send_calls init_recv_calls = do
    let inits = insert_all init_recv_calls (insert_all init_send_calls []) in
        (gather_all_uses init_send_calls inits >>= λ with_sends.
        gather_all_uses init_recv_calls with_sends >>= λ calls_to_replace.
        replace_each calls_to_replace)

  -- The instruction in front of which the call of MPIOPT_INIT is put: that behind the call, or the
  -- first one where an invoke goes on.
  unfoldable pub insert_pt : ℕ → ℕ
  insert_pt call =
      if ir.is_invoke call
      then ir.get_first_non_phi (ir.get_normal_dest call)
      else ir.get_next_node call

  unfoldable pub insert_pts : (place : ℕ → ℕ) → List ℕ → List ℕ
  insert_pts place [] = []
  insert_pts place (u ∷ rest) =
      if ir.is_call u then place u ∷ insert_pts place rest else insert_pts place rest

  -- The places of the calls that are added for the users of a function, where it is declared.
  unfoldable pub add_calls : (function added : ℕ) → (place : ℕ → ℕ) → Checked (List ℕ)
  unfolding insert_pts
  add_calls function added place =
      if function == 0
      then pure []
      else (do assert (not (added == 0)); pure (insert_pts place (ir.users function)))

  -- What is returned is whether there is any.
  unfoldable pub add_init : Checked (List ℕ)
  unfolding add_calls insert_pt
  add_init = do
    behind_init ← add_calls mpi.mpi_init mpi.optimized.init insert_pt
    behind_init_thread ← add_calls mpi.mpi_init_thread mpi.optimized.init insert_pt
    pure (behind_init ++ behind_init_thread)

  unfoldable pub add_finalize : Checked (List ℕ)
  unfolding add_calls
  add_finalize = add_calls mpi.mpi_finalize mpi.optimized.finalize (λ call. call)
