-- ===== src/Pass/Search.antt =====
-- check_call_for_conflict of conflict_detection.cpp: the search from the creation of a request along
-- the paths of the program.
pub mod Paths
pub mod Ways
pub mod Answers
pub mod Missed
pub mod Persistent
pub mod Sets
pub mod Recursion
pub mod Region
pub mod Terminates
use mpi_comp_match.Base.{
  ℕ, zero, suc, Bool, true, false, List, [], ◌∷◌, ◌++◌, none, some, ◌||◌, ◌&&◌, not, ◌==◌, ltb,
  if◌then◌else◌,
}
use mpi_comp_match.Pass.Checked.{Checked, ◌>>=◌, ◌>>◌, assert, pure}
use mpi_comp_match.Pass.Llvm.{Llvm}
use mpi_comp_match.Pass.Functions.{MpiFunctions, is_mpi_call, is_send_function, is_recv_function}
use mpi_comp_match.Pass.Metadata.{may_conflict, is_unknown}
use mpi_comp_match.Pass.Conflicts.{Wildcards, are_calls_conflicting}

abbrev pub contains : ℕ → List ℕ → Bool
contains x [] = false
contains x (y ∷ rest) = x == y || contains x rest

-- std::set: in the order of the addresses, each once.
unfoldable pub insert : ℕ → List ℕ → List ℕ
insert x [] = x ∷ []
insert x (y ∷ rest) =
    if x == y then y ∷ rest else (if ltb x y then x ∷ y ∷ rest else y ∷ insert x rest)

-- `next_inst` is null where the current path has ended.
pub record Position : Type 0 where
  pub next_inst : ℕ
  pub to_check : List ℕ
  pub already_checked : List ℕ

-- What is returned; an assertion may fail, and the fuel may run out.
pub data Answer : Type 0 where
  returns : Bool → Answer
  assertion_failed : Answer
  out_of_fuel : Answer

-- Whether one instruction ends the search.
pub data Verdict : Type 0 where
  go_on : Verdict
  ends : Answer → Verdict

abbrev pub if_conflicting : Checked Bool → Verdict
if_conflicting none = ends assertion_failed
if_conflicting (some true) = ends (returns true)
if_conflicting (some false) = go_on

-- Behind the verdict, the search ends, or goes on from where it has advanced to.
abbrev pub after_verdict : Verdict → Checked Position → (Position → Answer) → Answer
after_verdict (ends answer) at search = answer
after_verdict go_on none search = assertion_failed
after_verdict go_on (some at) search = search at

module _ (ir : Llvm) where
  -- get_guarding_compare: the condition and the way, where the block has one predecessor, which
  -- ends in a conditional branch
  unfoldable pub guard_from : (block : ℕ) → List ℕ → ℕ × Bool
  guard_from block (pred ∷ []) =
      let term = ir.get_terminator pred in
      if ir.is_branch term && ir.is_conditional term
      then (ir.get_condition term, leads_to block (ir.successors term))
      else (0, false)
    where
      leads_to : ℕ → List ℕ → Bool
      leads_to block [] = false
      leads_to block (b ∷ rest) = b == block
  guard_from block _ = (0, false)

  unfoldable pub get_guarding_compare : ℕ → ℕ × Bool
  unfolding guard_from
  get_guarding_compare call =
      let block = ir.get_parent call in guard_from block (ir.predecessors block)

  -- The successor on this side of a conditional branch.
  abbrev pub chosen : Bool → List ℕ → List ℕ
  chosen true (b ∷ rest) = b ∷ []
  chosen false (b ∷ c ∷ rest) = c ∷ []
  chosen way _ = []

  -- The blocks behind a terminator that the search follows.
  unfoldable pub followed : (guard : ℕ) → (way_to_take : Bool) → ℕ → List ℕ
  followed guard way inst =
      if ir.is_branch inst && ir.is_conditional inst && ir.get_condition inst == guard
      then chosen way (ir.successors inst)
      else ir.successors inst

  -- The first instruction of each block that is not checked yet.
  unfoldable pub add_blocks : (already_checked blocks to_check : List ℕ) → List ℕ
  unfolding insert
  add_blocks already_checked [] to_check = to_check
  add_blocks already_checked (b ∷ rest) to_check =
      add_blocks already_checked rest
        (if contains b already_checked then to_check else insert (ir.get_first_non_phi b) to_check)

  -- The places that a return of this function returns to.
  unfoldable pub add_returns : (function : ℕ) → (users to_check : List ℕ) → Checked (List ℕ)
  unfolding insert
  add_returns function [] to_check = pure to_check
  add_returns function (user ∷ rest) to_check =
      if ir.is_call user && ir.get_called_function user == function
      then (do
        assert (not (ir.get_next_node user == 0))
        add_returns function rest (insert (ir.get_next_node user) to_check))
      else add_returns function rest to_check

  unfoldable pub add_exits : ℕ → List ℕ → Checked (List ℕ)
  unfolding add_returns
  add_exits inst to_check =
      if ir.is_terminator inst && ir.is_return inst
      then add_returns (ir.get_function inst) (ir.users (ir.get_function inst)) to_check
      else pure to_check

  unfoldable pub next_of : ℕ → ℕ
  next_of inst =
      let next = ir.get_next_node inst in
      if not (next == 0) && ir.is_unreachable next then 0 else next

  -- The next instruction of the path, or one of those to be checked.
  unfoldable pub choose : (next : ℕ) → (to_check already_checked : List ℕ) → Position
  choose zero [] checked = record { next_inst = 0; to_check = []; already_checked = checked }
  choose zero (i ∷ rest) checked = record {
    next_inst = i;
    to_check = rest;
    already_checked = insert (ir.get_parent i) checked;
  }
  choose (suc n) to_check checked = record {
    next_inst = suc n;
    to_check = to_check;
    already_checked = checked;
  }

  abbrev pub blocks_behind : ℕ × Bool → ℕ → List ℕ
  blocks_behind (guard, way) inst = if ir.is_terminator inst then followed guard way inst else []

  -- From an instruction that does not end the search.
  unfoldable pub advance : ℕ × Bool → Position → Checked Position
  advance guard at = do
    to_check ←
        add_exits at.next_inst
          (add_blocks at.already_checked (blocks_behind guard at.next_inst) at.to_check)
    pure (choose (next_of at.next_inst) to_check at.already_checked)

module _ (ir : Llvm) (mpi : MpiFunctions) (wildcards : Wildcards) (mpi_call : ℕ)
    (scope_endings : List ℕ) (is_sending : Bool) where
  abbrev pub verdict_mpi : ℕ → Verdict
  verdict_mpi inst =
      let f = ir.get_called_function inst in
      if f == mpi.mpi_finalize || contains inst scope_endings
      then ends (returns false)
      else (if (if is_sending then is_send_function mpi f else is_recv_function mpi f)
          then if_conflicting (are_calls_conflicting ir mpi wildcards mpi_call inst is_sending)
          else go_on)

  abbrev pub verdict_other : ℕ → Verdict
  verdict_other inst =
      let f = ir.get_called_function inst in
      if may_conflict ir mpi f || is_unknown ir mpi f then ends (returns true) else go_on

  unfoldable pub verdict : ℕ → Verdict
  verdict inst =
      if ir.is_call inst
      then (if is_mpi_call ir inst then verdict_mpi inst else verdict_other inst)
      else go_on

  -- The loop. Behind it stands an assertion that fails.
  unfoldable pub search_paths : ℕ × Bool → ℕ → Position → Answer
  search_paths guard zero at = out_of_fuel
  search_paths guard (suc fuel) at =
      if at.next_inst == 0
      then assertion_failed
      else after_verdict (verdict at.next_inst) (advance ir guard at) (search_paths guard fuel)

  unfoldable pub check_call_for_conflict : ℕ → Answer
  unfolding search_paths
  check_call_for_conflict fuel = elim scope_endings [
    | [] ↦ assertion_failed
    | _ ∷ _ ↦
        search_paths (get_guarding_compare ir mpi_call) fuel
          (record { next_inst = ir.get_next_node mpi_call; to_check = []; already_checked = [] })
  ]
