-- ===== src/Rendezvous/RequestList.antt =====
-- The list of active requests, `request_list_head` without its dummy head.
pub mod Removal
use mpi_comp_match.Base.{ℕ, List, [], ◌∷◌, Option, none, some, ◌==◌, if◌then◌else◌}
use mpi_comp_match.Rendezvous.Machine.{M, State, Outcome, done, fault, assertion_failed}

-- The walk of `remove_request_from_list`; `none` where the assertion on `current_elem` fails.
unfoldable pub remove : ℕ → List ℕ → Option (List ℕ)
remove p [] = none
remove p (q ∷ rest) =
    if q == p then some rest else elim (remove p rest) [ none ↦ none | some l ↦ some (q ∷ l) ]

module _ {World : Type 0} where
  unfoldable pub add_request_to_list : ℕ → M World (Unit {0})
  add_request_to_list p s = done tt (record s { request_list = p ∷ s.request_list })

  unfoldable pub remove_request_from_list : ℕ → M World (Unit {0})
  remove_request_from_list p s = elim (remove p s.request_list) [
    | none ↦ fault assertion_failed
    | some rest ↦ done tt (record s { request_list = rest })
  ]
