-- ===== src/ActiveMessage/Ids.antt =====
-- The AM_IDs under which handlers are registered, and the actions that register none.
pub mod Offer
pub mod Transfers
pub mod Operations
pub mod Reach
use mpi_comp_match.Base.{
  ℕ, ◌+◌, ◌%◌, ◌<◌, ◌≡◌, ◌≢◌, ◌∙◌, ◌==◌, refl, ap, sym, List, length, [], ◌∷◌, ◌++◌, Option, none,
  some, All, arith,
}
use mpi_comp_match.Machine.{Ensures, Outcome, ◌>>=◌, ◌>>◌, update, assert, basic_actions}
use mpi_comp_match.Machine.Preserves.{Preorder, Preserves, Preserves-bind, preserving, Ensures-map}
use mpi_comp_match.Rendezvous.Request.{handshake_communicator}
use mpi_comp_match.Rendezvous.Library.{ucs_ok}
use mpi_comp_match.ActiveMessage.Request.{Request, uint_limit}
use mpi_comp_match.ActiveMessage.Library.{
  Library, Call, Incoming, Reply, am_id_value, mpi_issend, ucp_worker_progress,
  ucp_worker_set_am_recv_handler, ucp_am_recv_data_nbx,
}
use mpi_comp_match.ActiveMessage.Machine.{
  M, State, load, modify, issue, call_, incoming_am_msg_handler, run_handlers, call,
}
use mpi_comp_match.ActiveMessage.Machine.Run.{run, issued}
use mpi_comp_match.ActiveMessage.Connection.{offer_am_id, await_am_id, take_am_tag}

abbrev pub registered_by : Call → List ℕ
registered_by (ucp_worker_set_am_recv_handler id (some p)) = id ∷ []
registered_by _ = []

-- The ids under which a handler has been registered, latest first.
unfoldable pub registered : List Call → List ℕ
registered [] = []
registered (c ∷ rest) = registered_by c ++ registered rest

abbrev pub AllDistinct : List ℕ → Type 0
AllDistinct [] = Unit
AllDistinct (x ∷ xs) = All (λ y. y ≢ x) xs × AllDistinct xs

same_registered :
    (c : Call) (l : List Call) → registered_by c ≡ [] → registered (c ∷ l) ≡ registered l
unfolding registered
same_registered c l e = rw e refl

-- The ids so far are distinct and below the next one, which counts them.
pub record Distinct {World : Type 0} (s : State World) : Type 0 where
  pub counted : s.am_tag ≡ 1 + length (registered s.log)
  pub below : All (λ id. id < s.am_tag) (registered s.log)
  pub distinct : AllDistinct (registered s.log)

-- The ids are distinct as long as they fit into an unsigned int.
abbrev pub Numbered : {World : Type 0} → State World → Type 0
Numbered s = length (registered s.log) + 1 < uint_limit → Distinct s

module _ {World : Type 0} where
  pub record Kept (s s' : State World) : Type 0 where
    pub keep : Numbered s → Numbered s'

  instance pub Kept-Preorder : Preorder Kept
  Kept-Preorder = record {
    same = λ s. record { keep = λ h. h };
    chain = λ s t u f g. record { keep = λ h. g.keep (f.keep h) };
  }

  pub load-Kept : (p : ℕ) → Preserves Kept (load p)
  unfolding load
  load-Kept p = record { at = Kept-Preorder.same }

  pub modify-Kept : (p : ℕ) (g : Request → Request) → Preserves Kept (modify p g)
  unfolding modify
  modify-Kept p g = record {
    at = λ s. record {
      keep = λ h bound. record {
        counted = (h bound).counted;
        below = (h bound).below;
        distinct = (h bound).distinct;
      };
    };
  }

  module _ ⦃lib : Library World⦄ where
    pub issue-Kept : (c : Call) → registered_by c ≡ [] → Preserves Kept (issue c)
    unfolding issue
    issue-Kept c e = record {
      at = λ s. record {
        keep = λ h bound.
            let same = same_registered c s.log e in
            let d : Distinct s = h (rw (sym same) bound) in
            record {
              counted = rw same d.counted;
              below = rw same d.below;
              distinct = rw same d.distinct;
            };
      };
    }

    ruleset kept = (preserving, load-Kept, modify-Kept, issue-Kept)

    handler-Kept : (m : Incoming) → Preserves Kept (incoming_am_msg_handler m)
    unfolding incoming_am_msg_handler
    handler-Kept m = search kept depth 30

    pub run_handlers-Kept : (l : List Incoming) → Preserves Kept (run_handlers l)
    unfolding run_handlers
    run_handlers-Kept [] = search kept
    run_handlers-Kept (m ∷ rest) = Preserves-bind _ _ (handler-Kept m) (λ _. run_handlers-Kept rest)

    pub call-Kept : (c : Call) → registered_by c ≡ [] → Preserves Kept (call c)
    unfolding call
    call-Kept c e = search (kept, run_handlers-Kept)
