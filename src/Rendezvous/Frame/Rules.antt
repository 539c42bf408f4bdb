-- ===== src/Rendezvous/Frame/Rules.antt =====
-- The frame of an action, one rule for each way to build one.
use mpi_comp_match.Base.{ℕ, ◌≡◌, refl, ◌∙◌, Bool, true, false, List, if◌then◌else◌}
use mpi_comp_match.Machine.Preserves.{Preorder, Preserves, preserving}
use mpi_comp_match.Rendezvous.Request.{Request, RequestType, Comm}
use mpi_comp_match.Rendezvous.Library.{Library, Call}
use mpi_comp_match.Rendezvous.Machine.{M, State, load, modify, call, actions, update}

pub record Fixed : Type 0 where
  pub type : RequestType
  pub operation_number : ℕ
  pub buf : ℕ
  pub size : ℕ
  pub tag : ℕ
  pub dest : ℕ
  pub comm : Comm
  pub ep : ℕ
  pub mem_handle_data : ℕ
  pub mem_handle_flag : ℕ
  pub rdma_info_buf : List ℕ

abbrev pub fixed : Request → Fixed
fixed r = record {
  type = r.type;
  operation_number = r.operation_number;
  buf = r.buf;
  size = r.size;
  tag = r.tag;
  dest = r.dest;
  comm = r.comm;
  ep = r.ep;
  mem_handle_data = r.mem_handle_data;
  mem_handle_flag = r.mem_handle_flag;
  rdma_info_buf = r.rdma_info_buf;
}

module _ {World : Type 0} where
  pub record Frame (s s' : State World) : Type 0 where
    pub requests : (q : ℕ) → fixed (s'.heap q) ≡ fixed (s.heap q)
    pub active : s'.request_list ≡ s.request_list
    pub deferred : s'.to_free_list ≡ s.to_free_list

  instance pub Frame-Preorder : Preorder Frame
  Frame-Preorder = record {
    same = λ s. record { requests = λ q. refl; active = refl; deferred = refl };
    chain = λ s t u f g. record {
      requests = λ q. g.requests q ∙ f.requests q;
      active = g.active ∙ f.active;
      deferred = g.deferred ∙ f.deferred;
    };
  }

  -- Wherever the action returns, the frame is kept.
  abbrev pub Keeps : {A : Type 0} → M World A → Type 0
  Keeps = Preserves Frame

  pub Keeps-load : (p : ℕ) → Keeps (load p)
  unfolding actions
  Keeps-load p = record { at = Frame-Preorder.same }

  pub Keeps-call : ⦃lib : Library World⦄ (c : Call) → Keeps (call c)
  unfolding call
  Keeps-call c = record {
    at = λ s. record { requests = λ q. refl; active = refl; deferred = refl };
  }

  pub Keeps-modify :
      (p : ℕ) (g : Request → Request) → ((r : Request) → fixed (g r) ≡ fixed r) → Keeps (modify p g)
  unfolding modify update
  Keeps-modify p g h = record {
    at = λ s. record { requests = λ q. at_if _ q s; active = refl; deferred = refl };
  }
    where
      at_if :
          (b : Bool) (q : ℕ) (s : State World)
          → fixed (if b then g (s.heap q) else s.heap q) ≡ fixed (s.heap q)
      at_if true q s = h (s.heap q)
      at_if false q s = refl

pub ruleset frame_rules = (preserving, Keeps-load, Keeps-call)
