-- ===== src/Rendezvous/Machine.antt =====
-- One process: its requests, its lists, its counter, the state of the library, and the calls made
-- so far. A function of the file is an action over it, which returns or stops at a fault.
pub mod Run
use mpi_comp_match.Base.{ℕ, ◌≡◌, Bool, true, false, List, [], ◌∷◌, ◌==◌, ◌||◌, if◌then◌else◌}
pub use mpi_comp_match.Machine.{
  Fault, assertion_failed, undefined_behaviour, out_of_fuel, Outcome, done, fault, Action, Returns,
  Ensures, update_self, update-ne, ◌>>◌,
}
unfoldable pub use mpi_comp_match.Machine.{update, ◌>>=◌, pure, fail, when, assert, int_value, get}
use mpi_comp_match.Rendezvous.Request.{Request}
use mpi_comp_match.Rendezvous.Library.{Call, Reply, Library, ucs_ok, ucs_inprogress}

pub record State (World : Type 0) : Type 0 where
  pub heap : ℕ → Request
  -- `request_list_head` and `to_free_list_head`, without their dummy heads
  pub request_list : List ℕ
  pub to_free_list : List ℕ
  pub crosstalk_counter : ℕ
  pub world : World
  -- the calls made so far, latest first
  pub log : List Call

abbrev pub M : Type 0 → Type 0 → Type 0
M World A = Action (State World) A

abbrev pub is_no_error : ℕ → Bool
is_no_error status = status == ucs_ok || status == ucs_inprogress

-- The value of a flag after the writes of others, in their order.
unfoldable pub flag_after : List (ℕ × ℕ) → ℕ → ℕ → ℕ
flag_after [] q v = v
flag_after ((p, w) ∷ rest) q v = flag_after rest q (if p == q then w else v)

abbrev pub land : List (ℕ × ℕ) → (ℕ → Request) → ℕ → Request
land writes heap q = record (heap q) { flag = flag_after writes q (heap q).flag }

module _ {World : Type 0} where
  unfoldable pub load : ℕ → M World Request
  load p s = done (s.heap p) s

  unfoldable pub modify : ℕ → (Request → Request) → M World (Unit {0})
  modify p f s = done tt (record s { heap = update s.heap p f })

  -- assert(status == UCS_OK || status == UCS_INPROGRESS)
  abbrev pub assert_no_error : ℕ → M World (Unit {0})
  assert_no_error status = assert (is_no_error status)

  unfoldable pub call : ⦃lib : Library World⦄ → Call → M World Reply
  call ⦃lib⦄ c s =
      let (reply, w) = lib.perform c s.world in
      done reply (record s { heap = land reply.writes s.heap; world = w; log = c ∷ s.log })

  abbrev pub call_ : ⦃lib : Library World⦄ → Call → M World (Unit {0})
  call_ c = do reply ← call c; pure tt

-- Opens the actions, for a proof that runs them.
unfoldable pub actions : Unit {0}
unfolding ◌>>=◌ pure fail when assert int_value get load modify call
actions = tt
