-- ===== src/Protocol/Invariant/Defs.antt =====
-- The invariant of a connected pair: between two transfers, in a push, or in a fetch.
use mpi_comp_match.Base.{ℕ, ◌+◌, ◌*◌, ◌≤◌, ◌≡◌, ◌≢◌, ◌⊎◌, true, false, [], ◌∷◌}
use mpi_comp_match.Protocol.System.{
  put_flag, put_data, get_data, fence, inactive, started, waiting, completing, System,
}

-- Where a process stands after the transfer of operation k: still in that operation, out of it, or
-- in the next one, its offer on the way or arrived.
pub data Place : Type 0 where
  busy resting offering offered : Place

-- How far a push has come: the data, the fence and the flag are still to be carried out, and so on.
pub data Push : Type 0 where
  push_all push_fence push_flag : Push

-- The same for a fetch; in the first two an offer is still on its way.
pub data Fetch : Type 0 where
  offer_all offer_fence fetch_all fetch_fence fetch_flag : Fetch

module _ (message : ℕ → ℕ) (k : ℕ) (s : System) where
  abbrev pub SenderAt : Place → Type 0
  SenderAt busy = (s.s_op ≡ k) × (s.s_active ≡ true) × (s.s_out ≡ [])
  SenderAt resting = (s.s_op ≡ k) × (s.s_active ≡ false) × (s.s_out ≡ [])
  SenderAt offering =
      (s.s_op ≡ k + 1)
      × (s.s_active ≡ true)
      × (s.s_out ≡ put_flag ((k + 1) * 2 + 1) ∷ [])
      × (s.s_buf ≡ message (k + 1))
  SenderAt offered =
      (s.s_op ≡ k + 1) × (s.s_active ≡ true) × (s.s_out ≡ []) × (s.s_buf ≡ message (k + 1))

  abbrev pub ReceiverAt : Place → Type 0
  ReceiverAt busy = (s.r_op ≡ k) × (s.r_pc ≢ inactive) × (s.r_out ≡ [])
  ReceiverAt resting = (s.r_op ≡ k) × (s.r_pc ≡ inactive) × (s.r_out ≡ [])
  ReceiverAt offering =
      (s.r_op ≡ k + 1) × (s.r_pc ≡ started) × (s.r_out ≡ put_flag ((k + 1) * 2 + 1) ∷ [])
  ReceiverAt offered = (s.r_op ≡ k + 1) × ((s.r_pc ≡ started) ⊎ (s.r_pc ≡ waiting)) × (s.r_out ≡ [])

  abbrev pub PushOut : Push → Type 0
  PushOut push_all = s.s_out ≡ put_data ∷ fence ∷ put_flag ((k + 1) * 2 + 2) ∷ []
  PushOut push_fence = s.s_out ≡ fence ∷ put_flag ((k + 1) * 2 + 2) ∷ []
  PushOut push_flag = s.s_out ≡ put_flag ((k + 1) * 2 + 2) ∷ []

  abbrev pub FetchOut : Fetch → Type 0
  FetchOut offer_all =
      s.r_out ≡ put_flag ((k + 1) * 2 + 1) ∷ get_data ∷ fence ∷ put_flag ((k + 1) * 2 + 2) ∷ []
  FetchOut offer_fence =
      s.r_out ≡ put_flag ((k + 1) * 2 + 1) ∷ fence ∷ put_flag ((k + 1) * 2 + 2) ∷ []
  FetchOut fetch_all = s.r_out ≡ get_data ∷ fence ∷ put_flag ((k + 1) * 2 + 2) ∷ []
  FetchOut fetch_fence = s.r_out ≡ fence ∷ put_flag ((k + 1) * 2 + 2) ∷ []
  FetchOut fetch_flag = s.r_out ≡ put_flag ((k + 1) * 2 + 2) ∷ []

-- The flag of the first process, by its own place and that of the other: an offer of the other that
-- has arrived shows in it, and it is never that of an operation that has only started.
abbrev pub FlagAt : ℕ → Place → Place → ℕ → Type 0
FlagAt k busy offered v = v ≡ (k + 1) * 2 + 1
FlagAt k busy other v = v ≡ k * 2 + 2
FlagAt k mine offered v = v ≡ (k + 1) * 2 + 1
FlagAt k mine other v = (v ≤ k * 2 + 2) × (v ≢ k * 2 + 1)

abbrev pub pushed : Push → ℕ
pushed push_all = 0
pushed _ = 1

abbrev pub fetched : Fetch → ℕ
fetched offer_all = 0
fetched fetch_all = 0
fetched _ = 1

-- The receiver holds the message of operation k, or of the next one once the data has been copied.
abbrev pub Holds : (ℕ → ℕ) → ℕ → ℕ → System → Type 0
Holds message k moved s = (s.r_buf ≡ message (k + moved)) × (s.copies + 1 ≡ k + moved)

pub record Between (message : ℕ → ℕ) (k : ℕ) (a b : Place) (s : System) : Type 0 where
  pub sender : SenderAt message k s a
  pub receiver : ReceiverAt message k s b
  pub s_flag : FlagAt k a b s.s_flag
  pub r_flag : FlagAt k b a s.r_flag
  pub holds : Holds message k 0 s

pub record Pushing (message : ℕ → ℕ) (k : ℕ) (i : Push) (s : System) : Type 0 where
  pub s_op : s.s_op ≡ k + 1
  pub s_active : s.s_active ≡ true
  pub s_flag : s.s_flag ≡ (k + 1) * 2 + 2
  pub s_buf : s.s_buf ≡ message (k + 1)
  pub s_out : PushOut message k s i
  pub receiver : ReceiverAt message k s offered
  pub r_flag : s.r_flag ≤ k * 2 + 2
  pub holds : Holds message k (pushed i) s

pub record Fetching (message : ℕ → ℕ) (k : ℕ) (j : Fetch) (s : System) : Type 0 where
  pub r_op : s.r_op ≡ k + 1
  pub r_pc : (s.r_pc ≡ started) ⊎ (s.r_pc ≡ completing)
  pub r_flag : s.r_flag ≡ (k + 1) * 2 + 2
  pub r_out : FetchOut message k s j
  pub sender : SenderAt message k s offered
  pub s_flag : s.s_flag ≤ (k + 1) * 2 + 1
  pub holds : Holds message k (fetched j) s

pub data Inv (message : ℕ → ℕ) (s : System) : Type 0 where
  between : (k : ℕ) (a b : Place) → Between message k a b s → Inv message s
  pushing : (k : ℕ) (i : Push) → Pushing message k i s → Inv message s
  fetching : (k : ℕ) (j : Fetch) → Fetching message k j s → Inv message s
