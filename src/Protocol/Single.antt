-- ===== src/Protocol/Single.antt =====
-- A pair whose receiving process has no other request, with `flag_buffer` as memory. No other wait of
-- the receiver progresses the request, so `progress_recv_request` is never called for it. A put of
-- the flag reads `flag_buffer` at any moment from the call until it is carried out.
pub mod Received
pub mod Ends
use mpi_comp_match.Base.{ℕ, ◌+◌, ◌*◌, ◌≡◌, false, List, [], ◌∷◌}
use mpi_comp_match.Protocol.System.{
  Wire, put_flag, put_data, get_data, fence, System, inactive, waiting, Step, starts_send,
  ends_send, starts_recv, progresses, enters_wait, resolves, ends_recv, ends_fetch,
  reaches_receiver, reaches_sender, send_wires, recv_wires, start_send, start_recv,
  resolve_crosstalk, connected,
}

pub record Single : Type 0 where
  pub system : System
  -- flag_buffer of the sender and of the receiver
  pub s_buffer : ℕ
  pub r_buffer : ℕ

-- `flag_buffer` behind the calls that issue these operations: each put of the flag comes behind an
-- assignment of its value.
unfoldable pub buffer_after : List Wire → ℕ → ℕ
buffer_after [] buffer = buffer
buffer_after (put_flag v ∷ rest) buffer = buffer_after rest v
buffer_after (_ ∷ rest) buffer = buffer_after rest buffer

-- A put that has not been carried out reads `flag_buffer`, perhaps not for the first time.
pub data Reads (buffer : ℕ) : List Wire → List Wire → Type 0 where
  here : {v : ℕ} {q : List Wire} → Reads buffer (put_flag v ∷ q) (put_flag buffer ∷ q)
  behind : {w : Wire} {q q' : List Wire} → Reads buffer q q' → Reads buffer (w ∷ q) (w ∷ q')

-- The steps that assign no `flag_buffer`.
abbrev pub IsSilent : {message : ℕ → ℕ} {s t : System} → Step message s t → Type 0
IsSilent (starts_send e) = ⊥
IsSilent (ends_send e out f) = Unit
IsSilent (starts_recv e) = ⊥
IsSilent (progresses pc) = ⊥
IsSilent (enters_wait e out) = Unit
IsSilent (resolves e f) = ⊥
IsSilent (ends_recv e f) = Unit
IsSilent (ends_fetch e out) = Unit
IsSilent (reaches_receiver t) = Unit
IsSilent (reaches_sender t) = Unit

pub data SingleStep (message : ℕ → ℕ) (l : Single) : Single → Type 0 where
  single_starts_send :
      l.system.s_active ≡ false
      → SingleStep message l (record l {
        system = start_send message l.system;
        s_buffer = buffer_after (send_wires (l.system.s_op + 1) l.system.s_flag) l.s_buffer;
      })
  single_starts_recv :
      l.system.r_pc ≡ inactive
      → SingleStep message l (record l {
        system = start_recv l.system;
        r_buffer = buffer_after (recv_wires (l.system.r_op + 1) l.system.r_flag) l.r_buffer;
      })
  single_resolves :
      l.system.r_pc ≡ waiting
      → l.system.r_flag ≡ l.system.r_op * 2 + 1
      → SingleStep message l (record l {
        system = resolve_crosstalk l.system;
        r_buffer = buffer_after (recv_wires l.system.r_op l.system.r_flag) l.r_buffer;
      })
  acts :
      {t : System}
      → (step : Step message l.system t) → IsSilent step
      → SingleStep message l (record l { system = t })
  reads_sender :
      {q : List Wire}
      → Reads l.s_buffer l.system.s_out q
      → SingleStep message l (record l { system = record l.system { s_out = q } })
  reads_receiver :
      {q : List Wire}
      → Reads l.r_buffer l.system.r_out q
      → SingleStep message l (record l { system = record l.system { r_out = q } })

-- Both buffers hold what they have been set to at the creation.
abbrev pub connected_single : (ℕ → ℕ) → Single
connected_single message = record { system = connected message; s_buffer = 0; r_buffer = 0 }

pub data SingleRun (message : ℕ → ℕ) : Single → Single → Type 0 where
  stop : {l : Single} → SingleRun message l l
  step : {l m n : Single} → SingleStep message l m → SingleRun message m n → SingleRun message l n
