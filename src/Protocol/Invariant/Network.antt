-- ===== src/Protocol/Invariant/Network.antt =====
-- The operations that the network carries out keep the invariant.
use mpi_comp_match.Base.{ℕ, ◌+◌, ◌*◌, ◌≡◌, ◌⊎◌, inl, inr, List, [], ◌∷◌, arith}
use mpi_comp_match.Protocol.System.{
  Wire, put_flag, get_data, fence, System, Takes, at_receiver, at_sender,
}
use mpi_comp_match.Protocol.Invariant.Defs.{
  Place, busy, resting, offering, offered, push_all, push_fence, push_flag, offer_all, offer_fence,
  fetch_all, fetch_fence, fetch_flag, Between, Fetching, Inv, between, pushing, fetching,
}
use mpi_comp_match.Protocol.Invariant.Wires.{
  Takes-nil, Takes-single, Takes-fence, Takes-one, Takes-two,
}

module _ (message : ℕ → ℕ) (s : System) {w : Wire} {q : List Wire} where
  reaches_receiver-Between :
      (k : ℕ) (b : Place)
      → (w ≡ put_flag ((k + 1) * 2 + 1)) × (q ≡ [])
      → Between message k offering b s
      → Between message k offered b (at_receiver w (record s { s_out = q }))
  unfolding at_receiver
  reaches_receiver-Between k busy t h = ground arith
  reaches_receiver-Between k resting t h = ground arith
  reaches_receiver-Between k offering t h = ground arith
  reaches_receiver-Between k offered t h = ground arith

  pub reaches_receiver-Inv :
      Takes s.s_out w q → Inv message s → Inv message (at_receiver w (record s { s_out = q }))
  unfolding at_receiver
  reaches_receiver-Inv t (between k offering b h) =
      between k offered b (reaches_receiver-Between k b (Takes-single _ t h.sender.2) h)
  reaches_receiver-Inv t (between k busy b h) = absurd (Takes-nil t h.sender.2)
  reaches_receiver-Inv t (between k resting b h) = absurd (Takes-nil t h.sender.2)
  reaches_receiver-Inv t (between k offered b h) = absurd (Takes-nil t h.sender.2)
  reaches_receiver-Inv t (pushing k push_all h) =
      pushing k push_fence (ground (arith, Takes-one _ _ t h.s_out))
  reaches_receiver-Inv t (pushing k push_fence h) =
      pushing k push_flag (ground (arith, Takes-fence _ t h.s_out))
  reaches_receiver-Inv t (pushing k push_flag h) =
      between (k + 1) busy busy (ground (arith, Takes-single _ t h.s_out))
  reaches_receiver-Inv t (fetching k j h) = absurd (Takes-nil t h.sender.2)

  reaches_sender-Between :
      (k : ℕ) (a : Place)
      → (w ≡ put_flag ((k + 1) * 2 + 1)) × (q ≡ [])
      → Between message k a offering s
      → Between message k a offered (at_sender w (record s { r_out = q }))
  unfolding at_sender
  reaches_sender-Between k busy t h = ground arith
  reaches_sender-Between k resting t h = ground arith
  reaches_sender-Between k offering t h = ground arith
  reaches_sender-Between k offered t h = ground arith

  -- An offer and the fetch behind it may be carried out in either order.
  reaches_sender-offer :
      (k : ℕ)
      → ((w ≡ put_flag ((k + 1) * 2 + 1))
          × (q ≡ get_data ∷ fence ∷ put_flag ((k + 1) * 2 + 2) ∷ []))
        ⊎ ((w ≡ get_data)
            × (q ≡ put_flag ((k + 1) * 2 + 1) ∷ fence ∷ put_flag ((k + 1) * 2 + 2) ∷ []))
      → Fetching message k offer_all s
      → Inv message (at_sender w (record s { r_out = q }))
  unfolding at_sender
  reaches_sender-offer k (inl t) h = fetching k fetch_all (ground arith)
  reaches_sender-offer k (inr t) h = fetching k offer_fence (ground arith)

  pub reaches_sender-Inv :
      Takes s.r_out w q → Inv message s → Inv message (at_sender w (record s { r_out = q }))
  unfolding at_sender
  reaches_sender-Inv t (between k a offering h) =
      between k a offered (reaches_sender-Between k a (Takes-single _ t h.receiver.2) h)
  reaches_sender-Inv t (between k a busy h) = absurd (Takes-nil t h.receiver.2)
  reaches_sender-Inv t (between k a resting h) = absurd (Takes-nil t h.receiver.2)
  reaches_sender-Inv t (between k a offered h) = absurd (Takes-nil t h.receiver.2)
  reaches_sender-Inv t (pushing k i h) = absurd (Takes-nil t h.receiver.2)
  reaches_sender-Inv t (fetching k offer_all h) =
      reaches_sender-offer k (Takes-two _ _ _ t h.r_out) h
  reaches_sender-Inv t (fetching k offer_fence h) =
      fetching k fetch_fence (ground (arith, Takes-one _ _ t h.r_out))
  reaches_sender-Inv t (fetching k fetch_all h) =
      fetching k fetch_fence (ground (arith, Takes-one _ _ t h.r_out))
  reaches_sender-Inv t (fetching k fetch_fence h) =
      fetching k fetch_flag (ground (arith, Takes-fence _ t h.r_out))
  reaches_sender-Inv t (fetching k fetch_flag h) =
      between (k + 1) busy busy (ground (arith, Takes-single _ t h.r_out))
