-- ===== src/Protocol/Invariant/Wires.antt =====
-- Which operation of an outbox may be carried out next, for each form that an outbox takes.
use mpi_comp_match.Base.{◌≡◌, ◌⊎◌, inl, inr, List, [], ◌∷◌, arith}
use mpi_comp_match.Protocol.System.{Wire, fence, Takes, first, later}

pub Takes-nil : {l q : List Wire} {w : Wire} → Takes l w q → l ≡ [] → ⊥
Takes-nil first e = cc
Takes-nil (later nv nw t) e = cc

pub Takes-single :
    {l q : List Wire} {w : Wire} (x : Wire) → Takes l w q → l ≡ x ∷ [] → (w ≡ x) × (q ≡ [])
Takes-single x first e = ground arith
Takes-single x (later nv nw t) e = absurd (Takes-nil t (ground arith))

pub Takes-fence :
    {l q : List Wire} {w : Wire} (r : List Wire)
    → Takes l w q
    → l ≡ fence ∷ r
    → (w ≡ fence) × (q ≡ r)
Takes-fence r first e = ground arith
Takes-fence r (later nv nw t) e = absurd (nv (ground arith))

-- One operation in front of a fence.
pub Takes-one :
    {l q : List Wire} {w : Wire} (x : Wire) (r : List Wire)
    → Takes l w q
    → l ≡ x ∷ fence ∷ r
    → (w ≡ x) × (q ≡ fence ∷ r)
Takes-one x r first e = ground arith
Takes-one x r (later nv nw t) e = absurd (nw (Takes-fence r t (ground arith)).0)

-- Two operations in front of a fence, in either order.
pub Takes-two :
    {l q : List Wire} {w : Wire} (x y : Wire) (r : List Wire)
    → Takes l w q
    → l ≡ x ∷ y ∷ fence ∷ r
    → ((w ≡ x) × (q ≡ y ∷ fence ∷ r)) ⊎ ((w ≡ y) × (q ≡ x ∷ fence ∷ r))
Takes-two x y r first e = inl (ground arith, ground arith)
Takes-two x y r (later nv nw t) e =
    inr (
      ground (arith, Takes-one y r t (ground arith)),
      ground (arith, Takes-one y r t (ground arith)),
    )
