-- ===== src/Rendezvous/Handshake/RoundTrip.antt =====
-- The handshake that `send_rdma_info` writes is the one that `receive_rdma_info` reads.
use mpi_comp_match.Base.{
  ℕ, zero, suc, ◌+◌, ◌/◌, ◌^◌, ◌<◌, ◌≢◌, ◌≤◌, true, ◌≡◌, refl, sym, ap, List, [], ◌∷◌, ◌++◌, length,
  take, drop, replicate, leb, ◌==◌, arith, length-append, drop-append,
}
use native.Mathlib.Nat.{pow-suc, zero-add, suc-add}
use mpi_comp_match.Rendezvous.Library.{Library, ucp_ep_rkey_unpack}
use mpi_comp_match.Rendezvous.Machine.{State, Returns, pure, actions, update_self, update-ne}
use mpi_comp_match.Rendezvous.Handshake.{read_rdma_info}
use mpi_comp_match.Rendezvous.Handshake.Message.{
  word_bytes, word_of, message, message_size, read_word, receive_into,
}
use mpi_comp_match.Rendezvous.Request.{sizeof_word}

pub length-word_bytes : (k v : ℕ) → length (word_bytes k v) ≡ k
unfolding word_bytes
length-word_bytes zero v = refl
length-word_bytes (suc k) v = ap suc (length-word_bytes k (v / 256))

word_of-word_bytes : (k v : ℕ) → v < 256 ^ k → word_of (word_bytes k v) ≡ v
unfolding word_bytes word_of
word_of-word_bytes zero v h = omega arith
word_of-word_bytes (suc k) v h =
    omega (arith, word_of-word_bytes k (v / 256) (omega (arith, pow-suc 256 k)))

length-replicate : (n a : ℕ) → length (replicate n a) ≡ n
length-replicate zero a = refl
length-replicate (suc n) a = ap suc (length-replicate n a)

drop-nil : (n : ℕ) → drop {A = ℕ} n [] ≡ []
drop-nil zero = refl
drop-nil (suc n) = refl

take-append : (xs ys : List ℕ) → take (length xs) (xs ++ ys) ≡ xs
take-append [] ys = refl
take-append (x ∷ xs) ys = ap (◌∷◌ x) (take-append xs ys)

drop-add : (m n : ℕ) (xs : List ℕ) → drop (m + n) xs ≡ drop n (drop m xs)
drop-add zero n xs = rw zero-add refl
drop-add (suc m) n [] = rw suc-add (sym (drop-nil n))
drop-add (suc m) n (y ∷ ys) = rw suc-add (drop-add m n ys)

pub receive_into-length : (xs : List ℕ) → receive_into (length xs) xs ≡ xs
unfolding receive_into
receive_into-length xs = take-append xs _

module _ (data_ptr flag_ptr : ℕ) (rkey_data rkey_flag : List ℕ) where
  abbrev keys : List ℕ
  keys = rkey_data ++ (replicate sizeof_word 0 ++ (rkey_flag ++ replicate sizeof_word 0))

  -- The message is as long as `msg_size` says.
  pub length-message :
      length (message data_ptr flag_ptr rkey_data rkey_flag)
      ≡ message_size (length rkey_data) (length rkey_flag)
  unfolding message message_size word_bytes
  length-message = omega (
    arith,
    length-append rkey_data (replicate 8 0 ++ (rkey_flag ++ replicate 8 0)),
    length-append rkey_flag (replicate 8 0),
  )

  le-length-message : 32 ≤ length (message data_ptr flag_ptr rkey_data rkey_flag)
  unfolding message_size
  le-length-message = omega (arith, length-message)

  drop-message : drop 32 (message data_ptr flag_ptr rkey_data rkey_flag) ≡ keys
  unfolding message word_bytes
  drop-message = refl

  drop-message_key :
      drop (32 + length rkey_data + 8) (message data_ptr flag_ptr rkey_data rkey_flag)
      ≡ rkey_flag ++ replicate sizeof_word 0
  drop-message_key = rw (drop-add, drop-add, drop-message, drop-append rkey_data) refl

  -- the last assertion of `receive_rdma_info`
  message_ends :
      (length (message data_ptr flag_ptr rkey_data rkey_flag)
        == (32 + length rkey_data + 8 + length rkey_flag + 8))
      ≡ true
  unfolding message_size
  message_ends = ground (arith, length-message)

  module _ {World : Type 0} where
    read_at :
        (position v : ℕ)
        → position + 8 ≤ 32
        → word_of (take 8 (drop position (message data_ptr flag_ptr rkey_data rkey_flag))) ≡ v
        → read_word {World = World} (message data_ptr flag_ptr rkey_data rkey_flag) position
          ≡ pure v
    unfolding read_word
    read_at position v fits e = rw (long, e) refl
      where
        long : leb (position + 8) (length (message data_ptr flag_ptr rkey_data rkey_flag)) ≡ true
        long = ground (arith, le-length-message)

    read_size_data :
        length rkey_data < 2 ^ 64
        → read_word {World = World} (message data_ptr flag_ptr rkey_data rkey_flag) 0
          ≡ pure (length rkey_data)
    unfolding message word_bytes
    read_size_data h = read_at 0 _ (omega arith) (word_of-word_bytes 8 (length rkey_data) h)

    read_size_flag :
        length rkey_flag < 2 ^ 64
        → read_word {World = World} (message data_ptr flag_ptr rkey_data rkey_flag) 8
          ≡ pure (length rkey_flag)
    unfolding message word_bytes
    read_size_flag h = read_at 8 _ (omega arith) (word_of-word_bytes 8 (length rkey_flag) h)

    read_data_ptr :
        data_ptr < 2 ^ 64
        → read_word {World = World} (message data_ptr flag_ptr rkey_data rkey_flag) 16
          ≡ pure data_ptr
    unfolding message word_bytes
    read_data_ptr h = read_at 16 _ (omega arith) (word_of-word_bytes 8 data_ptr h)

    read_flag_ptr :
        flag_ptr < 2 ^ 64
        → read_word {World = World} (message data_ptr flag_ptr rkey_data rkey_flag) 24
          ≡ pure flag_ptr
    unfolding message word_bytes
    read_flag_ptr h = read_at 24 _ (omega arith) (word_of-word_bytes 8 flag_ptr h)

-- What the receiving side has after it has read the message: both addresses, and the keys that the
-- library unpacks from two buffers that begin with the packed keys.
pub record HasRead {World : Type 0} (lib : Library World) (p data_ptr flag_ptr : ℕ)
    (rkey_data rkey_flag : List ℕ) (s s' : State World) : Type 0 where
  pub data_addr : (s'.heap p).remote_data_addr ≡ data_ptr
  pub flag_addr : (s'.heap p).remote_flag_addr ≡ flag_ptr
  pub calls :
      s'.log
      ≡ ucp_ep_rkey_unpack (s.heap p).ep (rkey_flag ++ replicate sizeof_word 0)
        ∷ ucp_ep_rkey_unpack
            (s.heap p).ep
            (rkey_data ++ (replicate sizeof_word 0 ++ (rkey_flag ++ replicate sizeof_word 0)))
        ∷ s.log
  pub data_rkey :
      (s'.heap p).remote_data_rkey
      ≡ (lib.perform
          (ucp_ep_rkey_unpack
            (s.heap p).ep
            (rkey_data ++ (replicate sizeof_word 0 ++ (rkey_flag ++ replicate sizeof_word 0))))
          s.world).0.handle
  pub others : (q : ℕ) → q ≢ p → (s'.heap q).remote_data_addr ≡ (s.heap q).remote_data_addr

module _ {World : Type 0} ⦃lib : Library World⦄ where
  -- From a buffer into which the message of `send_rdma_info` has been received, `receive_rdma_info`
  -- reads both addresses, unpacks each key from where it begins, and its last assertion holds, for
  -- addresses and key sizes of 64 bits. No other request's address changes.
  pub read_rdma_info-message :
      (s : State World) (p data_ptr flag_ptr : ℕ) (rkey_data rkey_flag : List ℕ)
      → data_ptr < 2 ^ 64
      → flag_ptr < 2 ^ 64
      → length rkey_data < 2 ^ 64
      → length rkey_flag < 2 ^ 64
      → let info = message data_ptr flag_ptr rkey_data rkey_flag in
        Returns
          (read_rdma_info p (length info) (receive_into (length info) info) s)
          λ _. HasRead lib p data_ptr flag_ptr rkey_data rkey_flag s
  unfolding read_rdma_info
  read_rdma_info-message s p d f kd kf hd hf hkd hkf =
      rw
        (
          receive_into-length,
          read_size_data d f kd kf hkd,
          read_size_flag d f kd kf hkf,
          read_data_ptr d f kd kf hd,
          read_flag_ptr d f kd kf hf,
        )
        (unfold actions in
          simp
            (
              drop-message d f kd kf,
              drop-message_key d f kd kf,
              message_ends d f kd kf,
              update_self,
            )
            (record {
              data_addr = simp update_self;
              flag_addr = simp update_self;
              calls = refl;
              data_rkey = simp update_self;
              others = λ q h. simp (update-ne, h);
            }))
