-- ===== src/Rendezvous/Handshake/Message.antt =====
-- The bytes of the handshake: two sizes, two addresses and two packed remote keys, each key behind
-- with eight zero bytes. Words are stored in the byte order of the machine, least byte first.
use mpi_comp_match.Base.{
  ℕ, zero, suc, ◌+◌, ◌*◌, ◌/◌, ◌%◌, List, [], ◌∷◌, ◌++◌, length, take, drop, replicate, leb,
  if◌then◌else◌,
}
use mpi_comp_match.Rendezvous.Request.{sizeof_word}
use mpi_comp_match.Rendezvous.Machine.{M, pure, fail, undefined_behaviour}

-- The k low bytes of a word.
unfoldable pub word_bytes : ℕ → ℕ → List ℕ
word_bytes zero v = []
word_bytes (suc k) v = v % 256 ∷ word_bytes k (v / 256)

unfoldable pub word_of : List ℕ → ℕ
word_of [] = 0
word_of (b ∷ bs) = b + 256 * word_of bs

abbrev pub word : ℕ → List ℕ
word v = word_bytes sizeof_word v

-- `msg_size`
unfoldable pub message_size : ℕ → ℕ → ℕ
message_size size_data size_flag =
    sizeof_word * 2 + sizeof_word * 2 + size_data + size_flag + sizeof_word * 2

-- What `send_rdma_info` writes, in the order of its writes.
unfoldable pub message : (data_ptr flag_ptr : ℕ) (rkey_data rkey_flag : List ℕ) → List ℕ
message data_ptr flag_ptr rkey_data rkey_flag =
    word (length rkey_data)
    ++ (word (length rkey_flag)
        ++ (word data_ptr
            ++ (word flag_ptr
                ++ (rkey_data
                    ++ (replicate sizeof_word 0 ++ (rkey_flag ++ replicate sizeof_word 0))))))

-- A word at a position of a buffer.
unfoldable pub read_word : {World : Type 0} → List ℕ → ℕ → M World ℕ
read_word bytes position =
    if leb (position + sizeof_word) (length bytes)
    then pure (word_of (take sizeof_word (drop position bytes)))
    else fail undefined_behaviour

-- `calloc(count, 1)` with a message received into it
unfoldable pub receive_into : ℕ → List ℕ → List ℕ
receive_into count received = take count (received ++ replicate count 0)
