-- ===== src/Tcp/Message.antt =====
-- Metrics.cpp, `createMsg`, and how the two clients split a size over their messages.
pub mod Split
use network_infiniband_works.Base.{
  ℕ, zero, suc, ◌+◌, ◌-◌, ◌/◌, ◌%◌, List, [], ◌∷◌, ◌++◌, Option, none, some, Bool, ltb,
  if◌then◌else◌, replicate, length,
}
use network_infiniband_works.Metrics.{store, ◌>>=◌}

-- `sizeMsg + 1` bytes of fresh memory, of which the last is not written.
unfoldable pub create_msg : (junk size base : ℕ) → List ℕ
create_msg junk size base = replicate size base ++ (junk ∷ [])

-- A message with the size that is sent of it.
pub record Message : Type 0 where
  pub size : ℕ
  pub bytes : List ℕ

-- `createMsg (alloc, …, &msgs[i]); msgs[i][end] = '\0'; msgSizes[i] = size;`, none where the store
-- goes behind the end of the memory. The character is 'w'.
unfoldable pub make_msg : (junk alloc end size : ℕ) → Option Message
unfolding create_msg
make_msg junk alloc end size = do
  bytes ← store (create_msg junk alloc 119) end 0
  some (record { size = size; bytes = bytes })

unfoldable pub repeat_msg : ℕ → Option Message → Option (List Message)
repeat_msg zero m = some []
repeat_msg (suc n) m = do x ← m; xs ← repeat_msg n m; some (x ∷ xs)

module _ (junk msg_size count : ℕ) where
  -- The branch for sizes of at least one byte for each message: the first takes the remainder.
  unfoldable pub split_evenly : Option (List Message)
  unfolding make_msg repeat_msg
  split_evenly =
      let part = msg_size / count in
      let first = part + msg_size % count in
      do
        rest ← repeat_msg (count - 1) (make_msg junk part part part)
        m ← make_msg junk first first first
        some (m ∷ rest)

  -- The data of a round in MultiStreamTcpClient.cpp.
  unfoldable pub stream_msgs : Option (List Message)
  unfolding split_evenly
  stream_msgs =
      if ltb msg_size count
      then (do
        m ← make_msg junk msg_size msg_size msg_size
        rest ← repeat_msg (count - 1) (make_msg junk 1 1 1)
        some (m ∷ rest))
      else split_evenly

  -- The data of a round in MultiThreadTcpClient.cpp, where the messages of one byte have no byte.
  unfoldable pub thread_msgs : Option (List Message)
  unfolding split_evenly
  thread_msgs =
      if ltb msg_size count
      then (do
        m ← make_msg junk msg_size msg_size msg_size
        rest ← repeat_msg (count - 1) (make_msg junk 0 1 1)
        some (m ∷ rest))
      else split_evenly
