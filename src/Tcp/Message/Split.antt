-- ===== src/Tcp/Message/Split.antt =====
-- The messages of a round.
use network_infiniband_works.Base.{
  ℕ, zero, suc, ◌+◌, ◌-◌, ◌*◌, ◌/◌, ◌%◌, ◌<◌, ◌≤◌, ◌≡◌, refl, ap, arith, List, [], ◌∷◌, ◌++◌, none,
  some, true, ltb, if◌then◌else◌, length, replicate, set, Bool-cases, inl, inr, length-append,
  mul_pred, quotient_lem, length-replicate,
}
use network_infiniband_works.Wire.Hex.Digits.{All}
use network_infiniband_works.MultiThread.Launch.Split.{sum}
use network_infiniband_works.Tcp.Message.{
  Message, create_msg, make_msg, repeat_msg, split_evenly, stream_msgs, thread_msgs,
}

-- A message of as many 'w' as are sent, and a NUL.
abbrev pub IsText : Message → Type 0
IsText m = m.bytes ≡ replicate m.size 119 ++ (0 ∷ [])

abbrev pub sizes_of : List Message → List ℕ
sizes_of [] = []
sizes_of (m ∷ ms) = m.size ∷ sizes_of ms

text_of : ℕ → Message
text_of n = record { size = n; bytes = replicate n 119 ++ (0 ∷ []) }

set_end : (n a b v : ℕ) → set (replicate n a ++ (b ∷ [])) n v ≡ replicate n a ++ (v ∷ [])
set_end zero a b v = refl
set_end (suc n) a b v = ap (λ l. a ∷ l) (set_end n a b v)

make_msg_text : (junk n : ℕ) → make_msg junk n n n ≡ some (text_of n)
unfolding make_msg create_msg text_of
make_msg_text junk n =
    let l = length-append (replicate n 119) (junk ∷ []) in
    let r = length-replicate {A = ℕ} n 119 in
    let fits : ltb n (length (replicate n 119 ++ (junk ∷ []))) ≡ true = ground (arith, l, r) in
    rw fits (rw (set_end n 119 junk 0) refl)

repeat_some : (n : ℕ) (m : Message) → repeat_msg n (some m) ≡ some (replicate n m)
unfolding repeat_msg
repeat_some zero m = refl
repeat_some (suc n) m = let ih = repeat_some n m in rw ih refl

texts_IsText : (n size : ℕ) → All IsText (replicate n (text_of size))
unfolding text_of
texts_IsText zero size = tt
texts_IsText (suc n) size = (refl, texts_IsText n size)

sum-texts : (n size : ℕ) → sum (sizes_of (replicate n (text_of size))) ≡ size * n
unfolding text_of
sum-texts zero size = omega arith
sum-texts (suc n) size = let ih = sum-texts n size in grind (arith, ih)

repeat_none : (n : ℕ) → 1 ≤ n → repeat_msg n none ≡ none
unfolding repeat_msg
repeat_none zero h = absurd (omega arith)
repeat_none (suc n) h = refl

no_byte : (junk : ℕ) → make_msg junk 0 1 1 ≡ none
unfolding make_msg create_msg
no_byte junk = refl

-- What is known of the messages of a round.
abbrev pub IsSplit : (count total : ℕ) → List Message → Type 0
IsSplit count total ms = (length ms ≡ count) × All IsText ms × (sum (sizes_of ms) ≡ total)

texts-IsSplit :
    (first part count total : ℕ)
    → 1 ≤ count
    → first + part * (count - 1) ≡ total
    → IsSplit count total (text_of first ∷ replicate (count - 1) (text_of part))
unfolding text_of
texts-IsSplit first part count total some_msgs adds =
    let l = length-replicate (count - 1) (text_of part) in
    let s = sum-texts (count - 1) part in
    (omega (arith, l), (refl, texts_IsText (count - 1) part), omega (arith, s, adds))

split_evenly-IsSplit :
    (junk msg_size count : ℕ)
    → 1 ≤ count
    → (ms : List Message) × (split_evenly junk msg_size count ≡ some ms) × IsSplit count msg_size ms
unfolding split_evenly
split_evenly-IsSplit junk msg_size count some_msgs =
    let part = msg_size / count in
    let first = part + msg_size % count in
    (
      text_of first ∷ replicate (count - 1) (text_of part),
      rw (make_msg_text junk part, make_msg_text junk first, repeat_some (count - 1) (text_of part))
          refl,
      texts-IsSplit first part count msg_size some_msgs
          (omega (arith, quotient_lem msg_size count, mul_pred part count some_msgs)),
    )

-- The messages of a round of MultiStreamTcpClient.cpp, for at least one socket: one for each, of
-- 'w' and a NUL, all stores within their memory. Their sizes add up to the size of the round if that
-- has a byte for each socket; a smaller size is sent whole on the first socket, and one byte more
-- on each other.
pub stream_msgs-IsSplit :
    (junk msg_size count : ℕ)
    → 1 ≤ count
    → (ms : List Message) × (stream_msgs junk msg_size count ≡ some ms)
      × IsSplit count (if ltb msg_size count then msg_size + (count - 1) else msg_size) ms
unfolding stream_msgs
stream_msgs-IsSplit junk msg_size count some_msgs = elim (Bool-cases (ltb msg_size count)) [
  | inr enough ↦ rw enough (split_evenly-IsSplit junk msg_size count some_msgs)
  | inl small ↦ (
    text_of msg_size ∷ replicate (count - 1) (text_of 1),
    rw small (
        rw (make_msg_text junk msg_size, make_msg_text junk 1, repeat_some (count - 1) (text_of 1))
          refl),
    rw small (texts-IsSplit msg_size 1 count (msg_size + (count - 1)) some_msgs (omega arith)),
  )
]

-- Where the size of a round of MultiThreadTcpClient.cpp has no byte for each of two threads or more,
-- a store goes behind the end of the memory of a message.
pub thread_msgs_overflow :
    (junk msg_size count : ℕ)
    → 2 ≤ count
    → msg_size < count
    → thread_msgs junk msg_size count ≡ none
unfolding thread_msgs
thread_msgs_overflow junk msg_size count several small =
    let short : ltb msg_size count ≡ true = ground arith in
    rw short
      (rw (make_msg_text junk msg_size, no_byte junk, repeat_none (count - 1) (omega arith)) refl)
