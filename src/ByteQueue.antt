-- ===== src/ByteQueue.antt =====
-- A first-in first-out queue of bytes with a limit: what `SFB::RingBuffer` promises its callers.
use cxxaudio_utilities.Base.{
  ℕ, ◌-◌, Bool, List, [], ◌∷◌, ◌++◌, min, leb, if◌then◌else◌, length, take, drop,
}

-- How many of `byte_count` bytes are moved where `possible` can be: all that can with
-- `allow_partial`, and all or none without.
unfoldable pub transferred : ℕ → ℕ → Bool → ℕ
transferred possible byte_count allow_partial =
    if allow_partial
    then min possible byte_count
    else (if leb byte_count possible then byte_count else 0)

-- What a caller asks of a queue. A read names the memory that it fills.
pub data Request : Type 0 where
  put : List ℕ → Bool → Request
  get : List ℕ → Bool → Request
  look : List ℕ → Bool → Request
  clear : Request

-- What it is told: a number of bytes, and its memory afterwards.
pub data Reply : Type 0 where
  count : ℕ → Reply
  bytes : ℕ → List ℕ → Reply
  done : Reply

-- The memory with the front of the queue copied to its start.
abbrev pub deliver : List ℕ → List ℕ → ℕ → List ℕ
deliver q memory n = take n q ++ drop n memory

-- The answer to a request, and the queue after it.
unfoldable pub serve : ℕ → List ℕ → Request → Reply × List ℕ
unfolding transferred
serve limit q (put source allow_partial) =
    let n = transferred (limit - length q) (length source) allow_partial in
    (count n, q ++ take n source)
serve limit q (get memory allow_partial) =
    let n = transferred (length q) (length memory) allow_partial in
    (bytes n (deliver q memory n), drop n q)
serve limit q (look memory allow_partial) =
    let n = transferred (length q) (length memory) allow_partial in
    (bytes n (deliver q memory n), q)
serve limit q clear = (done, [])

unfoldable pub serve_all : ℕ → List ℕ → List Request → List Reply
serve_all limit q [] = []
serve_all limit q (a ∷ as') = let (reply, q') = serve limit q a in reply ∷ serve_all limit q' as'
