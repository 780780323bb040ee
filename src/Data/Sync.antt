-- ===== src/Data/Sync.antt =====
-- `SequenceManager` of src/data/sync_manager.py. Sequence numbers are natural numbers; the set of those
-- received is a list without repetitions, the earliest first. The completion rate, a float, is left out.
pub mod Missing
pub mod Manager
mod Tests
use algo_engine.Prelude.{
  ℕ, zero, suc, ◌+◌, ◌-◌, ◌≤◌, ◌≡◌, Bool, true, false, not, ◌&&◌, ◌||◌, Option, none, some, List,
  [], ◌∷◌, ◌++◌, ltb, leb, if◌then◌else◌, length,
}
use algo_engine.Prelude.Eq.{Eq, ◌=?◌, nat_eq, elem}

pub record SyncGap : Type 0 where
  pub start_seq : ℕ
  pub end_seq : ℕ
  pub detected_at : ℕ

pub record SequenceManager : Type 0 where
  pub window_size : ℕ
  pub current_seq : ℕ
  pub received_sequences : List ℕ
  -- the earliest first
  pub sequence_window : List ℕ
  pub gaps : List SyncGap
  pub expected_next : ℕ

-- `SequenceManager.__init__`
unfoldable pub new_sequences : ℕ → SequenceManager
new_sequences size = record {
  window_size = size;
  current_seq = 0;
  received_sequences = [];
  sequence_window = [];
  gaps = [];
  expected_next = 1;
}

-- `len` of a gap
unfoldable pub gap_length : SyncGap → ℕ
gap_length g = (g.end_seq + 1) - g.start_seq

-- So many numbers from the first on.
abbrev pub count_from : ℕ → ℕ → List ℕ
count_from first zero = []
count_from first (suc n) = first ∷ count_from (suc first) n

-- The numbers of a gap.
abbrev pub gap_range : SyncGap → List ℕ
gap_range g = count_from g.start_seq ((g.end_seq + 1) - g.start_seq)

abbrev pub all_in : List ℕ → List ℕ → Bool
all_in [] xs = true
all_in (n ∷ ns) xs = elem n xs && all_in ns xs

-- `get_next_sequence`
unfoldable pub get_next_sequence : SequenceManager → ℕ × SequenceManager
get_next_sequence m = (m.current_seq + 1, record m { current_seq = m.current_seq + 1 })

-- The loop of `_resolve_gaps`
unfoldable pub unresolved : List ℕ → List SyncGap → List SyncGap
unresolved received [] = []
unresolved received (g ∷ gs) =
    let rest = unresolved received gs in if all_in (gap_range g) received then rest else g ∷ rest

-- The gap before a number, if there is one.
abbrev pub gap_before : ℕ → ℕ → ℕ → List SyncGap
gap_before now sequence expected =
    if ltb expected sequence
    then record { start_seq = expected; end_seq = sequence - 1; detected_at = now } ∷ []
    else []

-- A deque with a greatest length drops its first element.
abbrev pub push_window : ℕ → ℕ → List ℕ → List ℕ
push_window size n [] = if ltb 0 size then n ∷ [] else []
push_window size n (x ∷ xs) =
    if leb size (length (x ∷ xs)) then xs ++ (n ∷ []) else (x ∷ xs) ++ (n ∷ [])

-- A number that was not received before.
unfoldable pub record_new : ℕ → ℕ → SequenceManager → SequenceManager
unfolding unresolved
record_new now n m =
    let received = m.received_sequences ++ (n ∷ []) in
    record m {
      received_sequences = received;
      sequence_window = push_window m.window_size n m.sequence_window;
      current_seq = if ltb m.current_seq n then n else m.current_seq;
      gaps = unresolved received (m.gaps ++ gap_before now n m.expected_next);
      expected_next = if leb m.expected_next n then n + 1 else m.expected_next;
    }

-- `record_received`, with the gap that is found as a list of at most one.
unfoldable pub record_received : ℕ → ℕ → SequenceManager → Bool × List SyncGap × SequenceManager
unfolding record_new
record_received now n m =
    if elem n m.received_sequences
    then (false, [], m)
    else (true, gap_before now n m.expected_next, record_new now n m)

abbrev pub missing_of : List ℕ → List ℕ → List ℕ
missing_of received [] = []
missing_of received (n ∷ ns) =
    let rest = missing_of received ns in if elem n received then rest else n ∷ rest

unfoldable pub missing_in : List ℕ → List SyncGap → List ℕ
missing_in received [] = []
missing_in received (g ∷ gs) = missing_of received (gap_range g) ++ missing_in received gs

-- `get_missing_sequences`
unfoldable pub get_missing_sequences : SequenceManager → List ℕ
unfolding missing_in
get_missing_sequences m = missing_in m.received_sequences m.gaps

-- `is_sequence_valid`
unfoldable pub is_sequence_valid : ℕ → SequenceManager → Bool
is_sequence_valid n m =
    let lowest = m.current_seq - m.window_size in
    leb (if ltb 1 lowest then lowest else 1) n && leb n (m.current_seq + 1000)

-- `reset`
unfoldable pub reset : SequenceManager → SequenceManager
reset m = record m {
  current_seq = 0;
  received_sequences = [];
  sequence_window = [];
  gaps = [];
  expected_next = 1;
}
