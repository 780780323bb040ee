-- ===== src/Data/Sync/Tests.antt =====
-- The theorems about src/data/sync_manager.py at inputs that meet their hypotheses.
use algo_engine.Prelude.{ℕ, ◌≤◌, ◌≡◌, ◌↔◌, true, false, none, List, [], ◌∷◌, String}
use algo_engine.Prelude.Eq.{nat_eq, string_eq, elem}
use algo_engine.Data.Sync.{new_sequences, get_missing_sequences}
use algo_engine.Data.Sync.Missing.{record_all, has_arrived, highest, record_all-missing}
use algo_engine.Data.Sync.Manager.{DataPacket, new_sync}
use algo_engine.Data.Sync.Manager.Buffer.{
  SyncCall, register, create, receive, ask_missing, answer_all, IsTrimmed, reachable-IsTrimmed,
}

-- 2 and 3 are late, and 3 never comes.
abbrev arrivals : List (ℕ × ℕ)
arrivals = (10, 1) ∷ (11, 4) ∷ (12, 2) ∷ (13, 4) ∷ []

record_all-missing_example :
    (elem 3 (get_missing_sequences (record_all arrivals (new_sequences 100))) ≡ true)
    ↔ (1 ≤ 3) × (3 ≤ highest arrivals) × (has_arrived 3 arrivals ≡ false)
record_all-missing_example = record_all-missing 100 arrivals 3

abbrev hash : String → String → ℕ → String
hash s datum n = datum

abbrev packet : DataPacket String
packet = record {
  symbol = "AUDUSD";
  data_timestamp = "t";
  sequence_number = 3;
  timestamp = 5;
  checksum = "t";
  source = "feed";
  retry_count = 0;
}

abbrev calls : List (SyncCall String)
calls =
    register 100 "AUDUSD"
    ∷ create 1 "AUDUSD" "t" "feed" none
    ∷ create 2 "EURUSD" "u" "feed" none
    ∷ receive 6 packet
    ∷ ask_missing "AUDUSD"
    ∷ []

reachable-IsTrimmed_example : IsTrimmed (answer_all hash calls new_sync)
reachable-IsTrimmed_example = reachable-IsTrimmed hash calls
