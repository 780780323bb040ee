-- ===== src/Fix/Tests.antt =====
-- Runs of the model of src/protocols/fix_handler.py, and the theorems about it at inputs that meet
-- their hypotheses.
use algo_engine.Prelude.{ℕ, ◌≡◌, ◌≢◌, refl, true, some, List, [], ◌∷◌, ◌++◌, arith, All}
use algo_engine.Prelude.Eq.{int_eq}
use algo_engine.Prelude.Int.{pos}
use algo_engine.Prelude.Dict.{lookup}
use algo_engine.Fix.Text.{Text, codes, str_nat, str_int, print_digits, soh}
use algo_engine.Fix.Message.{FixMessage, msg_type}
use algo_engine.Fix.Message.Builders.{market_data_request, market_data_request_last}
use algo_engine.Fix.Wire.{encode, encode_str, parse_bytes, body_fields}
use algo_engine.Fix.Wire.RoundTrip.{parse_bytes-encode}
use algo_engine.Fix.Wire.Pairs.{IsSendable, on_the_wire}
use algo_engine.Fix.Wire.Layout.{IsFramed, encode_str-IsFramed}
use algo_engine.Fix.Framing.{process_buffer, read_chunks}
use algo_engine.Fix.Framing.Chunks.{concat, read_chunks-eq-process_buffer}
use algo_engine.Fix.Framing.Frames.{encode_all, IsTransferable, read_chunks-encode_all}
use algo_engine.Fix.Connection.{FixConnection, monitor_turn, monitor_turn_reconnects}
use algo_engine.Fix.Session.{
  FixSession, FixSessionConfig, SessionState, disconnected, logon_sent, logged_on, Environment,
  Outcome, done, connection_error, send, handle_admin,
}
use algo_engine.Fix.Session.Connection.{new_session, connect, disconnect}
use algo_engine.Fix.Session.Numbers.{send_each, Numbered, send_each-Numbered}

abbrev sample : FixMessage
sample =
    (pos 49, codes "ALGO")
    ∷ (pos 56, codes "BRK")
    ∷ (pos 34, codes "7")
    ∷ (pos 35, codes "0")
    ∷ (pos 58, codes "a=b")
    ∷ []

-- The first half of the encoding of `sample`, and the second.
abbrev first_half : List ℕ
first_half =
    codes "8=FIX.4.4" ++ (soh ∷ (codes "9=32" ++ (soh ∷ (codes "49=ALGO" ++ (soh ∷ codes "56")))))

abbrev second_half : List ℕ
second_half =
    codes "=BRK"
    ++ (soh
        ∷ (codes "34=7"
            ++ (soh
                ∷ (codes "35=0"
                    ++ (soh ∷ (codes "58=a=b" ++ (soh ∷ (codes "10=176" ++ (soh ∷ [])))))))))

sample_encodes : encode sample ≡ some (first_half ++ second_half)
unfolding encode encode_str algo_engine.Fix.Wire.pair_text str_int algo_engine.Fix.Text.pad_three
sample_encodes = refl

sample_encodes_str : encode_str sample ≡ some (first_half ++ second_half)
unfolding encode_str algo_engine.Fix.Wire.pair_text str_int algo_engine.Fix.Text.pad_three
sample_encodes_str = refl

sample_encodes_all : encode_all (sample ∷ []) ≡ some (concat (first_half ∷ second_half ∷ []))
unfolding encode_all encode algo_engine.Fix.Wire.pair_text str_int algo_engine.Fix.Text.pad_three
sample_encodes_all = refl

sample-IsSendable : IsSendable sample
sample-IsSendable = record {
  distinct = (refl, (refl, (refl, (refl, (refl, tt)))));
  plain = omega arith;
}

sample-IsTransferable : IsTransferable sample
unfolding body_fields algo_engine.Fix.Wire.pair_text str_int
sample-IsTransferable = (sample-IsSendable, (refl, (refl, (refl, (refl, (refl, tt))))))

read_chunks-encode_all_example :
    read_chunks [] (first_half ∷ second_half ∷ []) ≡ (on_the_wire sample ∷ [], [])
read_chunks-encode_all_example =
    read_chunks-encode_all (sample ∷ []) (first_half ∷ second_half ∷ []) (sample-IsTransferable, tt)
      sample_encodes_all

parse_bytes-encode_example : parse_bytes (first_half ++ second_half) ≡ on_the_wire sample
parse_bytes-encode_example =
    parse_bytes-encode sample (first_half ++ second_half) sample-IsSendable sample_encodes

read_chunks-eq-process_buffer_example :
    read_chunks [] (first_half ∷ second_half ∷ []) ≡ process_buffer (first_half ++ second_half)
read_chunks-eq-process_buffer_example =
    read_chunks-eq-process_buffer (first_half ∷ second_half ∷ [])

sample_has_body : body_fields sample ≢ []
unfolding body_fields
sample_has_body = ground arith

encode_str-IsFramed_example : IsFramed sample (first_half ++ second_half)
encode_str-IsFramed_example =
    encode_str-IsFramed sample (first_half ++ second_half) sample_has_body sample_encodes_str

abbrev config : FixSessionConfig
config = record {
  sender_comp_id = codes "ALGO";
  target_comp_id = codes "BRK";
  username = [];
  password = [];
  heart_bt_int = 30;
  reset_seq_numbers = true;
  max_reconnect_attempts = 3;
}

-- A session that is logged on and has used four numbers.
abbrev online : FixSession
unfolding new_session
online = record (new_session config) { state = logged_on; writer = true; seq_num_out = 5 }

abbrev env : Environment
env = record { monotonic = 9; timestamp = codes "20240101"; drains = true }

abbrev order : FixMessage
order = (pos 35, codes "D") ∷ (pos 55, codes "AUD") ∷ []

abbrev test_request : FixMessage
test_request = (pos 35, codes "1") ∷ (pos 112, codes "ping") ∷ []

abbrev two_orders : List (Environment × FixMessage)
two_orders = (env, order) ∷ (env, order) ∷ []

two_orders_sent : All (λ r. r ≡ done) (send_each two_orders online).0
unfolding send_each send encode algo_engine.Fix.Session.stamp algo_engine.Fix.Wire.pair_text str_int
    online algo_engine.Fix.Text.pad_three
two_orders_sent = (refl, (refl, tt))

send_each-Numbered_example :
    Numbered 5 2 (send_each two_orders online).1.written []
    × ((send_each two_orders online).1.seq_num_out ≡ 7)
unfolding online
send_each-Numbered_example = send_each-Numbered two_orders online two_orders_sent

leaves : (disconnect env (codes "bye") online).0 ≡ done
unfolding disconnect online encode algo_engine.Fix.Message.Builders.logout
    algo_engine.Fix.Wire.pair_text str_int algo_engine.Fix.Text.pad_three
leaves = refl

returns : (connect (λ i. true) env (disconnect env (codes "bye") online).1).0 ≡ done
unfolding connect disconnect online encode algo_engine.Fix.Message.Builders.logout
    algo_engine.Fix.Message.Builders.logon algo_engine.Fix.Wire.pair_text str_int
    algo_engine.Fix.Text.pad_three
returns = refl

answers : (handle_admin env test_request online).0 ≡ done
unfolding handle_admin algo_engine.Fix.Text.text_eq msg_type encode algo_engine.Fix.Session.stamp
    algo_engine.Fix.Message.Builders.heartbeat algo_engine.Fix.Wire.pair_text str_int online
    algo_engine.Fix.Text.pad_three
answers = refl

asks : msg_type test_request ≡ codes "1"
unfolding msg_type
asks = refl

abbrev offline : FixConnection
unfolding new_session
offline = record { session = new_session config; monitoring = true }

reconnects : (connect (λ i. true) env offline.session).0 ≡ done
unfolding connect offline encode algo_engine.Fix.Message.Builders.logon
    algo_engine.Fix.Wire.pair_text str_int algo_engine.Fix.Text.pad_three
reconnects = refl

monitor_turn_reconnects_example :
    let s = (monitor_turn (λ i. true) env offline).session in
    (m : FixMessage) × (lookup (pos 35) m ≡ some (codes "A"))
    × (lookup (pos 34) m ≡ some (str_nat 1))
    × (s.written ≡ m ∷ [])
    × (s.state ≡ logon_sent)
    × (s.seq_num_out ≡ 2)
unfolding offline
monitor_turn_reconnects_example = monitor_turn_reconnects (λ i. true) env offline refl reconnects
