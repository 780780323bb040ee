-- ===== src/Data/Sync/Manager/Buffer.antt =====
-- The size of the packet buffer of src/data/sync_manager.py.
use algo_engine.Prelude.{
  ℕ, ◌+◌, ◌≤◌, ◌≡◌, ◌≢◌, refl, ◌∙◌, Option, none, List, [], ◌∷◌, String, ltb, length, arith,
  Bool-cases, Option-cases, inl, inr,
}
use algo_engine.Prelude.Eq.{Eq, nat_eq, beq_refl}
use algo_engine.Prelude.Dict.{
  Dict, lookup, insert, contains, length-insert_le, length-insert_old, length-erase,
  lookup-insert_self,
}
use algo_engine.Data.Sync.{record_received, get_missing_sequences}
use algo_engine.Data.Sync.Manager.{
  DataPacket, DataSyncManager, new_sync, oldest_key, put_packet, take_packets, register_symbol,
  unregister_symbol, create_packet, receive_packet, verify_checksum, get_missing_packets,
  reset_symbol, sequences_of,
}

-- The oldest key is in the buffer if the other key is.
oldest_key-lookup :
    {A : Type 0} (d whole : Dict ℕ A) (k : ℕ)
    → lookup k whole ≢ none
    → ((j : ℕ) → lookup j d ≢ none → lookup j whole ≢ none)
    → lookup (oldest_key k d) whole ≢ none
oldest_key-lookup [] whole k h sub = h
oldest_key-lookup ((j, x) ∷ d) whole k h sub = elim (Bool-cases (ltb j k)) [
  | inl less ↦ rw less (
      oldest_key-lookup d whole j (sub j (ground (arith, beq_refl j)))
        (λ i g. sub i (ground (arith, g))))
  | inr more ↦ rw more (oldest_key-lookup d whole k h (λ i g. sub i (ground (arith, g))))
]

module _ {S : Type 0} where
  put_packet-length :
      (size n : ℕ) (p : DataPacket S) (d : Dict ℕ (DataPacket S))
      → length d ≤ size
      → length (put_packet size n p d) ≤ size
  put_packet-length size n p d h =
      let d' = insert n p d in
      let self = lookup-insert_self n p d in
      let here : lookup n d' ≢ none = λ e. ground (arith, self, e) in
      let found = oldest_key-lookup d' d' n here (λ j g. g) in
      elim (Bool-cases (ltb size (length d'))) [
        | inr fits ↦ rw fits (ground (arith, fits))
        | inl large ↦ rw large (elim (Option-cases (lookup (oldest_key n d') d')) [
          | inl gone ↦ absurd (found gone)
          | inr (q, there) ↦
              ground (arith, length-erase (oldest_key n d') d' there, length-insert_le n p d)
        ])
      ]

  take_packets-length :
      (ns : List ℕ) (d : Dict ℕ (DataPacket S)) → length (take_packets ns d).1 ≡ length d
  take_packets-length [] d = refl
  take_packets-length (n ∷ ns) d = elim (Option-cases (lookup n d)) [
    | inl gone ↦ rw (gone, take_packets) (take_packets-length ns d)
    | inr (p, there) ↦
        let p' : DataPacket S = record p { retry_count = p.retry_count + 1 } in
        rw (there, take_packets)
          (take_packets-length ns (insert n p' d) ∙ length-insert_old n p' d there)
  ]

module _ {S : Type 0} where
  -- The buffer has at most its size.
  abbrev pub IsTrimmed : DataSyncManager S → Type 0
  IsTrimmed m = length m.packet_buffer ≤ m.buffer_size

-- A call of the manager.
pub data SyncCall (S : Type 0) : Type 0 where
  register : ℕ → S → SyncCall S
  unregister : S → SyncCall S
  create : ℕ → S → String → String → Option ℕ → SyncCall S
  receive : ℕ → DataPacket S → SyncCall S
  ask_missing : S → SyncCall S
  restart : S → SyncCall S

module _ {S : Type 0} ⦃eq : Eq S⦄ (hash : S → String → ℕ → String) where
  unfoldable pub answer : SyncCall S → DataSyncManager S → DataSyncManager S
  answer (register size s) m = register_symbol size s m
  answer (unregister s) m = unregister_symbol s m
  answer (create now s datum source n) m = (create_packet hash now s datum source n m).1
  answer (receive now p) m = let (_, _, m') = receive_packet hash now p m in m'
  answer (ask_missing s) m = (get_missing_packets s m).1
  answer (restart s) m = reset_symbol s m

  abbrev pub answer_all : List (SyncCall S) → DataSyncManager S → DataSyncManager S
  answer_all [] m = m
  answer_all (c ∷ cs) m = answer_all cs (answer c m)

  register_symbol-IsTrimmed :
      (size : ℕ) (s : S) (m : DataSyncManager S)
      → IsTrimmed m
      → IsTrimmed (register_symbol size s m)
  unfolding register_symbol
  register_symbol-IsTrimmed size s m h = elim (Bool-cases (contains s m.sequence_managers)) [
    | inl old ↦ rw (old, register_symbol) h
    | inr new ↦ rw (new, register_symbol) h
  ]

  unregister_symbol-IsTrimmed :
      (s : S) (m : DataSyncManager S) → IsTrimmed m → IsTrimmed (unregister_symbol s m)
  unfolding unregister_symbol
  unregister_symbol-IsTrimmed s m h = elim (Bool-cases (contains s m.sequence_managers)) [
    | inl old ↦ rw (old, unregister_symbol) h
    | inr new ↦ rw (new, unregister_symbol) h
  ]

  create_packet-IsTrimmed :
      (now : ℕ) (s : S) (datum source : String) (n : Option ℕ) (m : DataSyncManager S)
      → IsTrimmed m
      → IsTrimmed (create_packet hash now s datum source n m).1
  unfolding create_packet
  create_packet-IsTrimmed now s datum source n m h =
      let m1 = register_symbol 10000 s m in
      put_packet-length m1.buffer_size _ _ m1.packet_buffer (register_symbol-IsTrimmed 10000 s m h)

  receive_packet-IsTrimmed :
      (now : ℕ) (p : DataPacket S) (m : DataSyncManager S)
      → IsTrimmed m
      → let (_, _, m') = receive_packet hash now p m in IsTrimmed m'
  unfolding receive_packet
  receive_packet-IsTrimmed now p m h =
      let m1 = register_symbol 10000 p.symbol m in
      let h1 = register_symbol-IsTrimmed 10000 p.symbol m h in
      let (new, _, _) = record_received now p.sequence_number (sequences_of p.symbol m1) in
      elim (Bool-cases (verify_checksum hash p)) [
        | inr bad ↦ rw (bad, receive_packet) h1
        | inl good ↦ elim (Bool-cases new) [
          | inl fresh ↦ rw (good, fresh, receive_packet) h1
          | inr old ↦ rw (good, old, receive_packet) h1
        ]
      ]

  get_missing_packets-IsTrimmed :
      (s : S) (m : DataSyncManager S) → IsTrimmed m → IsTrimmed (get_missing_packets s m).1
  unfolding get_missing_packets
  get_missing_packets-IsTrimmed s m h = elim (Option-cases (lookup s m.sequence_managers)) [
    | inl gone ↦ rw (gone, get_missing_packets) h
    | inr (q, there) ↦
        rw (there, get_missing_packets)
          (ground (arith, take_packets-length (get_missing_sequences q) m.packet_buffer, h))
  ]

  answer-IsTrimmed : (c : SyncCall S) (m : DataSyncManager S) → IsTrimmed m → IsTrimmed (answer c m)
  unfolding answer reset_symbol
  answer-IsTrimmed (register size s) m h = register_symbol-IsTrimmed size s m h
  answer-IsTrimmed (unregister s) m h = unregister_symbol-IsTrimmed s m h
  answer-IsTrimmed (create now s datum source n) m h =
      create_packet-IsTrimmed now s datum source n m h
  answer-IsTrimmed (receive now p) m h = receive_packet-IsTrimmed now p m h
  answer-IsTrimmed (ask_missing s) m h = get_missing_packets-IsTrimmed s m h
  answer-IsTrimmed (restart s) m h = h

  answer_all-IsTrimmed :
      (cs : List (SyncCall S)) (m : DataSyncManager S) → IsTrimmed m → IsTrimmed (answer_all cs m)
  answer_all-IsTrimmed [] m h = h
  answer_all-IsTrimmed (c ∷ cs) m h = answer_all-IsTrimmed cs (answer c m) (answer-IsTrimmed c m h)

  -- From a new manager, whatever the checksum is, after any registrations, packets created and
  -- received, requests for missing packets and resets, the buffer has at most as many packets as its size.
  pub reachable-IsTrimmed : (cs : List (SyncCall S)) → IsTrimmed (answer_all cs new_sync)
  unfolding new_sync
  reachable-IsTrimmed cs = answer_all-IsTrimmed cs new_sync (ground arith)
