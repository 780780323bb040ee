-- ===== src/Data/Sync/Missing.antt =====
-- What src/data/sync_manager.py takes to be missing.
use algo_engine.Prelude.{
  ℕ, zero, suc, ◌+◌, ◌-◌, ◌≤◌, ◌≡◌, ◌↔◌, refl, sym, ap, subst, ◌∙◌, Bool, true, false, not, ◌&&◌,
  ◌||◌, List, [], ◌∷◌, ◌++◌, ltb, leb, if◌then◌else◌, arith, Bool-cases, inl, inr,
}
use algo_engine.Prelude.Eq.{◌=?◌, nat_eq, elem}
use algo_engine.Data.Sync.{
  SyncGap, SequenceManager, new_sequences, count_from, gap_range, all_in, unresolved, gap_before,
  record_new, record_received, missing_of, missing_in, get_missing_sequences,
}

elem-append : (a : ℕ) (xs ys : List ℕ) → elem a (xs ++ ys) ≡ (elem a xs || elem a ys)
elem-append a [] ys = refl
elem-append a (x ∷ xs) ys = ground (arith, elem-append a xs ys)

-- The number is in one of the gaps.
abbrev covered : ℕ → List SyncGap → Bool
covered s [] = false
covered s (g ∷ gs) = (leb g.start_seq s && leb s g.end_seq) || covered s gs

elem-count_from : (s first n : ℕ) → elem s (count_from first n) ≡ (leb first s && ltb s (first + n))
elem-count_from s first zero = ground arith
elem-count_from s first (suc n) =
    ground (arith, elem-count_from s (suc first) n, nat_eq.beq_iff first s)

elem-gap_range :
    (s : ℕ) (g : SyncGap) → elem s (gap_range g) ≡ (leb g.start_seq s && leb s g.end_seq)
elem-gap_range s g = ground (arith, elem-count_from s g.start_seq ((g.end_seq + 1) - g.start_seq))

all_in-elem : (s : ℕ) (ns xs : List ℕ) → all_in ns xs ≡ true → elem s ns ≡ true → elem s xs ≡ true
all_in-elem s [] xs h k = ground arith
all_in-elem s (n ∷ ns) xs h k = elim (Bool-cases (n =? s)) [
  | inl e ↦
      let same : n ≡ s = (nat_eq.beq_iff n s).0 e in
      subst (λ x. elem x xs ≡ true) same (ground arith)
  | inr e ↦ all_in-elem s ns xs (ground arith) (ground arith)
]

elem-missing_of :
    (s : ℕ) (received ns : List ℕ)
    → elem s (missing_of received ns) ≡ (elem s ns && not (elem s received))
elem-missing_of s received [] = refl
elem-missing_of s received (n ∷ ns) = elim (Bool-cases (n =? s)) [
  | inl e ↦
      let same : n ≡ s = (nat_eq.beq_iff n s).0 e in
      ground (arith, elem-missing_of s received ns, ap (λ x. elem x received) same)
  | inr e ↦ ground (arith, elem-missing_of s received ns)
]

elem-missing_in :
    (s : ℕ) (received : List ℕ) (gs : List SyncGap)
    → elem s (missing_in received gs) ≡ (covered s gs && not (elem s received))
unfolding missing_in
elem-missing_in s received [] = refl
elem-missing_in s received (g ∷ gs) = ground (
  arith,
  elem-append s (missing_of received (gap_range g)) (missing_in received gs),
  elem-missing_of s received (gap_range g),
  elem-gap_range s g,
  elem-missing_in s received gs,
)

covered-append :
    (s : ℕ) (gs hs : List SyncGap) → covered s (gs ++ hs) ≡ (covered s gs || covered s hs)
covered-append s [] hs = refl
covered-append s (g ∷ gs) hs = ground (arith, covered-append s gs hs)

covered-unresolved :
    (s : ℕ) (received : List ℕ) (gs : List SyncGap)
    → (covered s (unresolved received gs) && not (elem s received))
      ≡ (covered s gs && not (elem s received))
unfolding unresolved
covered-unresolved s received [] = refl
covered-unresolved s received (g ∷ gs) = ground (
  arith,
  covered-unresolved s received gs,
  all_in-elem s (gap_range g) received,
  elem-gap_range s g,
)

-- The numbers that arrive, each with the time of its arrival.
abbrev pub record_all : List (ℕ × ℕ) → SequenceManager → SequenceManager
record_all [] m = m
record_all ((now, n) ∷ ns) m = let (_, _, m') = record_received now n m in record_all ns m'

abbrev pub has_arrived : ℕ → List (ℕ × ℕ) → Bool
has_arrived s [] = false
has_arrived s ((now, n) ∷ ns) = (n =? s) || has_arrived s ns

abbrev pub greater : ℕ → ℕ → ℕ
greater a b = if leb a b then b else a

abbrev pub highest : List (ℕ × ℕ) → ℕ
highest [] = 0
highest ((now, n) ∷ ns) = greater n (highest ns)

-- The manager has received the numbers of `p`, the highest of which is `h`.
record Tracks (p : ℕ → Bool) (h : ℕ) (m : SequenceManager) : Type 0 where
  pub received : (s : ℕ) → elem s m.received_sequences ≡ p s
  pub bounded : (s : ℕ) → p s ≡ true → s ≤ h
  pub expected : m.expected_next ≡ h + 1
  pub missing : (s : ℕ) → (covered s m.gaps && not (p s)) ≡ ((leb 1 s && leb s h) && not (p s))

Tracks-eq :
    (p q : ℕ → Bool) (h k : ℕ) (m : SequenceManager)
    → ((s : ℕ) → p s ≡ q s)
    → h ≡ k
    → Tracks p h m
    → Tracks q k m
Tracks-eq p q h k m e f t = record {
  received = λ s. t.received s ∙ e s;
  bounded = λ s i. ground (arith, t.bounded s, e s, f);
  expected = t.expected ∙ ap (λ x. x + 1) f;
  missing = λ s. ground (arith, t.missing s, e s, f);
}

covered-gap_before :
    (s now n x : ℕ) → covered s (gap_before now n x) ≡ (ltb x n && (leb x s && ltb s n))
covered-gap_before s now n x = ground arith

record_new-Tracks :
    (p : ℕ → Bool) (h now n : ℕ) (m : SequenceManager)
    → p n ≡ false
    → Tracks p h m
    → Tracks (λ s. p s || (n =? s)) (greater h n) (record_new now n m)
unfolding record_new
record_new-Tracks p h now n m new t =
    let received : (s : ℕ) → elem s (m.received_sequences ++ (n ∷ [])) ≡ (p s || (n =? s)) =
      λ s. ground (arith, elem-append s m.received_sequences (n ∷ []), t.received s) in
    record {
      received = received;
      bounded = λ s i. ground (arith, t.bounded s, nat_eq.beq_iff n s);
      expected = ground (arith, t.expected);
      missing = λ s. ground (
        arith,
        received s,
        covered-unresolved s (m.received_sequences ++ (n ∷ []))
            (m.gaps ++ gap_before now n m.expected_next),
        covered-append s m.gaps (gap_before now n m.expected_next),
        covered-gap_before s now n m.expected_next,
        t.expected,
        t.missing s,
        t.bounded s,
        nat_eq.beq_iff n s,
      );
    }

record_received-Tracks :
    (p : ℕ → Bool) (h now n : ℕ) (m : SequenceManager)
    → Tracks p h m
    → let (_, _, m') = record_received now n m in Tracks (λ s. p s || (n =? s)) (greater h n) m'
unfolding record_received
record_received-Tracks p h now n m t = elim (Bool-cases (elem n m.received_sequences)) [
  | inr new ↦ rw (new, record_received) (record_new-Tracks p h now n m (sym (t.received n) ∙ new) t)
  | inl old ↦
      let here : p n ≡ true = sym (t.received n) ∙ old in
      rw (old, record_received)
        (Tracks-eq p _ h _ m
          (λ s. elim (Bool-cases (n =? s)) [
            | inl e ↦ let same : n ≡ s = (nat_eq.beq_iff n s).0 e in ground (arith, ap p same)
            | inr e ↦ ground arith
          ])
          (ground (arith, t.bounded n here)) t)
]

record_all-Tracks :
    (ns : List (ℕ × ℕ)) (p : ℕ → Bool) (h : ℕ) (m : SequenceManager)
    → Tracks p h m
    → Tracks (λ s. p s || has_arrived s ns) (greater h (highest ns)) (record_all ns m)
record_all-Tracks [] p h m t = Tracks-eq p _ h _ m (λ s. ground arith) (ground arith) t
record_all-Tracks ((now, n) ∷ ns) p h m t =
    let p' = λ (s : ℕ). p s || (n =? s) in
    let (_, _, m') = record_received now n m in
    Tracks-eq (λ s. p' s || has_arrived s ns) _ (greater (greater h n) (highest ns)) _ _
      (λ s. ground arith) (ground arith)
      (record_all-Tracks ns p' (greater h n) m' (record_received-Tracks p h now n m t))

-- After any numbers have been received, in any order, with repetitions or not: a number is among
-- those that are reported as missing exactly if it is from 1 up to the highest number received and
-- has not been received itself.
pub record_all-missing :
    (size : ℕ) (ns : List (ℕ × ℕ)) (s : ℕ)
    → (elem s (get_missing_sequences (record_all ns (new_sequences size))) ≡ true)
      ↔ (1 ≤ s) × (s ≤ highest ns) × (has_arrived s ns ≡ false)
unfolding new_sequences get_missing_sequences
record_all-missing size ns s =
    let start : Tracks (λ _. false) 0 (new_sequences size) = record {
      received = λ s. refl;
      bounded = λ s i. ground (arith, i);
      expected = refl;
      missing = λ s. ground arith;
    } in
    let t = record_all-Tracks ns (λ _. false) 0 (new_sequences size) start in
    let m = record_all ns (new_sequences size) in
    ground (arith, elem-missing_in s m.received_sequences m.gaps, t.received s, t.missing s)
