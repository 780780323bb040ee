-- ===== src/Engine/Events/Replay.antt =====
-- The specification of the subscriptions of src/engine/events.py: a plain list, and the changes of it.
use algo_engine.Prelude.{
  ℕ, ◌≡◌, ◌↔◌, refl, ap, Bool, true, false, not, ◌&&◌, List, [], ◌∷◌, ◌++◌, arith, if◌then◌else◌,
}
use algo_engine.Prelude.Eq.{Eq, ◌=?◌, nat_eq}
use algo_engine.Prelude.Dict.{get_or, insert, lookup-insert}
use algo_engine.Engine.Events.Types.{EventType, event_type_eq}
use algo_engine.Engine.Events.{remove_first}

-- What a handler is subscribed to, and whether as an async handler.
pub data Key : Type 0 where
  typed : EventType → Bool → Key
  global : Bool → Key

abbrev pub same_bool : Bool → Bool → Bool
same_bool true b = b
same_bool false b = not b

abbrev pub key_beq : Key → Key → Bool
key_beq (typed t a) (typed u b) = same_bool a b && (t =? u)
key_beq (typed t a) (global b) = false
key_beq (global a) (typed u b) = false
key_beq (global a) (global b) = same_bool a b

typed_path : (t u : EventType) (a : Bool) → ((t =? u) ≡ true) ↔ (typed t a ≡ typed u a)
typed_path t u a = (
  λ h. ap (λ x. typed x a) ((event_type_eq.beq_iff t u).0 h),
  λ h. (event_type_eq.beq_iff t u).1 (let same : t ≡ u = cc in same),
)

pub key_beq_iff : (j k : Key) → (key_beq j k ≡ true) ↔ (j ≡ k)
key_beq_iff (typed t true) (typed u true) = typed_path t u true
key_beq_iff (typed t true) (typed u false) = ((λ h. cc), (λ h. cc))
key_beq_iff (typed t false) (typed u true) = ((λ h. cc), (λ h. cc))
key_beq_iff (typed t false) (typed u false) = typed_path t u false
key_beq_iff (typed t a) (global b) = ((λ h. cc), (λ h. cc))
key_beq_iff (global a) (typed u b) = ((λ h. cc), (λ h. cc))
key_beq_iff (global true) (global true) = ((λ h. refl), (λ h. refl))
key_beq_iff (global true) (global false) = ((λ h. cc), (λ h. cc))
key_beq_iff (global false) (global true) = ((λ h. cc), (λ h. cc))
key_beq_iff (global false) (global false) = ((λ h. refl), (λ h. refl))

instance abbrev pub key_eq : Eq Key
key_eq = record { beq = key_beq; beq_iff = key_beq_iff }

-- Subscriptions in the order of their making.
module _ {K : Type 0} ⦃e : Eq K⦄ where
  -- The handlers of a key, in order.
  abbrev pub pick : K → List (K × ℕ) → List ℕ
  pick k [] = []
  pick k ((j, h) ∷ s) = if j =? k then h ∷ pick k s else pick k s

  -- The first subscription of a handler under a key goes.
  abbrev pub remove_one : K → ℕ → List (K × ℕ) → List (K × ℕ)
  remove_one k h [] = []
  remove_one k h ((j, g) ∷ s) = if (j =? k) && (g =? h) then s else (j, g) ∷ remove_one k h s

abbrev pub remove_if : {K : Type 0} → (K → Bool) → List (K × ℕ) → List (K × ℕ)
remove_if p [] = []
remove_if p ((j, g) ∷ s) = if p j then remove_if p s else (j, g) ∷ remove_if p s

module _ {K : Type 0} ⦃e : Eq K⦄ where
  pub pick-append :
      (k j : K) (h : ℕ) (s : List (K × ℕ))
      → pick k (s ++ ((j, h) ∷ [])) ≡ (if j =? k then pick k s ++ (h ∷ []) else pick k s)
  pick-append k j h [] = ground arith
  pick-append k j h ((i, g) ∷ s) = ground (arith, pick-append k j h s)

  pub pick-remove_one :
      (k j : K) (h : ℕ) (s : List (K × ℕ))
      → pick k (remove_one j h s) ≡ (if j =? k then remove_first h (pick k s) else pick k s)
  pick-remove_one k j h [] = ground arith
  pick-remove_one k j h ((i, g) ∷ s) =
      ground (arith, pick-remove_one k j h s, e.beq_iff i j, e.beq_iff i k, e.beq_iff j k)

  pub pick-remove_if :
      (p : K → Bool) (k : K) (s : List (K × ℕ))
      → pick k (remove_if p s) ≡ (if p k then [] else pick k s)
  pick-remove_if p k [] = ground arith
  pick-remove_if p k ((i, g) ∷ s) = ground (arith, pick-remove_if p k s, e.beq_iff i k)

  pub get_or-insert :
      (j k : K) (hs : List ℕ) (d : List (K × List ℕ))
      → get_or k [] (insert j hs d) ≡ (if j =? k then hs else get_or k [] d)
  get_or-insert j k hs d = ground (arith, lookup-insert j k hs d)

  pub get_or-change :
      (f : List ℕ → List ℕ) (j k : K) (d : List (K × List ℕ))
      → get_or k [] (insert j (f (get_or j [] d)) d)
        ≡ (if j =? k then f (get_or k [] d) else get_or k [] d)
  get_or-change f j k d = ground (arith, get_or-insert j k (f (get_or j [] d)) d, e.beq_iff j k)

abbrev pub is_typed : EventType → Key → Bool
is_typed t (typed u a) = t =? u
is_typed t (global a) = false

-- The calls of a client.
pub data Change : Type 0 where
  add_handler : Key → ℕ → Change
  remove_handler : Key → ℕ → Change
  clear_type : EventType → Change
  clear_all : Change

-- What the changes mean for a list of subscriptions.
abbrev pub amend : Change → List (Key × ℕ) → List (Key × ℕ)
amend (add_handler k h) s = s ++ ((k, h) ∷ [])
amend (remove_handler k h) s = remove_one k h s
amend (clear_type t) s = remove_if (is_typed t) s
amend clear_all s = []

unfoldable pub replay : List Change → List (Key × ℕ) → List (Key × ℕ)
replay [] s = s
replay (c ∷ cs) s = replay cs (amend c s)
