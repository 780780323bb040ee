-- ===== src/Algorithms/Strategy/Terminal.antt =====
-- The end of a strategy's life (src/algorithms/strategy.py).
use algo_engine.Prelude.{◌≡◌, refl, ◌∙◌, List, [], ◌∷◌}
use algo_engine.Prelude.Eq.{Eq}
use algo_engine.Data.Aggregator.Bars.{Bar}
use algo_engine.Trading.Market.{Tick}
use algo_engine.Trading.Order.{Fill}
use algo_engine.Algorithms.Strategy.{
  take_tick, take_fill, stopped, Strategy, start, pause, resume, stop, take_bar, submit_order,
  no_order,
}

-- What happens to a strategy.
pub data Event (S D : Type 0) : Type 0 where
  starts pauses resumes stops : Event S D
  gets_bar : Bar S D → Event S D
  gets_tick : Tick S D → Event S D
  gets_fill : Fill S D → Event S D

module _ {S D : Type 0} ⦃eq : Eq S⦄ where
  unfoldable pub happen : Event S D → Strategy S D → Strategy S D
  unfolding start pause resume stop take_bar take_tick take_fill
  happen starts s = start s
  happen pauses s = pause s
  happen resumes s = resume s
  happen stops s = stop s
  happen (gets_bar b) s = take_bar b s
  happen (gets_tick t) s = take_tick t s
  happen (gets_fill g) s = take_fill g s

  abbrev pub happen_all : List (Event S D) → Strategy S D → Strategy S D
  happen_all [] s = s
  happen_all (x ∷ xs) s = happen_all xs (happen x s)

  happen_stopped :
      (x : Event S D) (s : Strategy S D)
      → s.state ≡ stopped
      → ((happen x s).state ≡ stopped)
        × ((happen x s).bars ≡ s.bars)
        × ((happen x s).latest_ticks ≡ s.latest_ticks)
  unfolding happen
  happen_stopped starts s h = rw (h, happen, start) (refl, refl, refl)
  happen_stopped pauses s h = rw (h, happen, pause) (refl, refl, refl)
  happen_stopped resumes s h = rw (h, happen, resume) (refl, refl, refl)
  happen_stopped stops s h = (refl, refl, refl)
  happen_stopped (gets_bar b) s h = rw (h, happen, take_bar) (refl, refl, refl)
  happen_stopped (gets_tick t) s h = rw (h, happen, take_tick) (refl, refl, refl)
  happen_stopped (gets_fill g) s h = (h, refl, refl)

  -- A strategy that is stopped stays stopped, keeps the bars and the latest ticks that it has and refuses
  -- orders, whatever starts, pauses, resumes, stops, bars, ticks and fills come after it.
  pub happen_all_stopped :
      (xs : List (Event S D)) (s : Strategy S D)
      → s.state ≡ stopped
      → ((happen_all xs s).state ≡ stopped)
        × ((happen_all xs s).bars ≡ s.bars)
        × ((happen_all xs s).latest_ticks ≡ s.latest_ticks)
        × (submit_order (happen_all xs s) ≡ no_order)
  unfolding submit_order
  happen_all_stopped [] s h = (h, refl, refl, rw (h, submit_order) refl)
  happen_all_stopped (x ∷ xs) s h =
      let (still, same, same') = happen_stopped x s h in
      let (a, b, c, d) = happen_all_stopped xs (happen x s) still in (a, b ∙ same, c ∙ same', d)
