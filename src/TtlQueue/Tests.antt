-- ===== src/TtlQueue/Tests.antt =====
-- Runs of src/ttl_queue.rs, and its theorems at concrete queues.
use rust_ma_core.Common.{ℕ, ◌≡◌, refl, none, List, [], ◌∷◌, arith}
use rust_ma_core.TtlQueue.{TtlQueue, Op, pushes, pops, new, drain, step, run}
use rust_ma_core.TtlQueue.Bounds.{IsValid, run-IsValid}
use rust_ma_core.TtlQueue.Live.{pop_all, pop_all-eq-live}

-- `capacity_drops_oldest`, of the source's tests.
abbrev small : TtlQueue ℕ
small = record { buf = []; capacity = 2 }

abbrev crowd : List (Op ℕ)
crowd = pushes 100 0 1 ∷ pushes 100 0 2 ∷ pushes 100 0 3 ∷ pops 100 ∷ pops 100 ∷ pops 100 ∷ []

crowded : run small crowd ≡ (2 ∷ 3 ∷ [], small)
unfolding run step
crowded = refl

-- A live item at the front of an expired one.
abbrev buried : TtlQueue ℕ
buried = record { buf = (0, 7) ∷ (150, 8) ∷ (300, 9) ∷ []; capacity = 8 }

buried_drained : (drain 200 buried).0 ≡ 7 ∷ 8 ∷ 9 ∷ []
unfolding drain
buried_drained = refl

new_panics : new {A = ℕ} 0 ≡ none
unfolding new
new_panics = refl

small-IsValid : IsValid small
small-IsValid = record { room = omega arith; bounded = omega arith }

run-IsValid_example : IsValid (run small crowd).1
run-IsValid_example = run-IsValid small crowd small-IsValid

pop_all-eq-live_example : pop_all 3 200 buried ≡ 7 ∷ 9 ∷ []
pop_all-eq-live_example = pop_all-eq-live 200 buried
