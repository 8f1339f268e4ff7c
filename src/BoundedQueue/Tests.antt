-- ===== src/BoundedQueue/Tests.antt =====
-- Queues of include/ratehub/bounded_queue.hpp at concrete inputs: capacity 3.
use ratehub.Prelude.{none, List, ℕ, ◌≡◌, refl, true, false, some, [], ◌∷◌, arith}
use ratehub.BoundedQueue.{BoundedQueue, push, pop, close}
use ratehub.BoundedQueue.Refine.{IsQueue, view}
use ratehub.BoundedQueue.Schedule.{
  Call, pushes, pops, closes, pushed, waited, popped, closed, run_calls, run_fifo,
  run_calls-refines,
}

-- 8 and 9 wait, round the end of the slots.
abbrev wrapped : BoundedQueue ℕ
wrapped = record { slots = 9 ∷ 7 ∷ 8 ∷ []; head = 2; size = 2; closed = false }

wrapped-IsQueue : IsQueue 3 wrapped
wrapped-IsQueue = record { storage = refl; head_in = omega arith; size_in = omega arith }

-- A full queue makes a push wait, and a closed one refuses it.
abbrev calls : List (Call ℕ)
calls = pushes 4 ∷ pushes 5 ∷ pops ∷ closes ∷ pushes 6 ∷ pops ∷ pops ∷ pops ∷ []

replies :
    run_calls 3 0 wrapped calls
    ≡ pushed true
      ∷ waited
      ∷ popped (some 8)
      ∷ closed
      ∷ pushed false
      ∷ popped (some 9)
      ∷ popped (some 4)
      ∷ popped none
      ∷ []
unfolding run_calls push pop close
replies = refl

run_calls-refines_example : run_calls 3 0 wrapped calls ≡ run_fifo 3 0 (view 3 0 wrapped) calls
run_calls-refines_example = run_calls-refines 3 0 wrapped calls wrapped-IsQueue
