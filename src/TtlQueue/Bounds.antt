-- ===== src/TtlQueue/Bounds.antt =====
-- The capacity bound of src/ttl_queue.rs, kept by every operation.
use rust_ma_core.Common.{ℕ, ◌≤◌, ◌<◌, ◌≡◌, some, List, [], ◌∷◌, arith, length, tail, length-append}
use rust_ma_core.TtlQueue.{
  TtlQueue, Op, pushes, pops, peeks, drains, evict, new, push, pop, peek, drain, step, run,
}

pub record IsValid {ℓ} {A : Type ℓ} (q : TtlQueue A) : Type 0 where
  pub room : 0 < q.capacity
  pub bounded : length q.buf ≤ q.capacity

module _ {ℓ} {A : Type ℓ} where
  pub length-evict-le : (now : ℕ) (b : List (ℕ × A)) → length (evict now b) ≤ length b
  unfolding evict
  length-evict-le now [] = omega arith
  length-evict-le now ((e, a) ∷ b) = ground (arith, length-evict-le now b)

  length-tail-le : (b : List (ℕ × A)) → length (tail b) ≤ length b
  length-tail-le [] = omega arith
  length-tail-le (x ∷ b) = omega arith

  length-tail-lt : (b : List (ℕ × A)) (n : ℕ) → 0 < n → length b ≤ n → length (tail b) < n
  length-tail-lt [] n h k = h
  length-tail-lt (x ∷ b) n h k = omega arith

  pub new-IsValid : (n : ℕ) (q : TtlQueue A) → new n ≡ some q → IsValid q
  unfolding new
  new-IsValid n q h = ground arith

  push-IsValid : (now e : ℕ) (a : A) (q : TtlQueue A) → IsValid q → IsValid (push now e a q)
  unfolding push
  push-IsValid now e a q v = ground (
    arith,
    length-evict-le now q.buf,
    length-tail-lt (evict now q.buf) q.capacity v.room,
    length-append (evict now q.buf) ((e, a) ∷ []),
    length-append (tail (evict now q.buf)) ((e, a) ∷ []),
  )

  pub step-IsValid : (q : TtlQueue A) (op : Op A) → IsValid q → IsValid (step q op).1
  unfolding step pop peek drain
  step-IsValid q (pushes now e a) v = push-IsValid now e a q v
  step-IsValid q (pops now) v =
      ground (arith, length-evict-le now q.buf, length-tail-le (evict now q.buf))
  step-IsValid q (peeks now) v = ground (arith, length-evict-le now q.buf)
  step-IsValid q (drains now) v = ground arith

  -- From a valid queue, after any calls, the buffer holds at most `capacity` items, and the
  -- capacity is still positive.
  pub run-IsValid : (q : TtlQueue A) (ops : List (Op A)) → IsValid q → IsValid (run q ops).1
  unfolding run
  run-IsValid q [] v = v
  run-IsValid q (op ∷ ops) v = run-IsValid (step q op).1 ops (step-IsValid q op v)
