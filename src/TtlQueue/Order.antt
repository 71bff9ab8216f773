-- ===== src/TtlQueue/Order.antt =====
-- What a history of calls of src/ttl_queue.rs delivers, and in which order.
use rust_ma_core.Common.{
  ℕ, ◌≡◌, refl, List, [], ◌∷◌, ◌++◌, append_assoc, append-nil, arith, leb, tail, length, to_list,
  if◌then◌else◌, IsSublist, done, skip, IsSublist-refl, IsSublist-trans, IsSublist-append, Bool,
  true, false, Bool-cases, inl, inr,
}
use rust_ma_core.TtlQueue.{
  TtlQueue, Op, pushes, pops, peeks, drains, is_expired, evict, push, pop, peek, drain, pop_front,
  items, step, run,
}

module _ {ℓ} {A : Type ℓ} where
  -- The items that the calls push, in the order of the calls.
  abbrev pub pushed : List (Op A) → List A
  pushed [] = []
  pushed (pushes now e a ∷ ops) = a ∷ pushed ops
  pushed (pops now ∷ ops) = pushed ops
  pushed (peeks now ∷ ops) = pushed ops
  pushed (drains now ∷ ops) = pushed ops

  pub items-append : (b c : List (ℕ × A)) → items (b ++ c) ≡ items b ++ items c
  items-append [] c = refl
  items-append ((e, a) ∷ b) c = ground (arith, items-append b c)

  evict-IsSublist : (now : ℕ) (b : List (ℕ × A)) → IsSublist (items (evict now b)) (items b)
  unfolding evict
  evict-IsSublist now [] = done
  evict-IsSublist now ((e, a) ∷ b) = elim (Bool-cases (is_expired now e)) [
    | inl old ↦ rw old (skip (evict-IsSublist now b))
    | inr fresh ↦ rw fresh (IsSublist-refl (a ∷ items b))
  ]

  tail-IsSublist : (b : List (ℕ × A)) → IsSublist (items (tail b)) (items b)
  tail-IsSublist [] = done
  tail-IsSublist ((e, a) ∷ b) = skip (IsSublist-refl (items b))

  pop_front-tail : (b : List (ℕ × A)) → to_list (pop_front b) ++ items (tail b) ≡ items b
  pop_front-tail [] = refl
  pop_front-tail ((e, a) ∷ b) = refl

  room-IsSublist :
      (full : Bool) (b : List (ℕ × A)) → IsSublist (items (if full then tail b else b)) (items b)
  room-IsSublist true b = tail-IsSublist b
  room-IsSublist false b = IsSublist-refl (items b)

  -- One call hands over, and keeps, a sublist of what was there and what it pushes.
  step-IsSublist :
      (q : TtlQueue A) (op : Op A)
      → IsSublist ((step q op).0 ++ items (step q op).1.buf) (items q.buf ++ pushed (op ∷ []))
  unfolding step push pop peek drain
  step-IsSublist q (pushes now e a) = rw items-append (
      IsSublist-append
        (IsSublist-trans
          (room-IsSublist (leb q.capacity (length (evict now q.buf))) (evict now q.buf))
          (evict-IsSublist now q.buf))
        (IsSublist-refl (a ∷ [])))
  step-IsSublist q (pops now) = rw (append-nil, pop_front-tail) (evict-IsSublist now q.buf)
  step-IsSublist q (peeks now) = rw append-nil (evict-IsSublist now q.buf)
  step-IsSublist q (drains now) = rw (append-nil, append-nil) (evict-IsSublist now q.buf)

  pushed-cons : (op : Op A) (ops : List (Op A)) → pushed (op ∷ ops) ≡ pushed (op ∷ []) ++ pushed ops
  pushed-cons (pushes now e a) ops = refl
  pushed-cons (pops now) ops = refl
  pushed-cons (peeks now) ops = refl
  pushed-cons (drains now) ops = refl

  -- What any calls hand over, followed by what they leave, is a sublist of what was there followed
  -- by what they pushed: nothing is delivered twice, out of order or without being pushed.
  pub run-IsSublist :
      (q : TtlQueue A) (ops : List (Op A))
      → IsSublist ((run q ops).0 ++ items (run q ops).1.buf) (items q.buf ++ pushed ops)
  unfolding run
  run-IsSublist q [] = rw append-nil (IsSublist-refl (items q.buf))
  run-IsSublist q (op ∷ ops) =
      rw (pushed-cons op ops, append_assoc, ← append_assoc (items q.buf))
        (IsSublist-trans
          (IsSublist-append (IsSublist-refl (step q op).0) (run-IsSublist (step q op).1 ops))
          (rw (← append_assoc (step q op).0)
            (IsSublist-append (step-IsSublist q op) (IsSublist-refl (pushed ops)))))
