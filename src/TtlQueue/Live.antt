-- ===== src/TtlQueue/Live.antt =====
-- The operations of src/ttl_queue.rs on the items that have not expired.
use rust_ma_core.Common.{
  ℕ, zero, suc, ◌≤◌, ◌≡◌, refl, Bool, not, none, some, List, [], ◌∷◌, ◌++◌, arith, leb, length,
  tail, retain-append, length-retain-le, if◌then◌else◌,
}
use rust_ma_core.TtlQueue.{TtlQueue, is_expired, evict, push, pop, pop_front, items, live}

module _ {ℓ} {A : Type ℓ} where
  abbrev pub is_live : ℕ → ℕ × A → Bool
  is_live now entry = not (is_expired now entry.0)

  pub live-evict : (now : ℕ) (b : List (ℕ × A)) → live now (evict now b) ≡ live now b
  unfolding evict
  live-evict now [] = refl
  live-evict now ((e, a) ∷ b) = ground (arith, live-evict now b)

  pop_front-evict : (now : ℕ) (b : List (ℕ × A)) → pop_front (evict now b) ≡ pop_front (live now b)
  unfolding evict
  pop_front-evict now [] = refl
  pop_front-evict now ((e, a) ∷ b) = ground (arith, pop_front-evict now b)

  live-tail-evict : (now : ℕ) (b : List (ℕ × A)) → live now (tail (evict now b)) ≡ tail (live now b)
  unfolding evict
  live-tail-evict now [] = refl
  live-tail-evict now ((e, a) ∷ b) = ground (arith, live-tail-evict now b)

  -- `pop` returns the oldest item that has not expired, and leaves the other live ones in order.
  pub pop-live :
      (now : ℕ) (q : TtlQueue A)
      → ((pop now q).0 ≡ pop_front (live now q.buf))
        × (live now (pop now q).1.buf ≡ tail (live now q.buf))
        × ((pop now q).1.capacity ≡ q.capacity)
  unfolding pop
  pop-live now q = (pop_front-evict now q.buf, live-tail-evict now q.buf, refl)

  -- `push` puts the new item behind the live ones, and drops the oldest live item exactly if the
  -- buffer is full after eviction.
  pub push-live :
      (now e : ℕ) (a : A) (q : TtlQueue A)
      → live now (push now e a q).buf
        ≡ (if leb q.capacity (length (evict now q.buf))
            then tail (live now q.buf)
            else live now q.buf)
          ++ live now ((e, a) ∷ [])
  unfolding push
  push-live now e a q = ground (
    arith,
    retain-append (is_live now) (evict now q.buf) ((e, a) ∷ []),
    retain-append (is_live now) (tail (evict now q.buf)) ((e, a) ∷ []),
    live-evict now q.buf,
    live-tail-evict now q.buf,
  )

  -- `pop` until the queue has nothing to give; the fuel is the length of the buffer.
  pub pop_all : ℕ → ℕ → TtlQueue A → List A
  pop_all zero now q = []
  pop_all (suc fuel) now q =
      let rest = pop_all fuel now (pop now q).1 in
      elim (pop now q).0 [ none ↦ [] | some item ↦ item ∷ rest ]

  pop_all_lem :
      (fuel now : ℕ) (q : TtlQueue A) (l : List (ℕ × A))
      → live now q.buf ≡ l
      → length l ≤ fuel
      → pop_all fuel now q ≡ items l
  unfolding pop_all
  pop_all_lem zero now q [] h k = refl
  pop_all_lem zero now q (x ∷ l) h k = absurd (omega arith)
  pop_all_lem (suc fuel) now q [] h k = ground (arith, pop-live now q)
  pop_all_lem (suc fuel) now q ((e, a) ∷ l) h k =
      ground (arith, pop-live now q, pop_all_lem fuel now (pop now q).1 l)

  -- Popping until nothing is left delivers exactly the items that have not expired, in order.
  pub pop_all-eq-live :
      (now : ℕ) (q : TtlQueue A) → pop_all (length q.buf) now q ≡ items (live now q.buf)
  pop_all-eq-live now q =
      pop_all_lem (length q.buf) now q (live now q.buf) refl (length-retain-le (is_live now) q.buf)
