-- ===== src/Inbox/Frame.antt =====
-- What the calls through one handle of src/inbox.rs do to each queue of the store.
use rust_ma_core.Common.{
  ℕ, zero, suc, ◌==◌, ◌<◌, ◌≡◌, refl, ◌≢◌, some, List, [], ◌∷◌, ◌++◌, arith, length, get_elem?, set,
  if◌then◌else◌,
}
use rust_ma_core.TtlQueue
use rust_ma_core.TtlQueue.{TtlQueue, Op, pushes, pops, peeks, drains}
use rust_ma_core.Inbox.{Inbox, Store, new, clone, call}

module _ {ℓ} {A : Type ℓ} where
  get_elem?-set :
      (xs : List A) (i j : ℕ) (v w : A)
      → get_elem? xs i ≡ some w
      → get_elem? (set xs i v) j ≡ (if i == j then some v else get_elem? xs j)
  get_elem?-set [] i j v w h = cc
  get_elem?-set (x ∷ xs) zero zero v w h = refl
  get_elem?-set (x ∷ xs) zero (suc j) v w h = ground arith
  get_elem?-set (x ∷ xs) (suc i) zero v w h = ground arith
  get_elem?-set (x ∷ xs) (suc i) (suc j) v w h = ground (arith, get_elem?-set xs i j v w h)

  get_elem?-append_end : (xs : List A) (x : A) → get_elem? (xs ++ x ∷ []) (length xs) ≡ some x
  get_elem?-append_end [] x = refl
  get_elem?-append_end (y ∷ xs) x = get_elem?-append_end xs x

  get_elem?-append_lt :
      (xs ys : List A) (i : ℕ) → i < length xs → get_elem? (xs ++ ys) i ≡ get_elem? xs i
  get_elem?-append_lt [] ys i h = absurd (omega arith)
  get_elem?-append_lt (y ∷ xs) ys zero h = refl
  get_elem?-append_lt (y ∷ xs) ys (suc i) h = get_elem?-append_lt xs ys i (omega arith)

module _ {ℓ} {A : Type ℓ} where
  -- A call through any clone of a handle makes that step on the shared queue, and leaves every
  -- other queue of the store as it was.
  pub call-frame :
      (inbox : Inbox) (other : ℕ) (op : Op A) (store : Store A) (q : TtlQueue A)
      → get_elem? store inbox.queue ≡ some q
      → get_elem? (call (clone inbox) op store) other
        ≡ (if inbox.queue == other then some (TtlQueue.step q op).1 else get_elem? store other)
  unfolding call clone TtlQueue.step
  call-frame inbox other (pushes now e a) store q h =
      ground (arith, get_elem?-set store inbox.queue other (TtlQueue.push now e a q) q h)
  call-frame inbox other (pops now) store q h =
      ground (arith, get_elem?-set store inbox.queue other (TtlQueue.pop now q).1 q h)
  call-frame inbox other (peeks now) store q h =
      ground (arith, get_elem?-set store inbox.queue other (TtlQueue.peek now q).1 q h)
  call-frame inbox other (drains now) store q h =
      ground (arith, get_elem?-set store inbox.queue other (TtlQueue.drain now q).1 q h)

  -- A new inbox gets a queue of its own, empty and of the given capacity, and every queue of the
  -- store stays as it was.
  pub new-fresh :
      (capacity : ℕ) (store : Store A)
      → 0 < capacity
      → (r : Inbox × Store A) × (new capacity store ≡ some r)
        × (get_elem? r.1 r.0.queue ≡ some (record { buf = []; capacity = capacity }))
        × ((i : ℕ) → i < length store → (i ≢ r.0.queue) × (get_elem? r.1 i ≡ get_elem? store i))
  unfolding new TtlQueue.new
  new-fresh capacity store h = (
    (record { queue = length store }, store ++ record { buf = []; capacity = capacity } ∷ []),
    ground arith,
    get_elem?-append_end store (record { buf = []; capacity = capacity }),
    λ i lt. (
      omega arith,
      get_elem?-append_lt store (record { buf = []; capacity = capacity } ∷ []) i lt,
    ),
  )
