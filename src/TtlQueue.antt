-- ===== src/TtlQueue.antt =====
-- src/ttl_queue.rs: the bounded FIFO queue with an expiry time on each item. The caller supplies
-- `now` in seconds; an expiry of 0 means that the item never expires. The front is the list's head.
pub mod Bounds
pub mod Live
pub mod Order
pub mod Tests
use rust_ma_core.Common.{
  ℕ, zero, suc, Bool, ◌&&◌, not, Option, none, some, List, [], ◌∷◌, ◌++◌, map, ltb, leb, length,
  to_list, tail, retain, true, false, if◌then◌else◌,
}

pub record TtlQueue {ℓ} (A : Type ℓ) : Type ℓ where
  pub buf : List (ℕ × A)
  pub capacity : ℕ

-- The test of `evict`: an item with this expiry is gone at `now`.
abbrev pub is_expired : ℕ → ℕ → Bool
is_expired now expires_at = ltb 0 expires_at && leb expires_at now

module _ {ℓ} {A : Type ℓ} where
  -- The loop of `evict`: it stops at the first item that has not expired.
  unfoldable pub evict : ℕ → List (ℕ × A) → List (ℕ × A)
  evict now [] = []
  evict now ((expires_at, item) ∷ rest) =
      let evicted = evict now rest in
      if is_expired now expires_at then evicted else (expires_at, item) ∷ rest

  -- `none` is the panic of the assertion on the capacity.
  unfoldable pub new : ℕ → Option (TtlQueue A)
  new capacity = if ltb 0 capacity then some (record { buf = []; capacity = capacity }) else none

  unfoldable pub push : ℕ → ℕ → A → TtlQueue A → TtlQueue A
  unfolding evict
  push now expires_at item q =
      let evicted = evict now q.buf in
      let room = if leb q.capacity (length evicted) then tail evicted else evicted in
      record q { buf = room ++ (expires_at, item) ∷ [] }

  -- `pop_front().map(|(_, item)| item)`.
  abbrev pub pop_front : List (ℕ × A) → Option A
  pop_front [] = none
  pop_front ((expires_at, item) ∷ rest) = some item

  abbrev pub items : List (ℕ × A) → List A
  items [] = []
  items ((expires_at, item) ∷ rest) = item ∷ items rest

  unfoldable pub pop : ℕ → TtlQueue A → Option A × TtlQueue A
  unfolding evict
  pop now q = let evicted = evict now q.buf in (pop_front evicted, record q { buf = tail evicted })

  unfoldable pub peek : ℕ → TtlQueue A → Option A × TtlQueue A
  unfolding evict
  peek now q = let evicted = evict now q.buf in (pop_front evicted, record q { buf = evicted })

  unfoldable pub drain : ℕ → TtlQueue A → List A × TtlQueue A
  unfolding evict
  drain now q = (items (evict now q.buf), record q { buf = [] })

  unfoldable pub len : TtlQueue A → ℕ
  len q = length q.buf

  unfoldable pub is_empty : TtlQueue A → Bool
  is_empty q = elim q.buf [ [] ↦ true | entry ∷ rest ↦ false ]

  -- What has not expired at `now`, wherever it stands in the queue.
  abbrev pub live : ℕ → List (ℕ × A) → List (ℕ × A)
  live now = retain (λ entry. not (is_expired now entry.0))

-- A caller's call, for histories.
pub data Op {ℓ} (A : Type ℓ) : Type ℓ where
  pushes : ℕ → ℕ → A → Op A
  pops peeks drains : ℕ → Op A

module _ {ℓ} {A : Type ℓ} where
  -- The items that a call hands over and removes, and the queue that it leaves.
  unfoldable pub step : TtlQueue A → Op A → List A × TtlQueue A
  unfolding push pop peek drain
  step q (pushes now expires_at item) = ([], push now expires_at item q)
  step q (pops now) = (to_list (pop now q).0, (pop now q).1)
  step q (peeks now) = ([], (peek now q).1)
  step q (drains now) = drain now q

  unfoldable pub run : TtlQueue A → List (Op A) → List A × TtlQueue A
  unfolding step
  run q [] = ([], q)
  run q (op ∷ ops) = let (later, final) = run (step q op).1 ops in ((step q op).0 ++ later, final)
