-- ===== src/Inbox.antt =====
-- src/inbox.rs: an inbox is a shared handle (`Arc<Mutex<_>>`) of a queue. The queues stand in a
-- store; an inbox is an index of it, and each operation holds the lock for one queue operation.
pub mod Frame
pub mod Tests
use rust_ma_core.Common.{
  ℕ, Bool, true, Option, none, some, List, [], ◌∷◌, ◌++◌, length, get_elem?, set,
}
use rust_ma_core.TtlQueue
use rust_ma_core.TtlQueue.{TtlQueue, Op, pushes, pops, peeks, drains}

pub record Inbox : Type 0 where
  pub queue : ℕ

abbrev pub Store {ℓ} : Type ℓ → Type ℓ
Store A = List (TtlQueue A)

-- `Clone` copies the handle, not the queue.
pub clone : Inbox → Inbox
clone inbox = inbox

module _ {ℓ} {A : Type ℓ} where
  -- `none` is the panic of a zero capacity.
  unfoldable pub new : ℕ → Store A → Option (Inbox × Store A)
  new capacity store = elim (TtlQueue.new {A = A} capacity) [
    | none ↦ none
    | some q ↦ some (record { queue = length store }, store ++ q ∷ [])
  ]

  -- An operation on the queue behind the lock; a handle always has its queue.
  abbrev locked {κ} :
      {B : Type κ} → Inbox → B → (TtlQueue A → B × TtlQueue A) → Store A → B × Store A
  locked inbox missing f store = elim (get_elem? store inbox.queue) [
    | none ↦ (missing, store)
    | some q ↦ let (result, q') = f q in (result, set store inbox.queue q')
  ]

  pub push : Inbox → ℕ → ℕ → A → Store A → Unit {0} × Store A
  push inbox now expires_at item = locked inbox tt (λ q. (tt, TtlQueue.push now expires_at item q))

  pub pop : Inbox → ℕ → Store A → Option A × Store A
  pop inbox now = locked inbox none (TtlQueue.pop now)

  pub peek : Inbox → ℕ → Store A → Option A × Store A
  peek inbox now = locked inbox none (TtlQueue.peek now)

  pub drain : Inbox → ℕ → Store A → List A × Store A
  drain inbox now = locked inbox [] (TtlQueue.drain now)

  pub len : Inbox → Store A → ℕ
  len inbox store = elim (get_elem? store inbox.queue) [ none ↦ 0 | some q ↦ TtlQueue.len q ]

  pub is_empty : Inbox → Store A → Bool
  is_empty inbox store = elim (get_elem? store inbox.queue) [
    | none ↦ true
    | some q ↦ TtlQueue.is_empty q
  ]

  -- The store after a call through a handle.
  pub call : Inbox → Op A → Store A → Store A
  unfolding push pop peek drain
  call inbox (pushes now expires_at item) store = (push inbox now expires_at item store).1
  call inbox (pops now) store = (pop inbox now store).1
  call inbox (peeks now) store = (peek inbox now store).1
  call inbox (drains now) store = (drain inbox now store).1
