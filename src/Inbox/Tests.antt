-- ===== src/Inbox/Tests.antt =====
-- Runs of src/inbox.rs, and its theorems at concrete stores.
use rust_ma_core.Common.{ℕ, ◌≡◌, refl, none, some, [], ◌∷◌}
use rust_ma_core.TtlQueue
use rust_ma_core.TtlQueue.{TtlQueue, pushes}
use rust_ma_core.Inbox.{Inbox, Store, clone, push, pop, peek}

abbrev first : Inbox
first = record { queue = 0 }

abbrev two : Store ℕ
two = record { buf = []; capacity = 8 } ∷ record { buf = (0, 5) ∷ []; capacity = 8 } ∷ []

-- `message_ttl_respected`, of the source's tests.
ttl_respected :
    ((peek first 100 (push first 100 160 7 two).1).0 ≡ some 7)
    × ((pop (clone first) 161 (push first 100 160 7 two).1).0 ≡ none)
unfolding push pop peek clone TtlQueue.push TtlQueue.pop TtlQueue.peek
ttl_respected = (refl, refl)
