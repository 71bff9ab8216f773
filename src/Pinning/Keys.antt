-- ===== src/Pinning/Keys.antt =====
-- The keys of the scheduler of src/kubo/pinning.rs, in its map and in its channel.
use rust_ma_core.Common.{
  Str, Bool, true, false, not, ◌&&◌, ◌||◌, str_eq_iff, any, Option, none, some, List, [], ◌∷◌, ◌++◌,
  ◌≡◌, ◌⊎◌, ◌↔◌, inl, inr, refl, arith,
}
use rust_ma_core.Pinning.{
  Key, Request, Worker, waiting, running, sleeping, key_eq, bool_eq, option_eq, contains_key,
  replace, find_request, remove,
}

bool_eq_iff : (a b : Bool) → (bool_eq a b ≡ true) ↔ (a ≡ b)
bool_eq_iff true b = ground arith
bool_eq_iff false b = ground arith

option_eq_iff : (a b : Option Str) → (option_eq a b ≡ true) ↔ (a ≡ b)
option_eq_iff none none = ground arith
option_eq_iff none (some b) = ground arith
option_eq_iff (some a) none = ground arith
option_eq_iff (some a) (some b) = ground (arith, str_eq_iff a b)

-- Two keys are equal exactly if all their parts are.
pub key_eq_iff : (a b : Key) → (key_eq a b ≡ true) ↔ (a ≡ b)
unfolding key_eq
key_eq_iff a b = ground (
  arith,
  str_eq_iff a.kubo_url b.kubo_url,
  str_eq_iff a.name b.name,
  bool_eq_iff a.cleanup_local b.cleanup_local,
  option_eq_iff a.remote_service b.remote_service,
)

pub contains_key-replace :
    (k j : Key) (r : Request) (p : List (Key × Request))
    → contains_key k (replace j r p) ≡ contains_key k p
unfolding contains_key replace
contains_key-replace k j r [] = refl
contains_key-replace k j r (entry ∷ p) = ground (arith, contains_key-replace k j r p)

pub contains_key-remove :
    (k j : Key) (p : List (Key × Request))
    → contains_key k (remove j p) ≡ (contains_key k p && not (key_eq j k))
unfolding contains_key remove
contains_key-remove k j [] = refl
contains_key-remove k j (entry ∷ p) =
    ground
      (arith, contains_key-remove k j p, key_eq_iff entry.0 j, key_eq_iff entry.0 k, key_eq_iff j k)

pub find_request-contains_key :
    (k : Key) (p : List (Key × Request)) → find_request k p ≡ none → contains_key k p ≡ false
unfolding find_request contains_key
find_request-contains_key k [] h = refl
find_request-contains_key k (entry ∷ p) h = ground (arith, find_request-contains_key k p)

pub any-append :
    (f : Key → Bool) (xs : List Key) (y : Key) → any f (xs ++ y ∷ []) ≡ (any f xs || f y)
any-append f [] y = ground arith
any-append f (x ∷ xs) y = ground (arith, any-append f xs y)

pub Worker-cases :
    (w : Worker)
    → (w ≡ waiting)
      ⊎ ((k : Key) × (r : Request) × (w ≡ running k r))
      ⊎ ((k : Key) × (w ≡ sleeping k))
Worker-cases waiting = inl refl
Worker-cases (running k r) = inr (inl (k, r, refl))
Worker-cases (sleeping k) = inr (inr (k, refl))

pub List-cases : (l : List Key) → (l ≡ []) ⊎ ((k : Key) × (rest : List Key) × (l ≡ k ∷ rest))
List-cases [] = inl refl
List-cases (k ∷ rest) = inr (k, rest, refl)
