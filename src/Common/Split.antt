-- ===== src/Common/Split.antt =====
-- Splitting at a character: `s.split(c)` cuts a text into parts without `c`, and joining undoes it.
use Prim.Native.Nat.{ℕ}
use mathlib.Core.Path.{◌≡◌, refl}
use mathlib.Core.Logic.{◌≢◌}
use mathlib.Core.List.{List, [], ◌∷◌, ◌++◌}
use native.Mathlib.Omega.{arith}
use rust_ma_core.Common.Lists.{All}
use rust_ma_core.Common.Text.{Str, split, cons_head, join, Free}

pub split-ne-nil : (c : ℕ) (s : Str) → split c s ≢ []
split-ne-nil c [] = ground arith
split-ne-nil c (x ∷ s) = ground (arith, split-ne-nil c s)

join-cons_head : (c x : ℕ) (ps : List Str) → ps ≢ [] → join c (cons_head x ps) ≡ x ∷ join c ps
join-cons_head c x [] h = absurd (h refl)
join-cons_head c x (p ∷ []) h = refl
join-cons_head c x (p ∷ q ∷ ps) h = refl

join-nil_head : (c : ℕ) (ps : List Str) → ps ≢ [] → join c ([] ∷ ps) ≡ c ∷ join c ps
join-nil_head c [] h = absurd (h refl)
join-nil_head c (q ∷ ps) h = refl

pub join-split : (c : ℕ) (s : Str) → join c (split c s) ≡ s
join-split c [] = refl
join-split c (x ∷ s) = ground (
  arith,
  split-ne-nil c s,
  join-split c s,
  join-cons_head c x (split c s),
  join-nil_head c (split c s),
)

pub cons_head-Free :
    (c x : ℕ) (ps : List Str) → x ≢ c → All (Free c) ps → All (Free c) (cons_head x ps)
cons_head-Free c x [] h k = ((h, tt), tt)
cons_head-Free c x (p ∷ ps) h k = ((h, k.0), k.1)

pub split-All-Free : (c : ℕ) (s : Str) → All (Free c) (split c s)
split-All-Free c [] = (tt, tt)
split-All-Free c (x ∷ s) = ground (arith, split-All-Free c s, cons_head-Free c x (split c s))

-- A text without `c` is one part.
pub split_of_Free : (c : ℕ) (a : Str) → Free c a → split c a ≡ a ∷ []
split_of_Free c [] h = refl
split_of_Free c (x ∷ a) h = ground (arith, split_of_Free c a h.1)

pub split-append : (c : ℕ) (a b : Str) → Free c a → split c (a ++ c ∷ b) ≡ a ∷ split c b
split-append c [] b h = ground arith
split-append c (x ∷ a) b h = ground (arith, split-append c a b h.1)
