-- ===== src/Common/Text.antt =====
-- Text as the list of its characters' code points, and the `str` methods that the source calls.
use Prim.Native.Nat.{ℕ, zero, suc}
use Prim.Native.Char.{code}
use Prim.Native.String.{String}
use mathlib.Core.Path.{◌≡◌, refl}
use mathlib.Core.Logic.{◌↔◌, ◌≢◌}
use mathlib.Core.Bool.{Bool, true, false, ◌&&◌}
use mathlib.Core.Option.{Option, none, some}
use mathlib.Core.List.{List, [], ◌∷◌, ◌++◌}
use native.Mathlib.Omega.{arith}
use rust_ma_core.Common.Tests.{◌==◌, is_some, if◌then◌else◌}
use rust_ma_core.Common.Lists.{take, drop, All, length}

-- `String` and `&str`.
abbrev pub Str : Type 0
Str = List ℕ

-- `Vec<u8>` and `&[u8]`.
abbrev pub Bytes : Type 0
Bytes = List ℕ

-- A literal's code points.
abbrev pub codes : String → Str
codes String.[] = []
codes (String.◌∷◌ c s) = code c ∷ codes s

-- `a == b` on strings.
abbrev pub str_eq : Str → Str → Bool
str_eq [] [] = true
str_eq [] (b ∷ y) = false
str_eq (a ∷ x) [] = false
str_eq (a ∷ x) (b ∷ y) = a == b && str_eq x y

pub str_eq_sound : (x y : Str) → str_eq x y ≡ true → x ≡ y
str_eq_sound [] [] h = refl
str_eq_sound [] (b ∷ y) h = cc
str_eq_sound (a ∷ x) [] h = cc
str_eq_sound (a ∷ x) (b ∷ y) h = ground (arith, str_eq_sound x y)

pub str_eq_refl : (x : Str) → str_eq x x ≡ true
str_eq_refl [] = refl
str_eq_refl (a ∷ x) = ground (arith, str_eq_refl x)

pub str_eq_iff : (x y : Str) → (str_eq x y ≡ true) ↔ (x ≡ y)
str_eq_iff x y = (str_eq_sound x y, λ e. rw e (str_eq_refl y))

-- `s.strip_prefix(p)`, the prefix first.
abbrev pub strip_prefix : Str → Str → Option Str
strip_prefix [] s = some s
strip_prefix (p ∷ ps) [] = none
strip_prefix (p ∷ ps) (c ∷ s) = if p == c then strip_prefix ps s else none

-- `s.starts_with(p)`.
abbrev pub starts_with : Str → Str → Bool
starts_with p s = is_some (strip_prefix p s)

pub strip_prefix-append : (p s : Str) → strip_prefix p (p ++ s) ≡ some s
strip_prefix-append [] s = refl
strip_prefix-append (a ∷ p) s = ground (arith, strip_prefix-append p s)

pub strip_prefix_sound : (p s r : Str) → strip_prefix p s ≡ some r → s ≡ p ++ r
strip_prefix_sound [] s r h = ground arith
strip_prefix_sound (a ∷ p) [] r h = cc
strip_prefix_sound (a ∷ p) (c ∷ s) r h = ground (arith, strip_prefix_sound p s r)

-- `s.find(c)` for an ASCII character, as an index of the list.
abbrev pub find : ℕ → Str → Option ℕ
find c [] = none
find c (x ∷ s) = elim (x == c) [
  | true ↦ some 0
  | false ↦ elim (find c s) [ none ↦ none | some i ↦ some (suc i) ]
]

-- `s.contains(c)`.
abbrev pub contains_char : ℕ → Str → Bool
contains_char c s = is_some (find c s)

-- The text has no character `c`.
abbrev pub Free : ℕ → Str → Type 0
Free c = All (λ x. x ≢ c)

pub find-Free : (c : ℕ) (s : Str) → Free c s → find c s ≡ none
find-Free c [] h = refl
find-Free c (x ∷ s) h = ground (arith, find-Free c s h.1)

pub find-append : (c : ℕ) (a b : Str) → Free c a → find c (a ++ c ∷ b) ≡ some (length a)
find-append c [] b h = ground arith
find-append c (x ∷ a) b h = ground (arith, find-append c a b h.1)

pub find-none-Free : (c : ℕ) (s : Str) → find c s ≡ none → Free c s
find-none-Free c [] h = tt
find-none-Free c (x ∷ s) h = ground (arith, find-none-Free c s)

pub find-some-split :
    (c : ℕ) (s : Str) (i : ℕ)
    → find c s ≡ some i
    → (s ≡ take i s ++ c ∷ drop (suc i) s) × Free c (take i s)
find-some-split c [] i h = cc
find-some-split c (x ∷ s) zero h = ground arith
find-some-split c (x ∷ s) (suc i) h = ground (arith, find-some-split c s i)

-- Puts a character in front of the first part.
abbrev pub cons_head : ℕ → List Str → List Str
cons_head x [] = (x ∷ []) ∷ []
cons_head x (p ∷ ps) = (x ∷ p) ∷ ps

-- `s.split(c).collect()`.
abbrev pub split : ℕ → Str → List Str
split c [] = [] ∷ []
split c (x ∷ s) = let rest = split c s in if x == c then [] ∷ rest else cons_head x rest

-- Joins the parts with `c` between them.
abbrev pub join : ℕ → List Str → Str
join c [] = []
join c (p ∷ []) = p
join c (p ∷ q ∷ ps) = p ++ c ∷ join c (q ∷ ps)
