-- ===== src/Acl/Sets.antt =====
-- `BTreeSet<String>`: a strictly increasing list, ordered as Rust orders strings.
use rust_ma_core.Common.{
  Str, ltb, ◌==◌, str_eq, str_eq_iff, Bool, true, false, ◌&&◌, ◌||◌, List, [], ◌∷◌, ◌≡◌, refl,
  arith, any, if◌then◌else◌,
}

abbrev pub StrSet : Type 0
StrSet = List Str

unfoldable pub str_lt : Str → Str → Bool
str_lt [] [] = false
str_lt [] (b ∷ y) = true
str_lt (a ∷ x) [] = false
str_lt (a ∷ x) (b ∷ y) = ltb a b || (a == b && str_lt x y)

-- `set.contains(s)`.
abbrev pub contains : Str → StrSet → Bool
contains s = any (str_eq s)

unfoldable pub insert : Str → StrSet → StrSet
unfolding str_lt
insert s [] = s ∷ []
insert s (t ∷ set) =
    let rest = insert s set in
    if str_eq s t then t ∷ set else if str_lt s t then s ∷ t ∷ set else t ∷ rest

-- `iter.collect()`.
unfoldable pub collect : List Str → StrSet
unfolding insert
collect [] = []
collect (s ∷ rest) = insert s (collect rest)

-- Every element comes before the next one.
abbrev pub IsIncreasing : StrSet → Type 0
IsIncreasing [] = Unit
IsIncreasing (s ∷ []) = Unit
IsIncreasing (s ∷ t ∷ set) = (str_lt s t ≡ true) × IsIncreasing (t ∷ set)

str_lt_irrefl : (s : Str) → str_lt s s ≡ false
unfolding str_lt
str_lt_irrefl [] = refl
str_lt_irrefl (a ∷ s) = ground (arith, str_lt_irrefl s)

ne_of_str_lt : (s t : Str) → str_lt s t ≡ true → str_eq s t ≡ false
ne_of_str_lt s t h = ground (arith, str_eq_iff s t, str_lt_irrefl t)

insert_head : (s : Str) (set : StrSet) → IsIncreasing (s ∷ set) → insert s set ≡ s ∷ set
unfolding insert
insert_head s [] h = refl
insert_head s (t ∷ set) h = ground (arith, ne_of_str_lt s t h.0)

IsIncreasing-tail : (s : Str) (set : StrSet) → IsIncreasing (s ∷ set) → IsIncreasing set
IsIncreasing-tail s [] h = tt
IsIncreasing-tail s (t ∷ set) h = h.1

-- A set in its own order is collected unchanged.
pub collect_of_IsIncreasing : (set : StrSet) → IsIncreasing set → collect set ≡ set
unfolding collect
collect_of_IsIncreasing [] h = refl
collect_of_IsIncreasing (s ∷ set) h =
    rw (collect_of_IsIncreasing set (IsIncreasing-tail s set h)) (insert_head s set h)

contains-insert :
    (x s : Str) (set : StrSet) → contains x (insert s set) ≡ (str_eq x s || contains x set)
unfolding insert
contains-insert x s [] = refl
contains-insert x s (t ∷ set) = ground (arith, str_eq_iff s t, contains-insert x s set)

-- Collecting forgets order and repetition only.
pub contains-collect : (x : Str) (l : List Str) → contains x (collect l) ≡ contains x l
unfolding collect
contains-collect x [] = refl
contains-collect x (s ∷ l) = ground (arith, contains-insert x s (collect l), contains-collect x l)
