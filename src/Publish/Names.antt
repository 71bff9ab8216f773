-- ===== src/Publish/Names.antt =====
-- The parts of key names of src/ipfs/publish.rs.
use rust_ma_core.Common.{
  ℕ, Str, Bool, true, false, not, ◌||◌, between, is_ascii_alphanumeric, to_ascii_lowercase, all,
  all-append, is_empty, [], ◌∷◌, ◌++◌, ◌≡◌, refl, ap, inl, inr, arith, Bool-cases,
}
use rust_ma_core.Publish.{
  is_separator, cons_kept, or_unknown, sanitize_loop, pop_separators, sanitize_key_part,
}

-- The characters of a part: lower-case letters, digits and separators.
abbrev pub is_key_char : ℕ → Bool
is_key_char c = between b'0' b'9' c || between b'a' b'z' c || is_separator c

-- The text does not start with a separator.
abbrev pub is_start : Str → Bool
is_start [] = true
is_start (c ∷ s) = not (is_separator c)

-- A part of a name that has no separators at its ends.
abbrev pub IsKeyPart : Str → Type 0
IsKeyPart s =
    (is_empty s ≡ false) × (all is_key_char s ≡ true) × (is_start s ≡ true) × (pop_separators s ≡ s)

abbrev IsClean : Str → Type 0
IsClean s = (all is_key_char s ≡ true) × (is_start s ≡ true)

lower_alphanumeric :
    (c : ℕ)
    → is_ascii_alphanumeric c ≡ true
    → (is_key_char (to_ascii_lowercase c) ≡ true) × (is_separator (to_ascii_lowercase c) ≡ false)
lower_alphanumeric c h = ground arith

push-IsClean :
    (s : Str) (c : ℕ)
    → IsClean s
    → is_key_char c ≡ true
    → is_separator c ≡ false
    → IsClean (s ++ c ∷ [])
push-IsClean [] c h k n = ground (arith, h, k, n)
push-IsClean (d ∷ s) c h k n = ground (arith, h, k, all-append is_key_char s (c ∷ []))

separate-IsClean :
    (s : Str) (c : ℕ)
    → IsClean s
    → is_separator c ≡ true
    → is_empty s ≡ false
    → IsClean (s ++ c ∷ [])
separate-IsClean [] c h k n = cc
separate-IsClean (d ∷ s) c h k n = ground (arith, h, k, all-append is_key_char s (c ∷ []))

sanitize_loop-IsClean :
    (s : Str) (b : Bool) (part : Str) → IsClean s → IsClean (sanitize_loop s b part)
unfolding sanitize_loop
sanitize_loop-IsClean s b [] h = h
sanitize_loop-IsClean s b (c ∷ part) h = elim (Bool-cases (is_ascii_alphanumeric c)) [
  | inl a ↦
      let (k, n) = lower_alphanumeric c a in
      rw a
        (sanitize_loop-IsClean (s ++ to_ascii_lowercase c ∷ []) false part (push-IsClean s _ h k n))
  | inr a ↦ elim (Bool-cases (b || is_empty s)) [
    | inl e ↦ rw (a, e) (sanitize_loop-IsClean s b part h)
    | inr e ↦ elim (Bool-cases (is_separator c)) [
      | inl k ↦
          rw (a, e, k)
            (sanitize_loop-IsClean (s ++ c ∷ []) true part
              (separate-IsClean s c h k (ground (arith, e))))
      | inr k ↦
          rw (a, e, k)
            (sanitize_loop-IsClean (s ++ b'-' ∷ []) true part
              (separate-IsClean s b'-' h refl (ground (arith, e))))
    ]
  ]
]

cons_kept-all :
    (c : ℕ) (t : Str)
    → is_key_char c ≡ true
    → all is_key_char t ≡ true
    → all is_key_char (cons_kept c t) ≡ true
cons_kept-all c [] h k = ground (arith, h, Bool-cases (is_separator c))
cons_kept-all c (d ∷ t) h k = ground (arith, h, k)

pop_separators-all :
    (s : Str) → all is_key_char s ≡ true → all is_key_char (pop_separators s) ≡ true
unfolding pop_separators
pop_separators-all [] h = refl
pop_separators-all (c ∷ s) h =
    cons_kept-all c (pop_separators s) (ground (arith, h))
      (pop_separators-all s (ground (arith, h)))

cons_kept-is_start : (c : ℕ) (t : Str) → is_separator c ≡ false → is_start (cons_kept c t) ≡ true
cons_kept-is_start c [] h = ground (arith, h)
cons_kept-is_start c (d ∷ t) h = ground (arith, h)

pop_separators-is_start : (s : Str) → is_start s ≡ true → is_start (pop_separators s) ≡ true
unfolding pop_separators
pop_separators-is_start [] h = refl
pop_separators-is_start (c ∷ s) h = cons_kept-is_start c (pop_separators s) (ground (arith, h))

pop_separators-cons_kept :
    (c : ℕ) (t : Str) → pop_separators t ≡ t → pop_separators (cons_kept c t) ≡ cons_kept c t
unfolding pop_separators
pop_separators-cons_kept c [] h = ground (arith, Bool-cases (is_separator c))
pop_separators-cons_kept c (d ∷ t) h = ap (cons_kept c) h

pop_separators_idem : (s : Str) → pop_separators (pop_separators s) ≡ pop_separators s
unfolding pop_separators
pop_separators_idem [] = refl
pop_separators_idem (c ∷ s) = pop_separators-cons_kept c (pop_separators s) (pop_separators_idem s)

or_unknown-IsKeyPart :
    (s : Str)
    → all is_key_char s ≡ true
    → is_start s ≡ true
    → pop_separators s ≡ s
    → IsKeyPart (or_unknown s)
unfolding pop_separators
or_unknown-IsKeyPart [] h k e = (refl, refl, refl, refl)
or_unknown-IsKeyPart (c ∷ s) h k e = (refl, h, k, e)

-- Whatever text a part is made of, the sanitized part is not empty, has only lower-case letters,
-- digits, `-` and `_`, and neither starts nor ends with a separator.
pub sanitize_key_part-IsKeyPart : (part : Str) → IsKeyPart (sanitize_key_part part)
unfolding sanitize_key_part
sanitize_key_part-IsKeyPart part =
    let (h, k) = sanitize_loop-IsClean [] false part (refl, refl) in
    let looped = sanitize_loop [] false part in
    or_unknown-IsKeyPart (pop_separators looped) (pop_separators-all looped h)
      (pop_separators-is_start looped k) (pop_separators_idem looped)
