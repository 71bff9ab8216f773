-- ===== src/Secrets/Passphrase.antt =====
-- `generate_passphrase` of src/config/secrets.rs, over the buffers that the random generator fills.
use rust_ma_core.Common.{
  ℕ, zero, suc, ◌+◌, ◌-◌, ◌%◌, ◌<◌, ◌≤◌, ltb, leb, ◌==◌, ==_iff, Str, Bytes, codes, Bool, true,
  ◌&&◌, is_ascii_alphanumeric, all, length, length-append, and-eq-true, take, get_elem?, retain,
  map, append_assoc, append-nil, Option, none, some, List, [], ◌∷◌, ◌++◌, ◌≡◌, refl, ap, subst, ◌∙◌,
  arith, Bool-cases, inl, inr, if◌then◌else◌,
}

abbrev pub charset : Str
charset = codes "ABCDEFGHIJKLMNOPQRSTUVWXYZabcdefghijklmnopqrstuvwxyz0123456789"

abbrev pub accept_below : ℕ
accept_below = 248

abbrev or_zero : Option ℕ → ℕ
or_zero none = 0
or_zero (some c) = c

-- `CHARSET[b % 62]`; the index is always in bounds.
unfoldable pub char_of : ℕ → ℕ
char_of b = or_zero (get_elem? charset (b % 62))

-- A buffer ends with the passphrase, or with what was collected so far.
pub data Scan : Type 0 where
  done more : Str → Scan

-- The loop over one buffer.
unfoldable pub scan : Str → Bytes → Scan
scan result [] = more result
scan result (b ∷ buf) =
    let pushed = result ++ char_of b ∷ [] in
    let longer = scan pushed buf in
    let same = scan result buf in
    if ltb b accept_below then if length pushed == 43 then done pushed else longer else same

-- The outer loop; `none` if the buffers that are given run out first.
unfoldable pub fill : Str → List Bytes → Option Str
unfolding scan
fill result [] = none
fill result (buf ∷ rest) = elim (scan result buf) [ done s ↦ some s | more s ↦ fill s rest ]

unfoldable pub generate_passphrase : List Bytes → Option Str
unfolding fill
generate_passphrase buffers = fill [] buffers

abbrev pub is_accepted : ℕ → Bool
is_accepted b = ltb b accept_below

-- The accepted bytes of the buffers, in order.
abbrev pub accepted : List Bytes → Bytes
accepted [] = []
accepted (buf ∷ rest) = retain is_accepted buf ++ accepted rest

abbrev scanned : ℕ → Str → Bytes → Scan
scanned n result drawn =
    if leb n (length drawn)
    then done (result ++ map char_of (take n drawn))
    else more (result ++ map char_of drawn)

scan_lem :
    (n : ℕ) (result : Str) (buf : Bytes)
    → length result + suc n ≡ 43
    → scan result buf ≡ scanned (suc n) result (retain is_accepted buf)
unfolding scan
scan_lem n result [] h = ground (arith, append-nil result)
scan_lem zero result (b ∷ buf) h =
    ground (arith, scan_lem zero result buf h, length-append result (char_of b ∷ []), h)
scan_lem (suc n) result (b ∷ buf) h = ground (
  arith,
  scan_lem (suc n) result buf h,
  scan_lem n (result ++ char_of b ∷ []) buf,
  length-append result (char_of b ∷ []),
  append_assoc result (char_of b ∷ []) (map char_of (take (suc n) (retain is_accepted buf))),
  append_assoc result (char_of b ∷ []) (map char_of (retain is_accepted buf)),
  h,
)

take-append_le : (n : ℕ) (a b : Bytes) → n ≤ length a → take n (a ++ b) ≡ take n a
take-append_le zero a b h = refl
take-append_le (suc n) [] b h = absurd (omega arith)
take-append_le (suc n) (x ∷ a) b h = ap (λ r. x ∷ r) (take-append_le n a b (omega arith))

take-append_add : (n k : ℕ) (a b : Bytes) → n ≡ length a + k → take n (a ++ b) ≡ a ++ take k b
take-append_add n k [] b h = ap (λ m. take m b) (omega arith)
take-append_add zero k (x ∷ a) b h = absurd (omega arith)
take-append_add (suc n) k (x ∷ a) b h = ap (λ r. x ∷ r) (take-append_add n k a b (omega arith))

length-map : (f : ℕ → ℕ) (b : Bytes) → length (map f b) ≡ length b
length-map f [] = refl
length-map f (x ∷ b) = ap suc (length-map f b)

map-append : (f : ℕ → ℕ) (a b : Bytes) → map f (a ++ b) ≡ map f a ++ map f b
map-append f [] b = refl
map-append f (x ∷ a) b = ap (λ r. f x ∷ r) (map-append f a b)

-- With `suc n` characters to go.
abbrev filled : ℕ → Str → Bytes → Option Str
filled n result drawn =
    if leb n (length drawn) then some (result ++ map char_of (take n drawn)) else none

fill_lem :
    (n : ℕ) (result : Str) (buffers : List Bytes)
    → length result + suc n ≡ 43
    → fill result buffers ≡ filled (suc n) result (accepted buffers)
unfolding fill
fill_lem n result [] h = ground arith
fill_lem n result (buf ∷ rest) h =
    let drawn = retain is_accepted buf in
    let later = accepted rest in
    elim (Bool-cases (leb (suc n) (length drawn))) [
      | inl enough ↦
          let fits : suc n ≤ length drawn = ground (arith, enough) in
          let total : leb (suc n) (length (drawn ++ later)) ≡ true =
            ground (arith, fits, length-append drawn later) in
          rw (fill, scan_lem n result buf h, enough, total, take-append_le (suc n) drawn later fits)
            refl
      | inr short ↦
          let few : length drawn < suc n = ground (arith, short) in
          let k : ℕ = n - length drawn in
          let ih = fill_lem k (result ++ map char_of drawn) rest (
            omega (
              arith,
              few,
              h,
              length-append result (map char_of drawn),
              length-map char_of drawn,
            )) in
          let split = take-append_add (suc n) (suc k) drawn later (omega (arith, few)) in
          rw
            (
              fill,
              scan_lem n result buf h,
              short,
              ih,
              split,
              map-append char_of drawn (take (suc k) later),
              length-append drawn later,
            )
            (ground (
              arith,
              few,
              append_assoc result (map char_of drawn) (map char_of (take (suc k) later)),
            ))
    ]

charset_ok : all is_ascii_alphanumeric charset ≡ true
charset_ok = refl

get_elem?-charset :
    (s : Str) (i : ℕ)
    → all is_ascii_alphanumeric s ≡ true
    → i < length s
    → is_ascii_alphanumeric (or_zero (get_elem? s i)) ≡ true
get_elem?-charset [] i h lt = absurd (omega arith)
get_elem?-charset (c ∷ s) zero h lt = (and-eq-true _ _ h).0
get_elem?-charset (c ∷ s) (suc i) h lt =
    get_elem?-charset s i ((and-eq-true (is_ascii_alphanumeric c) _ h).1) (omega arith)

char_of-alphanumeric : (b : ℕ) → is_ascii_alphanumeric (char_of b) ≡ true
unfolding char_of
char_of-alphanumeric b = get_elem?-charset charset (b % 62) charset_ok (omega arith)

all-map : (b : Bytes) → all is_ascii_alphanumeric (map char_of b) ≡ true
all-map [] = refl
all-map (x ∷ b) = rw (char_of-alphanumeric x, all-map b) refl

length-take : (n : ℕ) (b : Bytes) → (length (take n b) == n) ≡ leb n (length b)
length-take zero b = ground arith
length-take (suc n) [] = ground arith
length-take (suc n) (x ∷ b) = ground (arith, length-take n b)

-- The generation ends exactly if the buffers of the random generator hold 43 bytes below 248, with
-- the characters of the first 43 of these bytes, in order; with fewer there is no result yet. These
-- characters are letters and digits, and there are 43 of them exactly if the generation ends.
pub generate_passphrase_lem :
    (buffers : List Bytes)
    → (generate_passphrase buffers ≡ (
        if leb 43 (length (accepted buffers))
        then some (map char_of (take 43 (accepted buffers)))
        else none))
      × ((length (map char_of (take 43 (accepted buffers))) == 43)
          ≡ leb 43 (length (accepted buffers)))
      × (all is_ascii_alphanumeric (map char_of (take 43 (accepted buffers))) ≡ true)
unfolding generate_passphrase
generate_passphrase_lem buffers = (
  fill_lem 42 [] buffers refl,
  ap (λ n. n == 43) (length-map char_of (take 43 (accepted buffers)))
      ∙ length-take 43 (accepted buffers),
  all-map (take 43 (accepted buffers)),
)

-- How many numbers below the bound pass the test.
abbrev pub count_below : (ℕ → Bool) → ℕ → ℕ
count_below p zero = 0
count_below p (suc n) = (if p n then 1 else 0) + count_below p n

holds_at : (p : ℕ → Bool) (s : Str) (i c : ℕ) → all p s ≡ true → get_elem? s i ≡ some c → p c ≡ true
holds_at p [] i c h found = absurd (ground (arith, found))
holds_at p (x ∷ s) zero c h found =
    subst (λ y. p y ≡ true) (some_injective found) (and-eq-true (p x) (all p s) h).0
  where
    some_injective : {a b : ℕ} → some a ≡ some b → a ≡ b
    some_injective e = ground (arith, e)
holds_at p (x ∷ s) (suc i) c h found = holds_at p s i c (and-eq-true (p x) (all p s) h).1 found

-- How many bytes are accepted for a character.
abbrev pub sources : ℕ → ℕ
sources c = count_below (λ b. is_accepted b && (char_of b == c)) 256

four_each : all (λ c. sources c == 4) charset ≡ true
unfolding char_of
four_each = refl

-- Each character of the alphabet comes from exactly four of the 256 values of a byte, so that a
-- uniform byte makes no character likelier than another.
pub char_of_uniform : (i c : ℕ) → get_elem? charset i ≡ some c → sources c ≡ 4
char_of_uniform i c h =
    (==_iff (sources c) 4).0 (holds_at (λ c. sources c == 4) charset i c four_each h)
