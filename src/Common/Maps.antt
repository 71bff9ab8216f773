-- ===== src/Common/Maps.antt =====
-- Maps as association lists, with the test of the keys as a parameter.
use mathlib.Core.Path.{◌≡◌}
use mathlib.Core.Logic.{◌↔◌}
use mathlib.Core.Bool.{Bool, true}
use mathlib.Core.Option.{Option, none, some}
use mathlib.Core.List.{List, [], ◌∷◌}
use native.Mathlib.Omega.{arith}
use rust_ma_core.Common.Tests.{if◌then◌else◌}

module _ {K V : Type 0} (same : K → K → Bool) where
  abbrev pub get : K → List (K × V) → Option V
  get k [] = none
  get k ((j, v) ∷ m) = let later = get k m in if same j k then some v else later

  abbrev pub remove : K → List (K × V) → List (K × V)
  remove k [] = []
  remove k ((j, v) ∷ m) = let rest = remove k m in if same j k then rest else (j, v) ∷ rest

  abbrev pub insert : K → V → List (K × V) → List (K × V)
  insert k v m = (k, v) ∷ remove k m

  module _ (same_iff : (a b : K) → (same a b ≡ true) ↔ (a ≡ b)) where
    pub get-remove :
        (k j : K) (m : List (K × V)) → get j (remove k m) ≡ (if same k j then none else get j m)
    get-remove k j [] = ground arith
    get-remove k j ((i, v) ∷ m) =
        ground (arith, get-remove k j m, same_iff k j, same_iff i k, same_iff i j)

    pub get-insert :
        (k j : K) (v : V) (m : List (K × V))
        → get j (insert k v m) ≡ (if same k j then some v else get j m)
    get-insert k j v m = ground (arith, get-remove k j m)
