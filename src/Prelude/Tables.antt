-- ===== src/Prelude/Tables.antt =====
-- Maps from texts: the entries as a list, where the first entry of a key counts.
use Prim.Native.String.{String}
use text.Mathlib.Text.{◌==◌ as str_eq}
use mathlib.Core.Path.{◌≡◌, refl}
use mathlib.Core.Option.{Option, none, some}
use mathlib.Core.List.{List, [], ◌∷◌}
use native.Mathlib.Omega.{arith}
use text.Mathlib.TextEquality.{eq_iff}
use agentwrap.Prelude.Tests.{if◌then◌else◌}

abbrev pub Table {ℓ} : Type ℓ → Type ℓ
Table A = List (String × A)

module _ {ℓ} {A : Type ℓ} where
  unfoldable pub find : String → Table A → Option A
  find k [] = none
  find k ((j, v) ∷ t) = let rest = find k t in if str_eq j k then some v else rest

  -- m[k] = v
  unfoldable pub insert : String → A → Table A → Table A
  insert k v [] = (k, v) ∷ []
  insert k v ((j, w) ∷ t) =
      let rest = insert k v t in if str_eq j k then (k, v) ∷ t else (j, w) ∷ rest

  -- delete(m, k)
  unfoldable pub remove : String → Table A → Table A
  remove k [] = []
  remove k ((j, w) ∷ t) = let rest = remove k t in if str_eq j k then rest else (j, w) ∷ rest

  pub find-insert :
      (k j : String) (v : A) (t : Table A)
      → find j (insert k v t) ≡ (if str_eq k j then some v else find j t)
  unfolding find insert
  find-insert k j v [] = refl
  find-insert k j v ((i, w) ∷ t) =
      ground (arith, eq_iff k j, eq_iff i k, eq_iff i j, find-insert k j v t)

  pub find-remove :
      (k j : String) (t : Table A) → find j (remove k t) ≡ (if str_eq k j then none else find j t)
  unfolding find remove
  find-remove k j [] = ground arith
  find-remove k j ((i, w) ∷ t) =
      ground (arith, eq_iff k j, eq_iff i k, eq_iff i j, find-remove k j t)
