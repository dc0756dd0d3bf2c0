-- ===== src/Base/Equality.antt =====
-- `operator==` of arrays, vectors and strings.

use mathlib.Core.Path.{◌≡◌, refl, ap₂}
use mathlib.Core.Bool.{Bool, true, false, ◌&&◌}
use mathlib.Core.List.{[], ◌∷◌}
use native.Mathlib.Omega.{arith}
use perfectvaluecubesymmetri.Base.Tests.{◌==◌}
use perfectvaluecubesymmetri.Base.Lists.{Bytes}

abbrev pub same_bytes : Bytes → Bytes → Bool
same_bytes [] [] = true
same_bytes (x ∷ xs) (y ∷ ys) = x == y && same_bytes xs ys
same_bytes _ _ = false

pub same_bytes_eq : (xs ys : Bytes) → same_bytes xs ys ≡ true → xs ≡ ys
same_bytes_eq [] [] e = refl
same_bytes_eq [] (y ∷ ys) e = cc e
same_bytes_eq (x ∷ xs) [] e = cc e
same_bytes_eq (x ∷ xs) (y ∷ ys) e = ap₂ ◌∷◌ (ground arith) (same_bytes_eq xs ys (ground arith))

pub same_bytes_refl : (xs : Bytes) → same_bytes xs xs ≡ true
same_bytes_refl [] = refl
same_bytes_refl (x ∷ xs) = ground (arith, same_bytes_refl xs)
