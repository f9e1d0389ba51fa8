-- ===== src/Common/Text.antt =====
-- Decimal text of numbers, as Python's `str` gives it.
use Prim.Native.Nat.{ℕ, zero, suc, ◌/◌, ◌%◌}
use Prim.Native.String.{String, ◌++◌}
use mathlib.Core.List.{List, [], ◌∷◌}
use cyber_range.Common.Tests.{ltb, if◌then◌else◌}
use cyber_range.Common.Int.{ℤ, pos, negsuc}

abbrev digit_in : List String → ℕ → String
digit_in [] n = ""
digit_in (d ∷ ds) zero = d
digit_in (d ∷ ds) (suc n) = digit_in ds n

abbrev digit : ℕ → String
digit = digit_in ("0" ∷ "1" ∷ "2" ∷ "3" ∷ "4" ∷ "5" ∷ "6" ∷ "7" ∷ "8" ∷ "9" ∷ [])

-- A number below 2 ^ fuel needs at most `fuel` rounds; `show` gives it n + 1 of them.
show_from : ℕ → ℕ → String
show_from zero n = ""
show_from (suc f) n =
    let front = show_from f (n / 10) in if ltb n 10 then digit n else front ++ digit (n % 10)

unfoldable pub show : ℕ → String
unfolding show_from
show n = show_from (suc n) n

unfoldable pub show_ℤ : ℤ → String
unfolding show
show_ℤ (pos n) = show n
show_ℤ (negsuc n) = "-" ++ show (suc n)
