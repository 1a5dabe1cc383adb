-- ===== src/Base/Decimal.antt =====
-- `to_string` of an unsigned number.
use Prim.Native.Nat.{ℕ, zero, suc, ◌+◌, ◌/◌, ◌%◌}
use Prim.Native.String.{String}
use watercontroller.Base.Tests.{◌==◌, if◌then◌else◌}
use watercontroller.Base.Strings.{◌<>◌}

unfoldable pub digit : ℕ → String
digit zero = "0"
digit (suc zero) = "1"
digit (suc (suc zero)) = "2"
digit (suc (suc (suc zero))) = "3"
digit (suc (suc (suc (suc zero)))) = "4"
digit (suc (suc (suc (suc (suc zero))))) = "5"
digit (suc (suc (suc (suc (suc (suc zero)))))) = "6"
digit (suc (suc (suc (suc (suc (suc (suc zero))))))) = "7"
digit (suc (suc (suc (suc (suc (suc (suc (suc zero)))))))) = "8"
digit _ = "9"

-- The fuel is a bound on the number of digits.
unfoldable pub show_from : ℕ → ℕ → String → String
show_from zero n after = after
show_from (suc fuel) n after =
    let here = digit (n % 10) <> after in
    let more = show_from fuel (n / 10) here in if n / 10 == 0 then here else more

unfoldable pub to_string : ℕ → String
unfolding show_from digit
to_string n = show_from (n + 1) n ""
