-- ===== src/Text/Decimal.antt =====
-- The verb %d of package fmt, and the fixed-width numbers of time.Format, on natural numbers.
use ohttp_relay.Prelude.{ℕ, zero, suc, ◌+◌, ◌/◌, ◌%◌, [], ◌∷◌, ltb, if◌then◌else◌}
use ohttp_relay.Text.{Text}

abbrev pub digit : ℕ → ℕ
digit n = b'0' + n % 10

digits_from : ℕ → ℕ → Text → Text
digits_from zero n out = out
digits_from (suc fuel) n out =
    let more = digits_from fuel (n / 10) (digit n ∷ out) in if ltb n 10 then digit n ∷ out else more

-- A number has fewer digits than the fuel.
unfoldable pub decimal : ℕ → Text
unfolding digits_from
decimal n = digits_from (suc n) n []

-- "02", "01", "15" of time.Format
abbrev pub two_digits : ℕ → Text
two_digits n = digit (n / 10) ∷ digit n ∷ []

-- "2006" of time.Format, for the years below 10000
abbrev pub four_digits : ℕ → Text
four_digits n = digit (n / 1000) ∷ digit (n / 100) ∷ digit (n / 10) ∷ digit n ∷ []
