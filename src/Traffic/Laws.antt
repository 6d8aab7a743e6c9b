-- ===== src/Traffic/Laws.antt =====
-- metrics.go: the keys under which traffic is counted.
use ohttp_relay.Prelude.{
  ℕ, ◌/◌, ◌<◌, ◌≡◌, refl, ap, List, [], ◌∷◌, ◌++◌, arith, length, length-append,
}
use ohttp_relay.Text.{Text, codes}
use ohttp_relay.Text.Decimal.{two_digits, four_digits, digit}
use ohttp_relay.Exec.{Utc}
use ohttp_relay.Traffic.{window, generate_key}

-- Lists with equally long ends.
append_cancel :
    {A : Type 0} (xs ys a b : List A)
    → xs ++ a ≡ ys ++ b
    → length a ≡ length b
    → (xs ≡ ys) × (a ≡ b)
append_cancel [] [] a b h k = (refl, h)
append_cancel [] (y ∷ ys) a b h k = absurd (omega (arith, ap length h, length-append ys b, k))
append_cancel (x ∷ xs) [] a b h k = absurd (omega (arith, ap length h, length-append xs a, k))
append_cancel (x ∷ xs) (y ∷ ys) a b h k =
    let (p, q) = append_cancel xs ys a b (cc h) k in (cc (h, p), q)

append_cancel_left : {A : Type 0} (xs a b : List A) → xs ++ a ≡ xs ++ b → a ≡ b
append_cancel_left [] a b h = h
append_cancel_left (x ∷ xs) a b h = append_cancel_left xs a b (cc h)

-- What time.Format prints in the widths of its layout.
abbrev pub IsPrintable : Utc → Type 0
IsPrintable t = (t.year < 10000) × (t.month < 100) × (t.day < 100) × (t.hour < 100)

two_digits_inj : (n k : ℕ) → n < 100 → k < 100 → two_digits n ≡ two_digits k → n ≡ k
two_digits_inj n k hn hk h =
    let a : digit (n / 10) ≡ digit (k / 10) = cc h in
    let b : digit n ≡ digit k = cc h in omega (arith, a, b)

four_digits_inj : (n k : ℕ) → n < 10000 → k < 10000 → four_digits n ≡ four_digits k → n ≡ k
four_digits_inj n k hn hk h =
    let a : digit (n / 1000) ≡ digit (k / 1000) = cc h in
    let b : digit (n / 100) ≡ digit (k / 100) = cc h in
    let c : digit (n / 10) ≡ digit (k / 10) = cc h in
    let d : digit n ≡ digit k = cc h in omega (arith, a, b, c, d)

window_inj : (t t' : Utc) → IsPrintable t → IsPrintable t' → window t ≡ window t' → t ≡ t'
unfolding window
window_inj t t' (y, m, d, h) (y', m', d', h') e =
    let year : t.year ≡ t'.year = four_digits_inj t.year t'.year y y' (cc e) in
    let month : t.month ≡ t'.month = two_digits_inj t.month t'.month m m' (cc e) in
    let day : t.day ≡ t'.day = two_digits_inj t.day t'.day d d' (cc e) in
    let hour : t.hour ≡ t'.hour = two_digits_inj t.hour t'.hour h h' (cc e) in
    λ i. record { year = year i; month = month i; day = day i; hour = hour i }

length-window : (t : Utc) → length (window t) ≡ 13
unfolding window
length-window t = refl

-- For times in the widths that the layout prints (a year below 10000, the rest below 100), equal keys
-- are of equal hosts and equal hours.
pub generate_key_injective :
    (host host' : Text) (t t' : Utc)
    → IsPrintable t
    → IsPrintable t'
    → generate_key host t ≡ generate_key host' t'
    → (host ≡ host') × (t ≡ t')
unfolding generate_key
generate_key_injective host host' t t' p p' e =
    let (same_host, same_end) =
      append_cancel host host' (codes ":traffic:" ++ window t) (codes ":traffic:" ++ window t')
        (append_cancel_left (codes "gateway:") _ _ e)
        (omega (
          arith,
          length-append (codes ":traffic:") (window t),
          length-append (codes ":traffic:") (window t'),
          length-window t,
          length-window t',
        )) in
    (same_host, window_inj t t' p p' (append_cancel_left (codes ":traffic:") _ _ same_end))
