-- ===== src/Text.antt =====
-- Go's strings package, as far as the relay calls it. A string is the list of its code points; the
-- bytes of a body are a list of numbers too. Every literal of the source is ASCII.
-- What package unicode says beyond ASCII is taken from an instance of `Unicode`.
pub mod Decimal
pub mod Laws
use Prim.Native.Char.{code}
use ohttp_relay.Prelude.{
  ℕ, ◌+◌, ◌≤◌, ◌<◌, ◌≡◌, Bool, true, false, ◌&&◌, ◌||◌, String, List, [], ◌∷◌, ltb, leb, ◌==◌,
  if◌then◌else◌,
}

abbrev pub Text : Type 0
Text = List ℕ

abbrev pub Bytes : Type 0
Bytes = List ℕ

abbrev pub codes : String → Text
codes String.[] = []
codes (String.◌∷◌ c s) = code c ∷ codes s

abbrev pub is_upper : ℕ → Bool
is_upper c = leb b'A' c && leb c b'Z'

-- unicode.ToLower, unicode.IsSpace and the orbits of unicode.SimpleFold on code points that are
-- not ASCII. A letter that has been lowered is not changed by lowering it again.
pub record Unicode : Type 0 where
  pub lower : ℕ → ℕ
  pub space : ℕ → Bool
  pub same_fold : ℕ → ℕ → Bool
  pub lower_ascii : (c : ℕ) → 128 ≤ c → lower c < 128 → is_upper (lower c) ≡ false
  pub lower_idem : (c : ℕ) → 128 ≤ c → 128 ≤ lower c → lower (lower c) ≡ lower c

-- s == t
unfoldable pub text_eq : Text → Text → Bool
text_eq [] [] = true
text_eq [] (d ∷ t) = false
text_eq (c ∷ s) [] = false
text_eq (c ∷ s) (d ∷ t) = c == d && text_eq s t

-- s == ""
unfoldable pub is_empty : Text → Bool
is_empty [] = true
is_empty (c ∷ s) = false

unfoldable pub ascii_lower : ℕ → ℕ
ascii_lower c = if is_upper c then c + 32 else c

abbrev pub ascii_space : ℕ → Bool
ascii_space c = c == b' ' || (leb 9 c && leb c 13)

-- strings.Contains(s, "c")
unfoldable pub contains : ℕ → Text → Bool
contains c [] = false
contains c (d ∷ s) = d == c || contains c s

-- The text before the first `c`, and the text after it.
unfoldable pub before : ℕ → Text → Text
before c [] = []
before c (d ∷ s) = let rest = before c s in if d == c then [] else d ∷ rest

unfoldable pub after : ℕ → Text → Text
after c [] = []
after c (d ∷ s) = let rest = after c s in if d == c then s else rest

-- strings.SplitN(s, "c", 2)
unfoldable pub split_n2 : ℕ → Text → List Text
unfolding contains before after
split_n2 c s = if contains c s then before c s ∷ after c s ∷ [] else s ∷ []

abbrev push_head : ℕ → List Text → List Text
push_head d [] = (d ∷ []) ∷ []
push_head d (p ∷ ps) = (d ∷ p) ∷ ps

-- strings.Split(s, "c")
unfoldable pub split : ℕ → Text → List Text
split c [] = [] ∷ []
split c (d ∷ s) = let rest = split c s in if d == c then [] ∷ rest else push_head d rest

module _ ⦃u : Unicode⦄ where
  unfoldable pub lower_rune : ℕ → ℕ
  unfolding ascii_lower
  lower_rune c = if ltb c 128 then ascii_lower c else u.lower c

  -- strings.ToLower
  unfoldable pub to_lower : Text → Text
  unfolding lower_rune
  to_lower [] = []
  to_lower (c ∷ s) = lower_rune c ∷ to_lower s

  unfoldable pub fold_rune : ℕ → ℕ → Bool
  unfolding ascii_lower
  fold_rune c d =
      c == d || (if ltb c 128 && ltb d 128 then ascii_lower c == ascii_lower d else u.same_fold c d)

  -- strings.EqualFold
  unfoldable pub equal_fold : Text → Text → Bool
  unfolding fold_rune
  equal_fold [] [] = true
  equal_fold [] (d ∷ t) = false
  equal_fold (c ∷ s) [] = false
  equal_fold (c ∷ s) (d ∷ t) = fold_rune c d && equal_fold s t

  unfoldable pub space_rune : ℕ → Bool
  space_rune c = if ltb c 128 then ascii_space c else u.space c

  unfoldable pub trim_left : Text → Text
  unfolding space_rune
  trim_left [] = []
  trim_left (c ∷ s) = let rest = trim_left s in if space_rune c then rest else c ∷ s

  unfoldable pub trim_right : Text → Text
  unfolding space_rune is_empty
  trim_right [] = []
  trim_right (c ∷ s) =
      let rest = trim_right s in if is_empty rest && space_rune c then [] else c ∷ rest

  -- strings.TrimSpace
  unfoldable pub trim_space : Text → Text
  unfolding trim_left trim_right
  trim_space s = trim_right (trim_left s)
