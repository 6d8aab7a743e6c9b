-- ===== src/Config/Errors.antt =====
-- config.go: which texts are no lists of mappings.
use ohttp_relay.Prelude.{
  ◌≡◌, ◌≢◌, refl, sym, ◌∙◌, inl, inr, ℕ, Bool, true, false, not, ◌&&◌, ◌||◌, List, [], ◌∷◌, arith,
  Bool-cases, if◌then◌else◌,
}
use ohttp_relay.Text.{
  Text, is_empty, contains, before, after, split, split_n2, Unicode, trim_space, trim_left,
  space_rune,
}
use ohttp_relay.Text.Laws.{is_empty-to_lower}
use ohttp_relay.Fault.{Result, ok, err, bind}
use ohttp_relay.Gateway.{Map}
use ohttp_relay.Config.{split_pair, add_halves, add_pair, add_pairs, parse_domain_map}
use ohttp_relay.Config.Laws.{split_last}
use ohttp_relay.Config.Render.{trim_full}

abbrev pub fails : {A : Type 0} → Result A → Bool
fails (ok a) = false
fails (err e) = true

abbrev pub any : (Text → Bool) → List Text → Bool
any f [] = false
any f (p ∷ ps) = f p || any f ps

module _ ⦃u : Unicode⦄ where
  -- There is nothing before or nothing after the first "c".
  unfoldable pub is_half : ℕ → Text → Bool
  is_half c p = is_empty (trim_space (before c p)) || is_empty (trim_space (after c p))

  -- A piece between commas that is not blank has neither "=" nor ":", or is blank on a side of the
  -- first "=", or of the first ":" if it has no "=".
  unfoldable pub is_malformed : Text → Bool
  is_malformed piece =
      let p = trim_space piece in
      not (is_empty p)
      && (if contains b'=' p then is_half b'=' p else not (contains b':' p) || is_half b':' p)

  halves-fails :
      (p k v : Text) (m : Map Text)
      → fails (add_halves p (k ∷ v ∷ []) m) ≡ (is_empty (trim_space k) || is_empty (trim_space v))
  unfolding add_halves
  halves-fails p k v m = ground (arith, is_empty-to_lower (trim_space k))

  half-fails :
      (c : ℕ) (p q : Text) (m : Map Text)
      → contains c p ≡ true
      → fails (add_halves q (split_n2 c p) m) ≡ is_half c p
  unfolding split_n2 is_half
  half-fails c p q m h = rw h (halves-fails q (before c p) (after c p) m)

  colon-fails :
      (p q : Text) (m : Map Text)
      → fails (add_halves q (split_n2 b':' p) m) ≡ (not (contains b':' p) || is_half b':' p)
  unfolding add_halves split_n2
  colon-fails p q m = elim (Bool-cases (contains b':' p)) [
    | inl h ↦ half-fails b':' p q m h ∙ sym (rw h refl)
    | inr h ↦ rw h refl
  ]

  split_pair-fails :
      (p : Text) (m : Map Text)
      → fails (add_halves p (split_pair p) m)
        ≡ (if contains b'=' p then is_half b'=' p else not (contains b':' p) || is_half b':' p)
  unfolding split_pair
  split_pair-fails p m = elim (Bool-cases (contains b'=' p)) [
    | inl h ↦ rw h (half-fails b'=' p p m h)
    | inr h ↦ rw h (colon-fails p p m)
  ]

  add_pair-fails : (pair : Text) (m : Map Text) → fails (add_pair pair m) ≡ is_malformed pair
  unfolding add_pair is_malformed
  add_pair-fails pair m = elim (Bool-cases (is_empty (trim_space pair))) [
    | inl h ↦ rw h refl
    | inr h ↦ rw h (split_pair-fails (trim_space pair) m)
  ]

  -- the rest of the loop after one mapping
  rest-fails :
      (p : Text) (ps : List Text) (r : Result (Map Text))
      → fails r ≡ is_malformed p
      → ((m : Map Text) → fails (add_pairs ps m) ≡ any is_malformed ps)
      → fails (bind r (λ m. add_pairs ps m)) ≡ any is_malformed (p ∷ ps)
  unfolding add_pairs
  rest-fails p ps (ok m) h k = rw (sym h) (k m)
  rest-fails p ps (err e) h k = rw (sym h) refl

  add_pairs-fails : (ps : List Text) (m : Map Text) → fails (add_pairs ps m) ≡ any is_malformed ps
  unfolding add_pairs
  add_pairs-fails [] m = refl
  add_pairs-fails (p ∷ ps) m =
      rest-fails p ps (add_pair p m) (add_pair-fails p m) (λ m'. add_pairs-fails ps m')

  not_comma : (c : ℕ) → space_rune c ≡ true → c ≢ b','
  unfolding space_rune
  not_comma c h = ground arith

  space-trim : (c : ℕ) (s : Text) → space_rune c ≡ true → trim_space (c ∷ s) ≡ trim_space s
  unfolding trim_space trim_left
  space-trim c s h = rw h refl

  blank_no_comma : (s : Text) → is_empty (trim_space s) ≡ true → contains b',' s ≡ false
  unfolding contains
  blank_no_comma [] h = refl
  blank_no_comma (c ∷ s) h = elim (Bool-cases (space_rune c)) [
    | inl blank ↦
        let rest = blank_no_comma s (rw (sym (space-trim c s blank)) h) in
        ground (arith, not_comma c blank, rest)
    | inr full ↦ absurd (ground (arith, trim_full c s full, h))
  ]

  blank_fine : (s : Text) → is_empty (trim_space s) ≡ true → is_malformed s ≡ false
  unfolding is_malformed
  blank_fine s h = rw h refl

  -- The text of the mappings is refused exactly if a piece between its commas is malformed.
  pub parse_domain_map-fails :
      (spec : Text) → fails (parse_domain_map spec) ≡ any is_malformed (split b',' spec)
  unfolding parse_domain_map
  parse_domain_map-fails spec = elim (Bool-cases (is_empty (trim_space spec))) [
    | inl h ↦ rw (h, split_last b',' spec (blank_no_comma spec h), blank_fine spec h) refl
    | inr h ↦ rw h (add_pairs-fails (split b',' spec) [])
  ]
