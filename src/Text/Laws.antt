-- ===== src/Text/Laws.antt =====
-- Equality, case and white space of texts.
use ohttp_relay.Prelude.{ℕ, ◌≡◌, ◌≢◌, ◌↔◌, refl, ap, true, false, [], ◌∷◌, ◌++◌, arith}
use ohttp_relay.Text.{Text, Unicode, text_eq, is_empty, lower_rune, to_lower, fold_rune, equal_fold}

text_eq_sound : (s t : Text) → text_eq s t ≡ true → s ≡ t
unfolding text_eq
text_eq_sound [] [] h = refl
text_eq_sound [] (d ∷ t) h = cc
text_eq_sound (c ∷ s) [] h = cc
text_eq_sound (c ∷ s) (d ∷ t) h = ground (arith, text_eq_sound s t)

pub text_eq_refl : (s : Text) → text_eq s s ≡ true
unfolding text_eq
text_eq_refl [] = refl
text_eq_refl (c ∷ s) = ground (arith, text_eq_refl s)

pub text_eq_iff : (s t : Text) → (text_eq s t ≡ true) ↔ (s ≡ t)
text_eq_iff s t = (text_eq_sound s t, λ e. rw e (text_eq_refl t))

pub is_empty_iff : (s : Text) → (is_empty s ≡ true) ↔ (s ≡ [])
unfolding is_empty
is_empty_iff [] = (λ _. refl, λ _. refl)
is_empty_iff (c ∷ s) = (λ h. cc, λ h. cc)

pub is_empty_ne : (s : Text) → s ≢ [] → is_empty s ≡ false
is_empty_ne s full = ground (arith, is_empty_iff s)

module _ ⦃u : Unicode⦄ where
  lower_rune_idem : (c : ℕ) → lower_rune (lower_rune c) ≡ lower_rune c
  unfolding lower_rune
  lower_rune_idem c = ground (arith, u.lower_ascii c, u.lower_idem c)

  -- A text in lower case is in lower case.
  pub to_lower_idem : (s : Text) → to_lower (to_lower s) ≡ to_lower s
  unfolding to_lower
  to_lower_idem [] = refl
  to_lower_idem (c ∷ s) = cc (lower_rune_idem c, to_lower_idem s)

  pub to_lower-append : (s t : Text) → to_lower (s ++ t) ≡ to_lower s ++ to_lower t
  unfolding to_lower
  to_lower-append [] t = refl
  to_lower-append (c ∷ s) t = ap (◌∷◌ (lower_rune c)) (to_lower-append s t)

  pub is_empty-to_lower : (s : Text) → is_empty (to_lower s) ≡ is_empty s
  unfolding to_lower is_empty
  is_empty-to_lower [] = refl
  is_empty-to_lower (c ∷ s) = refl

  fold_rune_refl : (c : ℕ) → fold_rune c c ≡ true
  unfolding fold_rune
  fold_rune_refl c = ground arith

  pub equal_fold_refl : (s : Text) → equal_fold s s ≡ true
  unfolding equal_fold
  equal_fold_refl [] = refl
  equal_fold_refl (c ∷ s) = ground (arith, fold_rune_refl c, equal_fold_refl s)
