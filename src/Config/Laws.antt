-- ===== src/Config/Laws.antt =====
-- config.go: what a parsed map of domains contains, and the text that it is parsed from.
use mathlib.Core.Path.{subst}
use ohttp_relay.Prelude.{
  ℕ, ◌≡◌, ◌≢◌, inl, inr, refl, ap, sym, ◌∙◌, false, ◌||◌, List, [], ◌∷◌, ◌++◌, arith, All,
  Bool-cases, append_assoc,
}
use ohttp_relay.Text.{
  Text, is_empty, contains, before, after, split, split_n2, Unicode, to_lower, trim_space, text_eq,
}
use ohttp_relay.Text.Laws.{is_empty_iff, to_lower_idem}
use ohttp_relay.Fault.{Result, ok, bind-eq-ok}
use ohttp_relay.Gateway.{Map, insert}
use ohttp_relay.Config.{split_pair, add_halves, add_pair, add_pairs, parse_domain_map}

-- The first "c" of a text splits it.
split_n2_at : (c : ℕ) (s t : Text) → contains c s ≡ false → split_n2 c (s ++ c ∷ t) ≡ s ∷ t ∷ []
unfolding split_n2 contains before after
split_n2_at c [] t h = ground arith
split_n2_at c (d ∷ s) t h = ground (arith, split_n2_at c s t)

pub split_last : (c : ℕ) (s : Text) → contains c s ≡ false → split c s ≡ s ∷ []
unfolding split contains
split_last c [] h = refl
split_last c (d ∷ s) h = ground (arith, split_last c s)

pub split_at : (c : ℕ) (s t : Text) → contains c s ≡ false → split c (s ++ c ∷ t) ≡ s ∷ split c t
unfolding split contains
split_at c [] t h = ground arith
split_at c (d ∷ s) t h = ground (arith, split_at c s t)

pub contains-append : (c : ℕ) (s t : Text) → contains c (s ++ t) ≡ (contains c s || contains c t)
unfolding contains
contains-append c [] t = refl
contains-append c (d ∷ s) t = ground (arith, contains-append c s t)

pub split_pair_at : (s t : Text) → contains b'=' s ≡ false → split_pair (s ++ b'=' ∷ t) ≡ s ∷ t ∷ []
unfolding split_pair contains
split_pair_at s t h = ground (arith, split_n2_at b'=' s t, contains-append b'=' s (b'=' ∷ t))

pub split_pair_at_colon :
    (s t : Text)
    → contains b'=' s ≡ false
    → contains b'=' t ≡ false
    → contains b':' s ≡ false
    → split_pair (s ++ b':' ∷ t) ≡ s ∷ t ∷ []
unfolding split_pair contains
split_pair_at_colon s t h k c =
    ground (arith, split_n2_at b':' s t, contains-append b'=' s (b':' ∷ t))

-- A mapping "domain:url" whose URL contains "=" is split at the first "=", not at the ":".
split_pair-colon :
    (domain url query : Text)
    → contains b'=' domain ≡ false
    → contains b'=' url ≡ false
    → split_pair (domain ++ (b':' ∷ (url ++ (b'=' ∷ query)))) ≡ (domain ++ b':' ∷ url) ∷ query ∷ []
unfolding contains
split_pair-colon domain url query h k =
    ap split_pair (sym (append_assoc domain (b':' ∷ url) (b'=' ∷ query)))
    ∙ split_pair_at (domain ++ b':' ∷ url) query
        (ground (arith, contains-append b'=' domain (b':' ∷ url)))

ok_inj : {a b : Map Text} → ◌≡◌ {A = Result (Map Text)} (ok a) (ok b) → a ≡ b
ok_inj h = cc h

module _ ⦃u : Unicode⦄ where
  -- a domain in lower case and a URL, neither of them empty
  abbrev pub IsMapping : Text × Text → Type 0
  IsMapping (domain, url) = (domain ≢ []) × (to_lower domain ≡ domain) × (url ≢ [])

  insert-All :
      (m : Map Text) (k v : Text)
      → IsMapping (k, v)
      → All IsMapping m
      → All IsMapping (insert m k v)
  unfolding insert
  insert-All [] k v h hs = (h, tt)
  insert-All ((i, w) ∷ m) k v h (g, gs) = elim (Bool-cases (text_eq i k)) [
    | inl e ↦ rw e (h, gs)
    | inr e ↦ rw e (g, insert-All m k v h gs)
  ]

  add_halves-All :
      (p : Text) (kv : List Text) (m n : Map Text)
      → All IsMapping m
      → add_halves p kv m ≡ ok n
      → All IsMapping n
  unfolding add_halves
  add_halves-All p [] m n hs e = absurd (cc e)
  add_halves-All p (k ∷ []) m n hs e = absurd (cc e)
  add_halves-All p (k ∷ v ∷ []) m n hs e =
      elim (Bool-cases (is_empty (to_lower (trim_space k)) || is_empty (trim_space v))) [
        | inl bad ↦ absurd (cc (rw bad at e))
        | inr good ↦
            rw (ok_inj (rw good at e)) at
              (insert-All m _ _ (mapping (to_lower_idem (trim_space k)) good) hs)
      ]
    where
      mapping :
          {d x : Text} → to_lower d ≡ d → (is_empty d || is_empty x) ≡ false → IsMapping (d, x)
      mapping {d} {x} low h = ground (arith, is_empty_iff d, is_empty_iff x)
  add_halves-All p (k ∷ v ∷ w ∷ kv) m n hs e = absurd (cc e)

  add_pair-All :
      (pair : Text) (m n : Map Text) → All IsMapping m → add_pair pair m ≡ ok n → All IsMapping n
  unfolding add_pair
  add_pair-All pair m n hs e = elim (Bool-cases (is_empty (trim_space pair))) [
    | inl blank ↦ rw (ok_inj (rw blank at e)) at hs
    | inr full ↦
        add_halves-All (trim_space pair) (split_pair (trim_space pair)) m n hs (rw full at e)
  ]

  add_pairs-All :
      (ps : List Text) (m n : Map Text) → All IsMapping m → add_pairs ps m ≡ ok n → All IsMapping n
  unfolding add_pairs
  add_pairs-All [] m n hs e = rw (ok_inj e) at hs
  add_pairs-All (p ∷ ps) m n hs e =
      let (m', first, others) = bind-eq-ok (add_pair p m) (add_pairs ps) e in
      add_pairs-All ps m' n (add_pair-All p m m' hs first) others

  -- Whatever text is parsed without an error, every domain of the map is in lower case, and neither
  -- it nor its URL is empty.
  pub parse_domain_map-IsMapping :
      (spec : Text) (m : Map Text) → parse_domain_map spec ≡ ok m → All IsMapping m
  unfolding parse_domain_map
  parse_domain_map-IsMapping spec m e = elim (Bool-cases (is_empty (trim_space spec))) [
    | inl blank ↦ subst (All IsMapping) (ok_inj (rw blank at e)) tt
    | inr full ↦ add_pairs-All (split b',' spec) [] m tt (rw full at e)
  ]
