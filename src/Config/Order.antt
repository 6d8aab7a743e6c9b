-- ===== src/Config/Order.antt =====
-- config.go: the order of the mappings of different domains does not count.
use mathlib.Core.Logic.{∥∥₁_elim}
use mathlib.Core.List.{Perm, Permᴰ}
use mathlib.Core.Path.{subst}
use ohttp_relay.Prelude.{
  Option, none, some, ◌≡◌, ◌≢◌, refl, ap, sym, ◌∙◌, List, [], ◌∷◌, arith, All, if◌then◌else◌,
}
use ohttp_relay.Text.{Text, text_eq, Unicode}
use ohttp_relay.Text.Laws.{text_eq_iff}
use ohttp_relay.Fault.{ok}
use ohttp_relay.Gateway.{Map, lookup}
use ohttp_relay.Config.{parse_domain_map}
use ohttp_relay.Config.Render.{Mapping, render, last_for, IsWritable, parse-render}

-- no domain is mapped twice
abbrev pub IsApart : List Mapping → Type 0
IsApart [] = Unit
IsApart (e ∷ es) = All (λ f. f.domain ≢ e.domain) es × IsApart es

All-perm : {A : Type 0} (P : A → Type 0) {es fs : List A} → Permᴰ es fs → All P es → All P fs
All-perm P Permᴰ.nil h = h
All-perm P (Permᴰ.cons e p) (h, hs) = (subst P e h, All-perm P p hs)
All-perm P (Permᴰ.swap a b) (h, (k, hs)) = (subst P b k, (subst P a h, hs))
All-perm P (Permᴰ.trans p q) h = All-perm P q (All-perm P p h)

-- no mapping of the list has the domain of `e`
abbrev IsFresh : List Mapping → Mapping → Type 0
IsFresh es e = All (λ f. f.domain ≢ e.domain) es

IsApart-perm : {es fs : List Mapping} → Permᴰ es fs → IsApart es → IsApart fs
IsApart-perm Permᴰ.nil h = h
IsApart-perm (Permᴰ.cons {l₂ = l} e p) (h, hs) =
    (subst (IsFresh l) e (All-perm _ p h), IsApart-perm p hs)
IsApart-perm (Permᴰ.swap {l = l} a b) ((ne, h), (k, hs)) =
    let domain = λ (m : Mapping). m.domain in
    (
      ((λ e. ne (ap domain b ∙ sym e ∙ sym (ap domain a))), subst (IsFresh l) b k),
      (subst (IsFresh l) a h, hs),
    )
IsApart-perm (Permᴰ.trans p q) h = IsApart-perm q (IsApart-perm p h)

option_text_set : IsSet (Option Text)
option_text_set = hlevel

last_for-swap :
    (host : Text) (e f : Mapping) (es : List Mapping)
    → f.domain ≢ e.domain
    → last_for host (e ∷ f ∷ es) ≡ last_for host (f ∷ e ∷ es)
last_for-swap host e f es ne = ground (arith, text_eq_iff e.domain host, text_eq_iff f.domain host)

-- what comes of the rest of a list after its first mapping
abbrev or_first : Text → Mapping → Option Text → Option Text
or_first host e r = elim r [
  | some url ↦ some url
  | none ↦ if text_eq e.domain host then some e.url else none
]

last_for-reorder :
    (host : Text) {es fs : List Mapping}
    → Permᴰ es fs
    → IsApart es
    → last_for host es ≡ last_for host fs
last_for-reorder host Permᴰ.nil h = refl
last_for-reorder host (Permᴰ.cons e p) (h, hs) =
    λ i. or_first host (e i) (last_for-reorder host p hs i)
last_for-reorder host (Permᴰ.swap {a = x} {b = y} {l = l} a b) ((ne, h), hs) =
    last_for-swap host x y l ne ∙ λ i. last_for host (b i ∷ a i ∷ l)
last_for-reorder host (Permᴰ.trans p q) h =
    last_for-reorder host p h ∙ last_for-reorder host q (IsApart-perm p h)

last_for-perm :
    (host : Text) {es fs : List Mapping}
    → Perm es fs
    → IsApart es
    → last_for host es ≡ last_for host fs
last_for-perm host p h = ∥∥₁_elim p (option_text_set _ _) (λ d. last_for-reorder host d h)

module _ ⦃u : Unicode⦄ where
  -- Two orders of mappings that can be written down, each of another domain, are parsed into maps that
  -- have the same URL for every host.
  pub parse_domain_map-perm :
      (es fs : List Mapping)
      → All IsWritable es
      → All IsWritable fs
      → IsApart es
      → Perm es fs
      → (m : Map Text) × (k : Map Text) × (parse_domain_map (render es) ≡ ok m)
        × (parse_domain_map (render fs) ≡ ok k)
        × ((host : Text) → lookup m host ≡ lookup k host)
  parse_domain_map-perm es fs w v apart p =
      let (m, parsed, found) = parse-render es w in
      let (k, parsed', found') = parse-render fs v in
      (m, k, parsed, parsed', λ host. found host ∙ last_for-perm host p apart ∙ sym (found' host))
