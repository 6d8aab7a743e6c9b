-- ===== src/Config/Render.antt =====
-- config.go: the text of a list of mappings is parsed into their map.
use ohttp_relay.Prelude.{
  Option, none, some, ℕ, ◌≡◌, ◌≢◌, inl, inr, refl, ap, sym, ◌∙◌, false, List, [], ◌∷◌, ◌++◌, arith,
  All, length, Bool-cases, ◌≤◌, if◌then◌else◌, append_assoc,
}
use ohttp_relay.Text.{
  Text, text_eq, is_empty, contains, split, Unicode, to_lower, trim_space, trim_left, trim_right,
  space_rune,
}
use ohttp_relay.Text.Laws.{is_empty_iff}
use ohttp_relay.Fault.{ok}
use ohttp_relay.Gateway.{Map, insert, lookup}
use ohttp_relay.Gateway.Laws.{lookup-insert}
use ohttp_relay.Config.{split_pair, add_halves, add_pair, add_pairs, parse_domain_map}
use ohttp_relay.Config.Laws.{
  split_last, split_at, contains-append, split_pair_at, split_pair_at_colon,
}

-- how a mapping is written
pub data Separator : Type 0 where
  equals colon : Separator

abbrev pub mark : Separator → ℕ
mark equals = b'='
mark colon = b':'

pub record Mapping : Type 0 where
  pub by : Separator
  pub domain : Text
  pub url : Text

-- "domain=url" or "domain:url"
abbrev pub render_one : Mapping → Text
render_one e = e.domain ++ (mark e.by ∷ e.url)

-- with commas between them
abbrev pub render : List Mapping → Text
render [] = []
render (e ∷ []) = render_one e
render (e ∷ f ∷ es) = render_one e ++ (b',' ∷ render (f ∷ es))

-- m[domain] = url for one mapping after the other
abbrev pub assign_all : List Mapping → Map Text → Map Text
assign_all [] m = m
assign_all (e ∷ es) m = assign_all es (insert m e.domain e.url)

-- the URL that a domain is mapped to last
abbrev pub last_for : Text → List Mapping → Option Text
last_for host [] = none
last_for host (e ∷ es) = elim (last_for host es) [
  | some url ↦ some url
  | none ↦ if text_eq e.domain host then some e.url else none
]

lookup-assign_all :
    (es : List Mapping) (m : Map Text) (host : Text)
    → lookup (assign_all es m) host
      ≡ elim (last_for host es) [ some url ↦ some url | none ↦ lookup m host ]
lookup-assign_all [] m host = refl
lookup-assign_all (e ∷ es) m host = ground (
  arith,
  lookup-assign_all es (insert m e.domain e.url) host,
  lookup-insert m e.domain host e.url,
)

module _ ⦃u : Unicode⦄ where
  -- a text that is not empty, with no space at either end and no comma
  abbrev pub IsPlain : Text → Type 0
  IsPlain s = (s ≢ []) × (trim_left s ≡ s) × (trim_right s ≡ s) × (contains b',' s ≡ false)

  -- The separator is the one at which the mapping is split.
  abbrev pub IsSplitBy : Separator → Text → Text → Type 0
  IsSplitBy equals k v = contains b'=' k ≡ false
  IsSplitBy colon k v =
      (contains b'=' k ≡ false) × (contains b'=' v ≡ false) × (contains b':' k ≡ false)

  -- a mapping that can be written down, with its domain in lower case
  pub record IsWritable (e : Mapping) : Type 0 where
    pub domain : IsPlain e.domain
    pub url : IsPlain e.url
    pub low : to_lower e.domain ≡ e.domain
    pub separated : IsSplitBy e.by e.domain e.url

  length-trim_left : (s : Text) → length (trim_left s) ≤ length s
  unfolding trim_left
  length-trim_left [] = omega arith
  length-trim_left (c ∷ s) = ground (arith, length-trim_left s)

  starts_full : (c : ℕ) (s : Text) → trim_left (c ∷ s) ≡ c ∷ s → space_rune c ≡ false
  unfolding trim_left
  starts_full c s h = elim (Bool-cases (space_rune c)) [
    | inl blank ↦ absurd (omega (arith, length-trim_left s, ap length (rw blank at h)))
    | inr full ↦ full
  ]

  trim_left-append : (s t : Text) → s ≢ [] → trim_left s ≡ s → trim_left (s ++ t) ≡ s ++ t
  unfolding trim_left
  trim_left-append [] t full h = absurd (full refl)
  trim_left-append (c ∷ s) t full h = rw (starts_full c s h)

  is_empty-append : (s t : Text) → t ≢ [] → is_empty (s ++ t) ≡ false
  unfolding is_empty
  is_empty-append [] [] full = absurd (full refl)
  is_empty-append [] (d ∷ t) full = refl
  is_empty-append (c ∷ s) t full = refl

  trim_right-append : (s t : Text) → t ≢ [] → trim_right t ≡ t → trim_right (s ++ t) ≡ s ++ t
  unfolding trim_right
  trim_right-append [] t full h = h
  trim_right-append (c ∷ s) t full h = rw (trim_right-append s t full h, is_empty-append s t full)

  trim_space-pair :
      (mark : ℕ) (k v : Text)
      → IsPlain k
      → IsPlain v
      → trim_space (k ++ (mark ∷ v)) ≡ k ++ (mark ∷ v)
  unfolding trim_space
  trim_space-pair mark k v (k_full, k_left, _, _) (v_full, _, v_right, _) =
      ap trim_right (trim_left-append k (mark ∷ v) k_full k_left)
      ∙ ap trim_right (sym (append_assoc k (mark ∷ []) v))
      ∙ trim_right-append (k ++ (mark ∷ [])) v v_full v_right
      ∙ append_assoc k (mark ∷ []) v

  add_halves-plain :
      (p : Text) (e : Mapping) (m : Map Text)
      → IsWritable e
      → add_halves p (e.domain ∷ e.url ∷ []) m ≡ ok (insert m e.domain e.url)
  unfolding add_halves trim_space
  add_halves-plain p e m w =
      let (k_full, k_left, k_right, _) = w.domain in
      let (v_full, v_left, v_right, _) = w.url in
      rw (k_left, k_right, w.low, v_left, v_right)
        (ground (arith, is_empty_iff e.domain, is_empty_iff e.url))

  split_pair_by :
      (by : Separator) (k v : Text)
      → IsSplitBy by k v
      → split_pair (k ++ (mark by ∷ v)) ≡ k ∷ v ∷ []
  split_pair_by equals k v h = split_pair_at k v h
  split_pair_by colon k v h = split_pair_at_colon k v h.0 h.1 h.2

  add_pair-plain :
      (e : Mapping) (m : Map Text)
      → IsWritable e
      → add_pair (render_one e) m ≡ ok (insert m e.domain e.url)
  unfolding add_pair
  add_pair-plain e m w =
      rw
        (
          trim_space-pair (mark e.by) e.domain e.url w.domain w.url,
          is_empty-append e.domain (mark e.by ∷ e.url) (λ h. cc h),
          split_pair_by e.by e.domain e.url w.separated,
        )
        (add_halves-plain _ e m w)

  no_comma_of :
      (by : Separator) (k v : Text)
      → IsPlain k
      → IsPlain v
      → contains b',' (k ++ (mark by ∷ v)) ≡ false
  unfolding contains
  no_comma_of equals k v p q = ground (arith, contains-append b',' k (b'=' ∷ v), p.3, q.3)
  no_comma_of colon k v p q = ground (arith, contains-append b',' k (b':' ∷ v), p.3, q.3)

  no_comma : (e : Mapping) → IsWritable e → contains b',' (render_one e) ≡ false
  no_comma e w = no_comma_of e.by e.domain e.url w.domain w.url

  add_pairs-render :
      (e : Mapping) (es : List Mapping) (m : Map Text)
      → All IsWritable (e ∷ es)
      → add_pairs (split b',' (render (e ∷ es))) m ≡ ok (assign_all (e ∷ es) m)
  unfolding add_pairs
  add_pairs-render e [] m (w, _) = rw (split_last b',' _ (no_comma e w), add_pair-plain e m w)
  add_pairs-render e (f ∷ es) m (w, ws) =
      rw (split_at b',' _ (render (f ∷ es)) (no_comma e w), add_pair-plain e m w)
        (add_pairs-render f es (insert m e.domain e.url) ws)

  pub trim_full : (c : ℕ) (s : Text) → space_rune c ≡ false → is_empty (trim_space (c ∷ s)) ≡ false
  unfolding trim_space trim_left trim_right is_empty
  trim_full c s h = ground (arith)

  trim_append_full :
      (s t : Text) → s ≢ [] → trim_left s ≡ s → is_empty (trim_space (s ++ t)) ≡ false
  trim_append_full [] t full h = absurd (full refl)
  trim_append_full (c ∷ s) t full h = trim_full c (s ++ t) (starts_full c s h)

  render_full :
      (e : Mapping) (es : List Mapping)
      → IsWritable e
      → is_empty (trim_space (render (e ∷ es))) ≡ false
  render_full e [] w = trim_append_full e.domain (mark e.by ∷ e.url) w.domain.0 w.domain.1
  render_full e (f ∷ es) w =
      rw (append_assoc e.domain (mark e.by ∷ e.url) (b',' ∷ render (f ∷ es)))
        (trim_append_full e.domain _ w.domain.0 w.domain.1)

  parse-render_all :
      (es : List Mapping) → All IsWritable es → parse_domain_map (render es) ≡ ok (assign_all es [])
  unfolding parse_domain_map trim_space
  parse-render_all [] h = refl
  parse-render_all (e ∷ es) h = rw (render_full e es h.0) (add_pairs-render e es [] h)

  last-assign_all :
      (es : List Mapping) (host : Text) → lookup (assign_all es []) host ≡ last_for host es
  unfolding lookup
  last-assign_all es host = ground (arith, lookup-assign_all es [] host)

  -- Mappings that can be written down, each as "domain=url" or as "domain:url" (domain and URL not
  -- empty, with no space at an end and no comma, the domain in lower case and with no "="; for ":",
  -- no "=" in the URL and no ":" in the domain either), with commas between them, are parsed into a map
  -- in which every host has the URL that it is mapped to last, and the hosts that are not named have none.
  pub parse-render :
      (es : List Mapping)
      → All IsWritable es
      → (m : Map Text) × (parse_domain_map (render es) ≡ ok m)
        × ((host : Text) → lookup m host ≡ last_for host es)
  parse-render es h = (assign_all es [], parse-render_all es h, last-assign_all es)
