-- ===== src/Gateway/Laws.antt =====
-- source.go, static.go, redis.go: how the sources of gateway URLs combine.
use ohttp_relay.Prelude.{◌≡◌, ◌≢◌, refl, some, List, [], ◌∷◌, ◌++◌, arith, if◌then◌else◌}
use ohttp_relay.Text.{Text, is_empty, text_eq}
use ohttp_relay.Text.Laws.{text_eq_iff, is_empty_iff}
use ohttp_relay.Fault.{Result, ok, err}
use ohttp_relay.Exec.{Env, Trace, pure, ◌>>=◌}
use ohttp_relay.Gateway.{
  Map, lookup, insert, get, UrlSource, or_default, fallback_source, chain_round, chain_sources,
  static_map_url_source,
}

pub lookup-insert :
    {V : Type 0} (m : Map V) (k j : Text) (v : V)
    → lookup (insert m k v) j ≡ (if text_eq k j then some v else lookup m j)
unfolding lookup insert
lookup-insert [] k j v = refl
lookup-insert ((i, w) ∷ m) k j v =
    ground (arith, text_eq_iff k j, text_eq_iff i k, text_eq_iff i j, lookup-insert m k j v)

module _ (host : Text) (env : Env) where
  -- a URL or an error
  abbrev pub IsDecisive : Result Text → Type 0
  IsDecisive (err e) = Unit
  IsDecisive (ok url) = url ≢ []

  -- The sources are asked in their order from the first trace on, up to the second one, and each answers
  -- with no URL and no error.
  pub data Passed : List UrlSource → Trace → Trace → Type 0 where
    no_source : {t : Trace} → Passed [] t t
    no_url :
        {s : UrlSource} {sources : List UrlSource} {t t' t'' : Trace}
        → s host env t ≡ (ok [], t')
        → Passed sources t' t''
        → Passed (s ∷ sources) t t''

  -- The last pair is the answer, with its trace, of the first source that has a URL or an error, and
  -- the sources after it are not asked; or no source has either, and then the URL is empty.
  pub data FirstAnswer : List UrlSource → Trace → Result Text × Trace → Type 0 where
    exhausted :
        {sources : List UrlSource} {t t' : Trace}
        → Passed sources t t'
        → FirstAnswer sources t (ok [], t')
    decided :
        (before : List UrlSource) (s : UrlSource) (after : List UrlSource) {t t' : Trace}
        {r : Result Text × Trace}
        → Passed before t t'
        → s host env t' ≡ r
        → IsDecisive r.0
        → FirstAnswer (before ++ s ∷ after) t r

  asked_before :
      {s : UrlSource} {sources : List UrlSource} {t t' : Trace} {r : Result Text × Trace}
      → s host env t ≡ (ok [], t')
      → FirstAnswer sources t' r
      → FirstAnswer (s ∷ sources) t r
  asked_before h (exhausted p) = exhausted (no_url h p)
  asked_before {s} h (decided before asked after p q d) =
      decided (s ∷ before) asked after (no_url h p) q d

  round-FirstAnswer :
      (s : UrlSource) (sources : List UrlSource) (t : Trace) (r : Result Text × Trace)
      → s host env t ≡ r
      → ((t' : Trace) → FirstAnswer sources t' (chain_sources sources host env t'))
      → FirstAnswer (s ∷ sources) t (chain_round r.0 (chain_sources sources host) env r.1)
  unfolding chain_round is_empty pure
  round-FirstAnswer s sources t (err e, t') h rest = decided [] s sources no_source h tt
  round-FirstAnswer s sources t (ok [], t') h rest = asked_before h (rest t')
  round-FirstAnswer s sources t (ok (c ∷ url), t') h rest =
      decided [] s sources no_source h (λ e. absurd (cc e))

  -- A chain asks its sources in their order. Its result is the first error or the first URL that is
  -- not empty, whichever comes first, and no later source is asked; with neither, it is an empty URL
  -- after all sources have been asked.
  pub chain_sources-FirstAnswer :
      (sources : List UrlSource) (t : Trace)
      → FirstAnswer sources t (chain_sources sources host env t)
  unfolding chain_sources ◌>>=◌
  chain_sources-FirstAnswer [] t = exhausted no_source
  chain_sources-FirstAnswer (s ∷ sources) t =
      round-FirstAnswer s sources t (s host env t) refl (chain_sources-FirstAnswer sources)

  or_default-eq :
      (d : Text) (r : Result Text) (t : Trace)
      → (or_default d r, t) ≡ chain_round r (chain_round (ok d) (pure (ok []))) env t
  unfolding or_default chain_round ◌>>=◌
  or_default-eq d (err e) t = refl
  or_default-eq d (ok gw) t = ground (arith, is_empty_iff d)

  -- The fallback is the chain that ends in a source of the default.
  fallback-eq-chain :
      (default_url : Text) (source : UrlSource) (t : Trace)
      → fallback_source default_url source host env t
        ≡ chain_sources (source ∷ (λ h. pure (ok default_url)) ∷ []) host env t
  unfolding fallback_source chain_sources ◌>>=◌
  fallback-eq-chain default_url source t =
      or_default-eq default_url (source host env t).0 (source host env t).1

  -- If a static map comes first and maps the host to a URL that is not empty, this URL is the answer
  -- of the chain, and the other sources are not asked.
  static_decides :
      (m : Map Text) (sources : List UrlSource) (url : Text) (t : Trace)
      → lookup m host ≡ some url
      → url ≢ []
      → chain_sources (static_map_url_source m ∷ sources) host env t ≡ (ok url, t)
  unfolding chain_sources chain_round static_map_url_source get ◌>>=◌
  static_decides m sources url t found full = rw (found, get) (ground (arith, is_empty_iff url))
