-- ===== src/Tests/Parts.antt =====
-- The theorems about the sources, the relayer, the configuration and the metrics at concrete inputs.
use ohttp_relay.Prelude.{
  ◌≡◌, ◌≢◌, ◌↔◌, refl, Option, none, List, [], ◌∷◌, ◌++◌, ◌<◌, true, false, arith, All,
}
use ohttp_relay.Text.{text_eq, Text, codes, to_lower, trim_left, trim_right, contains, split}
use ohttp_relay.Text.Laws.{text_eq_iff}
use ohttp_relay.Fault.{Error, Result, ok}
use ohttp_relay.Http.{HttpResponse}
use ohttp_relay.Exec.{Instrument, Utc, Effect, Trace, pure}
use ohttp_relay.Gateway.{
  Map, UrlSource, chain_sources, static_map_url_source, redis_target_url, get, lookup,
}
use ohttp_relay.Gateway.Laws.{FirstAnswer, chain_sources-FirstAnswer}
use ohttp_relay.Relay.{relay}
use ohttp_relay.Relay.Outcomes.{Outcome, relay-Outcome}
use ohttp_relay.Config.{parse_domain_map}
use ohttp_relay.Config.Laws.{IsMapping, parse_domain_map-IsMapping}
use mathlib.Core.List.Perm
use ohttp_relay.Config.Order.{parse_domain_map-perm}
use ohttp_relay.Config.Errors.{fails, any, is_malformed, parse_domain_map-fails}
use ohttp_relay.Config.Render.{equals, colon, Mapping, render, last_for, IsWritable, parse-render}
use ohttp_relay.Traffic.Laws.{generate_key_injective}
use ohttp_relay.Metrics.{creations, init_metrics}
use ohttp_relay.Metrics.Laws.{Assigned, init_metrics_iff}
use ohttp_relay.Tests.Fixtures.{test_unicode, good_world, mappings}
use ohttp_relay.Tests.Opens.{handler}

abbrev sources : List UrlSource
sources = static_map_url_source mappings ∷ redis_target_url ∷ []

chain_sources-FirstAnswer_example :
    FirstAnswer
      (codes "b.org")
      good_world
      sources
      []
      (chain_sources sources (codes "b.org") good_world [])
chain_sources-FirstAnswer_example = chain_sources-FirstAnswer (codes "b.org") good_world sources []

relay-Outcome_example :
    let r : Result HttpResponse × Trace =
      relay
        (static_map_url_source mappings)
        (codes "example.com")
        (codes "abc")
        (codes "message/ohttp-req")
        (codes "post")
        good_world
        [] in
    (added : List Effect) × (r.1 ≡ [] ++ added)
    × Outcome good_world
        (codes "example.com")
        (codes "abc")
        (codes "message/ohttp-req")
        (codes "post")
        5
        []
        (ok (get mappings (codes "example.com")))
        r.0
        added
unfolding static_map_url_source pure
relay-Outcome_example =
    relay-Outcome good_world (codes "example.com") (codes "abc") (codes "message/ohttp-req")
      (codes "post") (static_map_url_source mappings) []

no_equals : (contains b'=' (codes "a.com") ≡ false) × (contains b'=' (codes "https://gw/t") ≡ false)
unfolding handler
no_equals = (refl, refl)

abbrev two_mappings : List Mapping
two_mappings =
    record { by = equals; domain = codes "a.com"; url = codes "http://x?q=1" }
    ∷ record { by = colon; domain = codes "b.com"; url = codes "http://y" }
    ∷ []

writable : All IsWritable two_mappings
unfolding trim_left trim_right contains to_lower
writable = (
  record {
    domain = ((λ h. cc h), refl, refl, refl);
    url = ((λ h. cc h), refl, refl, refl);
    low = refl;
    separated = refl;
  },
  (
    record {
      domain = ((λ h. cc h), refl, refl, refl);
      url = ((λ h. cc h), refl, refl, refl);
      low = refl;
      separated = (refl, refl, refl);
    },
    tt,
  ),
)

abbrev reversed : List Mapping
reversed =
    record { by = colon; domain = codes "b.com"; url = codes "http://y" }
    ∷ record { by = equals; domain = codes "a.com"; url = codes "http://x?q=1" }
    ∷ []

domains_differ : codes "b.com" ≢ codes "a.com"
unfolding text_eq
domains_differ h =
    let e : false ≡ true = (text_eq_iff (codes "b.com") (codes "a.com")).1 h in absurd (cc e)

parse_domain_map-perm_example :
    (m : Map Text) × (k : Map Text) × (parse_domain_map (render two_mappings) ≡ ok m)
    × (parse_domain_map (render reversed) ≡ ok k)
    × ((host : Text) → lookup m host ≡ lookup k host)
parse_domain_map-perm_example =
    parse_domain_map-perm two_mappings reversed writable (writable.1.0, (writable.0, tt))
      ((domains_differ, tt), (tt, tt)) (Perm.swap _ _ [])

parse_domain_map-fails_example :
    fails (parse_domain_map (codes "a.com=http://x,b.com"))
    ≡ any is_malformed (split b',' (codes "a.com=http://x,b.com"))
parse_domain_map-fails_example = parse_domain_map-fails (codes "a.com=http://x,b.com")

parse-render_example :
    (m : Map Text) × (parse_domain_map (render two_mappings) ≡ ok m)
    × ((host : Text) → lookup m host ≡ last_for host two_mappings)
parse-render_example = parse-render two_mappings writable

parse_domain_map-IsMapping_example : All IsMapping (parse-render two_mappings writable).0
parse_domain_map-IsMapping_example =
    parse_domain_map-IsMapping (render two_mappings) (parse-render two_mappings writable).0
      (parse-render two_mappings writable).1

abbrev hour_utc : Utc
hour_utc = record { year = 2024; month = 3; day = 15; hour = 14 }

abbrev hour_bounds : (2024 < 10000) × (3 < 100) × (15 < 100) × (14 < 100)
hour_bounds = (omega arith, omega arith, omega arith, omega arith)

generate_key_injective_example : (codes "a.com" ≡ codes "a.com") × (hour_utc ≡ hour_utc)
generate_key_injective_example =
    generate_key_injective (codes "a.com") (codes "a.com") hour_utc hour_utc hour_bounds hour_bounds
      refl

init_metrics_iff_example :
    (((init_metrics none (λ c. none)).0 ≡ none) ↔ (
      (◌≡◌ {A = Option Error} none none) × All (λ c. ◌≡◌ {A = Option Error} none none) creations))
    × ((init_metrics none (λ c. none)).0 ≡ none
        → (i : Instrument) → Assigned i (init_metrics none (λ c. none)).1)
init_metrics_iff_example = init_metrics_iff (λ c. none) none
