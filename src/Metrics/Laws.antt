-- ===== src/Metrics/Laws.antt =====
-- metrics.go: InitMetrics leaves no instrument out.
use ohttp_relay.Prelude.{
  ◌≡◌, ◌↔◌, ◌⊎◌, inl, inr, refl, ap, Option, none, some, List, [], ◌∷◌, All, Option-cases,
}
use ohttp_relay.Fault.{Error}
use ohttp_relay.Exec.{
  Instrument, requests_total, errors_total, gateway_requests_total, traffic_bytes_in,
  traffic_bytes_out, request_duration, gateway_request_duration, request_size_bytes,
  response_size_bytes, active_requests,
}
use ohttp_relay.Metrics.{Creation, creations, create, init_metrics}

abbrev pub Assigned : Instrument → List Instrument → Type 0
Assigned i [] = ⊥
Assigned i (j ∷ js) = (i ≡ j) ⊎ Assigned i js

abbrev variables : List Creation → List Instrument
variables [] = []
variables (c ∷ cs) = c.variable ∷ variables cs

module _ (meter : Creation → Option Error) where
  create_all :
      (cs : List Creation) → All (λ c. meter c ≡ none) cs → create meter cs ≡ (none, variables cs)
  unfolding create
  create_all [] h = refl
  create_all (c ∷ cs) (h, hs) = rw (create, h, create_all cs hs)

  create-none : (cs : List Creation) → (create meter cs).0 ≡ none → All (λ c. meter c ≡ none) cs
  unfolding create
  create-none [] h = tt
  create-none (c ∷ cs) h = elim (Option-cases (meter c)) [
    | inl worked ↦ (worked, create-none cs (rw (create, worked) at h))
    | inr (e, failed) ↦ absurd (cc (rw (create, failed) at h))
  ]

  all_variables : (i : Instrument) → Assigned i (variables creations)
  all_variables requests_total = inl refl
  all_variables errors_total = inr (inl refl)
  all_variables gateway_requests_total = inr (inr (inl refl))
  all_variables request_duration = inr (inr (inr (inl refl)))
  all_variables gateway_request_duration = inr (inr (inr (inr (inl refl))))
  all_variables request_size_bytes = inr (inr (inr (inr (inr (inl refl)))))
  all_variables response_size_bytes = inr (inr (inr (inr (inr (inr (inl refl))))))
  all_variables active_requests = inr (inr (inr (inr (inr (inr (inr (inl refl)))))))
  all_variables traffic_bytes_in = inr (inr (inr (inr (inr (inr (inr (inr (inl refl))))))))
  all_variables traffic_bytes_out = inr (inr (inr (inr (inr (inr (inr (inr (inr (inl refl)))))))))

  -- InitMetrics reports no error exactly if the exporter and every instrument could be made, and
  -- then every metric variable has been assigned.
  pub init_metrics_iff :
      (exporter : Option Error)
      → (((init_metrics exporter meter).0 ≡ none)
          ↔ ((exporter ≡ none) × All (λ c. meter c ≡ none) creations))
        × ((init_metrics exporter meter).0 ≡ none
            → (i : Instrument) → Assigned i (init_metrics exporter meter).1)
  unfolding init_metrics
  init_metrics_iff (some e) = ((λ h. absurd (cc h), λ h. absurd (cc (h.0))), λ h. absurd (cc h))
  init_metrics_iff none = (
    (
      λ h. (refl, create-none creations h),
      λ h. ap (λ (r : Option Error × List Instrument). r.0) (create_all creations h.1),
    ),
    λ h i. rw (create_all creations (create-none creations h)) (all_variables i),
  )
