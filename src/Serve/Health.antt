-- ===== src/Serve/Health.antt =====
-- The health services: `healthServer` of cmd/ohttp-relay/health.go, and the one that App.Run
-- registers, of pkg/ohttp-relay/app/app.go. Log lines are left out.
use ohttp_relay.Prelude.{ℕ, Option, some, List, [], ◌∷◌}
use ohttp_relay.Text.{Text, codes}
use ohttp_relay.Fault.{Error, status, end, Result, ok, bind}

pub data Serving : Type 0 where
  serving : Serving

-- codes.Unimplemented of package grpc
abbrev pub unimplemented : ℕ
unimplemented = 12

-- the name of the service of Envoy's API, ExternalProcessor_ServiceDesc.ServiceName, is `name`
module _ (name : Text) where
  -- Check of both: any service is serving.
  unfoldable pub check : Text → Result Serving
  check service = ok serving

  -- List
  unfoldable pub list : Result (List (Text × Serving))
  unfolding check
  list = bind (check name) (λ response. ok ((name, response) ∷ []))

-- Watch of cmd/ohttp-relay/health.go
unfoldable pub watch : Option Error
watch = some (status unimplemented (codes "Watch is not implemented") end)

-- Watch of app.go sends one answer, and ends with the error of the sending.
unfoldable pub app_watch : (Serving → Option Error) → Option Error
app_watch send = send serving
