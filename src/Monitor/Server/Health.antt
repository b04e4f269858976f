-- ===== src/Monitor/Server/Health.antt =====
-- The codes that /healthz of internal/monitor/server.go answers.
use go_xport.Common.{◌≡◌, ◌⊎◌, ◌↔◌, inl, inr, refl, arith}
use go_xport.Monitor.Status.{HealthState, ok, warn, fail, NodeStatus}
use go_xport.Monitor.Server.{code, health_of}

pub health_of-code :
    (st : NodeStatus) (state : HealthState) → (code (health_of st state) ≡ 503) ↔ (state ≡ fail)
unfolding code
health_of-code st ok = (λ h. absurd (omega arith), λ h. absurd (ground arith))
health_of-code st warn = (λ h. absurd (omega arith), λ h. absurd (ground arith))
health_of-code st fail = (λ h. refl, λ h. refl)

pub health_of-answers :
    (st : NodeStatus) (state : HealthState)
    → (code (health_of st state) ≡ 503) ⊎ (code (health_of st state) ≡ 200)
unfolding code
health_of-answers st ok = inr refl
health_of-answers st warn = inr refl
health_of-answers st fail = inl refl
