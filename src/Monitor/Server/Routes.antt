-- ===== src/Monitor/Server/Routes.antt =====
-- What a client of internal/monitor/server.go is told, by path and method.
use go_xport.Common.{
  ◌+◌, ◌*◌, ◌<◌, ◌≤◌, ltb, ltb→lt, ℕ, ◌≡◌, ◌≢◌, ◌⊎◌, ◌↔◌, inl, inr, refl, sym, ◌∙◌, [], ◌∷◌, List,
  Bytes, codes, equal, equal_iff, Option, none, some, arith, Bool-cases, zero, suc, if◌then◌else◌,
}
use go_xport.Monitor.Status.{
  HealthState, ok, warn, fail, DiskStats, NodeStatus, StagingEntry, evaluate, prune, minute,
}
use go_xport.Monitor.Status.Verdicts.{DiskCritical, IsStalled, evaluate-fail_iff}
use go_xport.Monitor.Tracker.{Tracker}
use go_xport.Monitor.Server.{
  moved, route, Response, not_found, method_not_allowed, service_unavailable, healthy, status,
  metrics, code, state_val, samples, health_of, handle_status, handle_healthz, handle_metrics,
  answer,
}
use go_xport.Monitor.Server.Health.{health_of-code, health_of-answers}

-- The sample of that name in an answer of /metrics.
abbrev sample : Bytes → List (Bytes × ℕ) → Option ℕ
sample name [] = none
sample name ((other, n) ∷ rest) = if equal name other then some n else sample name rest

-- What the text of the metrics says of their numbers: 0=OK, 1=WARN, 2=FAIL.
abbrev state_of_val : Option ℕ → Option HealthState
state_of_val (some zero) = some ok
state_of_val (some (suc zero)) = some warn
state_of_val (some (suc (suc zero))) = some fail
state_of_val _ = none

-- The node's state, as an answer tells it.
abbrev pub shown : Response → Option HealthState
shown (service_unavailable issues) = some fail
shown (healthy state) = some state
shown (status st) = some st.state
shown (metrics node role samples) = state_of_val (sample (codes "xport_state") samples)
shown (moved path) = none
shown not_found = none
shown method_not_allowed = none

abbrev pub IsRoute : Bytes → Type 0
IsRoute path = (path ≡ codes "/status") ⊎ (path ≡ codes "/healthz") ⊎ (path ≡ codes "/metrics")

-- `kept` is what is left of the times of errors when those five minutes ago or more are dropped.
pub data Purges (now : ℕ) : List ℕ → List ℕ → Type 0 where
  done : Purges now [] []
  recent :
      {ts : ℕ} {errors kept : List ℕ}
      → now < ts + 5 * 60 * 1_000_000_000
      → Purges now errors kept
      → Purges now (ts ∷ errors) (ts ∷ kept)
  old :
      {ts : ℕ} {errors kept : List ℕ}
      → ts + 5 * 60 * 1_000_000_000 ≤ now
      → Purges now errors kept
      → Purges now (ts ∷ errors) kept

-- A tracker whose old errors are dropped, and nothing else.
pub record IsPurged (now : ℕ) (t next : Tracker) : Type 0 where
  pub errors : Purges now t.recent_errors next.recent_errors
  pub others : next ≡ record t { recent_errors = next.recent_errors }

prune-Purges : (now : ℕ) (errors : List ℕ) → Purges now errors (prune now errors)
unfolding prune
prune-Purges now [] = Purges.done
prune-Purges now (ts ∷ errors) = elim (Bool-cases (ltb now (ts + 5 * minute))) [
  | inl e ↦ rw e (Purges.recent (ltb→lt now (ts + 5 * minute) e) (prune-Purges now errors))
  | inr e ↦ rw e (Purges.old (ground (arith, e)) (prune-Purges now errors))
]

module _ (now : ℕ) (disk : DiskStats) (staging : Option (List StagingEntry)) (t : Tracker) where
  evaluate-IsPurged : IsPurged now t (evaluate now disk staging t).1
  unfolding evaluate
  evaluate-IsPurged = record { errors = prune-Purges now t.recent_errors; others = refl }

  -- A path without a handler; another method than GET; or a GET, which purges old errors and tells
  -- the state that the node has.
  pub data Routed (path method : Bytes) : Response × Tracker → Type 0 where
    unknown : ¬ IsRoute path → Routed path method (not_found, t)
    refused : IsRoute path → method ≢ codes "GET" → Routed path method (method_not_allowed, t)
    told :
        {r : Response} {next : Tracker}
        → IsRoute path
        → method ≡ codes "GET"
        → shown r ≡ some (evaluate now disk staging t).0.state
        → (code r ≡ 503) ↔ ((path ≡ codes "/healthz") × (DiskCritical t disk ⊎ IsStalled t now))
        → (code r ≡ 503) ⊎ (code r ≡ 200)
        → IsPurged now t next
        → Routed path method (r, next)

  -- The path is taken as it is, or is not clean and the client is sent to the clean one.
  pub data Answered (clean_path : Bytes → Bytes) (path method : Bytes)
      : Response × Tracker → Type 0 where
    direct :
        {o : Response × Tracker}
        → (method ≡ codes "CONNECT") ⊎ (clean_path path ≡ path)
        → Routed path method o
        → Answered clean_path path method o
    redirected :
        method ≢ codes "CONNECT"
        → clean_path path ≢ path
        → Answered clean_path path method (moved (clean_path path), t)

  samples-shown :
      (st : NodeStatus) → state_of_val (sample (codes "xport_state") (samples st)) ≡ some st.state
  unfolding equal
  samples-shown st = by_state st.state
    where
      by_state : (state : HealthState) → state_of_val (some (state_val state)) ≡ some state
      by_state ok = refl
      by_state warn = refl
      by_state fail = refl

  health_of-shown : (st : NodeStatus) → shown (health_of st st.state) ≡ some st.state
  health_of-shown st = by_state st.state
    where
      by_state : (state : HealthState) → shown (health_of st state) ≡ some state
      by_state ok = refl
      by_state warn = refl
      by_state fail = refl

  -- What a handler that answers by `r` says, by the method.
  by_method :
      (path method : Bytes) (r : Response)
      → IsRoute path
      → shown r ≡ some (evaluate now disk staging t).0.state
      → (code r ≡ 503) ↔ ((path ≡ codes "/healthz") × (DiskCritical t disk ⊎ IsStalled t now))
      → (code r ≡ 503) ⊎ (code r ≡ 200)
      → Routed path method (
          if equal method (codes "GET")
          then (r, (evaluate now disk staging t).1)
          else (method_not_allowed, t))
  by_method path method r route state critical codes_are =
      elim (Bool-cases (equal method (codes "GET"))) [
        | inl e ↦ rw e (
            told route ((equal_iff method (codes "GET")).0 e) state critical codes_are
              evaluate-IsPurged)
        | inr e ↦ rw e (
            refused route
              (λ same. let never = (equal_iff method (codes "GET")).1 same in absurd (cc)))
      ]

  -- A handler that is not the one of /healthz, and answers by 200.
  fine :
      (path method : Bytes) (r : Response)
      → IsRoute path
      → path ≢ codes "/healthz"
      → shown r ≡ some (evaluate now disk staging t).0.state
      → code r ≡ 200
      → Routed path method (
          if equal method (codes "GET")
          then (r, (evaluate now disk staging t).1)
          else (method_not_allowed, t))
  fine path method r route other state is_fine =
      by_method path method r route state
        (λ h. absurd (omega (arith, h, is_fine)), λ h. absurd (other h.0)) (inr is_fine)

  route-Routed : (path method : Bytes) → Routed path method (route now disk staging path method t)
  unfolding route handle_status handle_healthz handle_metrics equal code
  route-Routed path method = elim (Bool-cases (equal path (codes "/status"))) [
    | inl e ↦ rw e (
        fine path method (status st) (inl ((equal_iff path (codes "/status")).0 e))
          (λ h. not_health (sym ((equal_iff path (codes "/status")).0 e) ∙ h)) refl refl)
    | inr a ↦ elim (Bool-cases (equal path (codes "/healthz"))) [
      | inl e ↦
          let here = (equal_iff path (codes "/healthz")).0 e in
          let fails = health_of-code st st.state in
          let by_node = evaluate-fail_iff now disk staging t in
          rw (a, e)
            (by_method path method (health_of st st.state) (inr (inl here)) (health_of-shown st)
              (λ h. (here, by_node.0 (fails.0 h)), λ h. fails.1 (by_node.1 h.1))
              (health_of-answers st st.state))
      | inr b ↦ elim (Bool-cases (equal path (codes "/metrics"))) [
        | inl e ↦
            rw (a, b, e)
              (fine path method (metrics st.node_id st.role (samples st))
                (inr (inr ((equal_iff path (codes "/metrics")).0 e)))
                (λ h. not_metrics (sym ((equal_iff path (codes "/metrics")).0 e) ∙ h))
                (samples-shown st) refl)
        | inr c ↦
            rw (a, b, c)
              (unknown (elim [
                | inl h ↦ absurd (let x = (equal_iff path (codes "/status")).1 h in cc)
                | inr (inl h) ↦ absurd (let x = (equal_iff path (codes "/healthz")).1 h in cc)
                | inr (inr h) ↦ absurd (let x = (equal_iff path (codes "/metrics")).1 h in cc)
              ]))
      ]
    ]
  ]
    where
      st : NodeStatus
      st = (evaluate now disk staging t).0

      not_health : codes "/status" ≢ codes "/healthz"
      not_health h = absurd (let x = (equal_iff (codes "/status") (codes "/healthz")).1 h in cc)

      not_metrics : codes "/metrics" ≢ codes "/healthz"
      not_metrics h = absurd (let x = (equal_iff (codes "/metrics") (codes "/healthz")).1 h in cc)

  -- A path that is not clean is redirected to the clean one, unless the method is CONNECT. Else a path
  -- without a handler is answered by 404, and another method than GET by 405. All these leave the
  -- tracker alone. A GET drops the errors that are five minutes old or more from the tracker, and
  -- changes nothing else of it; /status, /healthz and /metrics tell the same state, the one that
  -- Evaluate computes; and the answer's code is 503 exactly if the path is /healthz, and the disk is
  -- critically full or the node is a stalled sender, and else 200.
  pub answer-Answered :
      (clean_path : Bytes → Bytes) (path method : Bytes)
      → Answered clean_path path method (answer now disk staging clean_path path method t)
  unfolding answer
  answer-Answered clean_path path method = elim (Bool-cases (equal method (codes "CONNECT"))) [
    | inl e ↦
        rw e (direct (inl ((equal_iff method (codes "CONNECT")).0 e)) (route-Routed path method))
    | inr ne ↦ elim (Bool-cases (equal (clean_path path) path)) [
      | inl e ↦
          rw (ne, e)
            (direct (inr ((equal_iff (clean_path path) path).0 e)) (route-Routed path method))
      | inr a ↦
          rw (ne, a)
            (redirected
              (λ same. let never = (equal_iff method (codes "CONNECT")).1 same in absurd (cc))
              (λ same. let never = (equal_iff (clean_path path) path).1 same in absurd (cc)))
    ]
  ]
