-- ===== src/Telemetry.antt =====
-- telemetry/telemetry.go: `Init` and the shutdown that it returns. The SDK's answers are arguments.
use botkit.Prelude.{
  tally, ℕ, ◌+◌, ◌-◌, ◌≡◌, refl, ◌⊎◌, inl, inr, Bool, true, false, not, ◌&&◌, ◌||◌, arith,
  if◌then◌else◌, nat_eq, Bool-cases, Text, codes, text_eq, is_blank,
}
use botkit.Errors.{Error, wrap, Result, ok, err, is_ok, Result-cases}

-- What the process has set up: slog's handler on stderr, the global logger provider, and the exporters
-- of the SDK that were opened and not shut down.
pub record Telemetry : Type 0 where
  pub slog_json : Bool
  pub provider : Bool
  pub exporters : ℕ

-- The function that `Init` returns: one that does nothing, or `provider.Shutdown`.
pub data Shutdown : Type 0 where
  no_op provider_shutdown : Shutdown

-- With resource.New's answer. The exporter is open.
with_resource : Result (Unit {0}) → Telemetry → Telemetry × Result Shutdown
with_resource (err e) t = (t, err (wrap (codes "otel resource") e))
with_resource (ok _) t = (record t { provider = true }, ok provider_shutdown)

-- With otlploghttp.New's answer.
with_exporter : Result (Unit {0}) → Result (Unit {0}) → Telemetry → Telemetry × Result Shutdown
unfolding with_resource
with_exporter (err e) resource t = (t, err (wrap (codes "otlp log exporter") e))
with_exporter (ok _) resource t = with_resource resource (record t { exporters = t.exporters + 1 })

-- `Init`; `endpoint` is OTEL_EXPORTER_OTLP_ENDPOINT.
unfoldable pub init :
    (endpoint : Text)
    → (exporter resource : Result (Unit {0})) → Telemetry
    → Telemetry × Result Shutdown
unfolding with_exporter
init endpoint exporter resource t =
    let logged = record t { slog_json = true } in
    if is_blank endpoint then (logged, ok no_op) else with_exporter exporter resource logged

-- Calling it. The provider's shutdown flushes, and shuts its exporter down.
unfoldable pub shut_down : Shutdown → Telemetry → Telemetry
shut_down no_op t = t
shut_down provider_shutdown t = record t { exporters = t.exporters - 1 }

-- Whether `Init` opens an exporter.
abbrev pub opens : Text → Result (Unit {0}) → Bool
opens endpoint exporter = not (is_blank endpoint) && is_ok exporter

pub init-cases :
    (endpoint : Text) (exporter resource : Result (Unit {0})) (t : Telemetry)
    → ((how : Shutdown) × (init endpoint exporter resource t).1 ≡ ok how
        × (is_blank endpoint || (is_ok exporter && is_ok resource) ≡ true)
        × ((init endpoint exporter resource t).0.exporters
            ≡ tally (opens endpoint exporter) t.exporters)
        × ((shut_down how (init endpoint exporter resource t).0).exporters ≡ t.exporters))
      ⊎ ((e : Error) × ((init endpoint exporter resource t).1 ≡ err e)
          × (is_blank endpoint || (is_ok exporter && is_ok resource) ≡ false)
          × ((init endpoint exporter resource t).0.exporters
              ≡ tally (opens endpoint exporter) t.exporters))
unfolding init shut_down
init-cases endpoint exporter resource t = elim (Bool-cases (is_blank endpoint)) [
  | inl unset ↦ inl (no_op, rw unset refl, rw unset refl, rw unset refl, rw unset refl)
  | inr set ↦ elim (Result-cases exporter) [
    | inr (x, failed) ↦ inr (
      wrap (codes "otlp log exporter") x,
      rw (set, failed) refl,
      rw (set, failed) refl,
      rw (set, failed) refl,
    )
    | inl (u, opened) ↦ elim (Result-cases resource) [
      | inr (x, failed) ↦ inr (
        wrap (codes "otel resource") x,
        rw (set, opened, failed) refl,
        rw (set, opened, failed) refl,
        rw (set, opened, failed) (omega arith),
      )
      | inl (v, found) ↦ inl (
        provider_shutdown,
        rw (set, opened, found) refl,
        rw (set, opened, found) refl,
        rw (set, opened, found) (omega arith),
        rw (set, opened, found) (omega arith),
      )
    ]
  ]
]
