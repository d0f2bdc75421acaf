-- ===== src/Schemas/Telemetry.antt =====
-- backend/suas/schemas/telemetry.py: what an aircraft reports in flight, less its string fields
-- that nothing computes with.
use lang_graph_uas.Prelude.{ℕ, Bool, Option, String, if◌then◌else◌}
use lang_graph_uas.Float.{Float, zero_f}

-- `ts` is a datetime, in microseconds; `ts_text` is its `isoformat()`.
pub record TelemetrySnapshot (F : Type 0) : Type 0 where
  pub thread_id : String
  pub ts : ℕ
  pub ts_text : String
  pub soc_fraction : F
  pub remaining_leg_m : F
  pub remaining_hover_s : F
  pub oat_c : F
  pub wind_mps : Option F
  pub payload_attached : Bool

-- `max(0.0, (now - self.ts).total_seconds())`: the first of two equal arguments is kept.
pub age_s : {F : Type 0} ⦃f : Float F⦄ → TelemetrySnapshot F → ℕ → F
age_s ⦃f⦄ s now =
    let elapsed = f.total_seconds now s.ts in if f.lt zero_f elapsed then elapsed else zero_f
