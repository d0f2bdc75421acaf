-- ===== src/Schemas/Provenance.antt =====
-- backend/suas/schemas/provenance.py: where a reference figure came from.
use lang_graph_uas.Prelude.{Bool, true, false, Option, String}

pub data FieldSource : Type 0 where
  datasheet flight_log secondary derived estimate unknown : FieldSource

pub data Confidence : Type 0 where
  low medium high : Confidence

-- A `FieldProvenance`; `value` is a float of the type `F`.
pub record FieldProvenance (F : Type 0) : Type 0 where
  pub value : F
  pub unit : String
  pub source : FieldSource
  pub source_url : Option String
  pub retrieved_at : Option String
  pub confidence : Confidence
  pub notes : String

-- Membership of `OPERATIONAL_GRADE`.
abbrev pub source_is_operational : FieldSource → Bool
source_is_operational datasheet = true
source_is_operational flight_log = true
source_is_operational _ = false

abbrev pub is_operational_grade : {F : Type 0} → FieldProvenance F → Bool
is_operational_grade p = source_is_operational p.source
