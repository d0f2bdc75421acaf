-- ===== src/Float.antt =====
-- Python's `float` and the parts of the language that compute with it, as an interface: the type
-- and its operations are a parameter of every model, since antt has no floating-point numbers.
use lang_graph_uas.Prelude.{ℕ, Bool, List, String}

-- A comparison is a test that is false at NaN, as in Python; `a >= b` is `le b a`, `a > b` is
-- `lt b a`.
pub record Float (F : Type 0) : Type 0 where
  -- `lit m d` is the literal with the digits `m`, of which `d` stand behind the point.
  pub lit : ℕ → ℕ → F
  pub neg : F → F
  pub ◌+◌ : F → F → F
  pub ◌-◌ : F → F → F
  pub ◌*◌ : F → F → F
  pub ◌/◌ : F → F → F
  pub pow : F → F → F
  pub abs : F → F
  pub sqrt : F → F
  -- `sum(xs)`, whose rounding the interpreter chooses.
  pub sum : List F → F
  -- `round(x, n)`.
  pub round : F → ℕ → F
  pub lt : F → F → Bool
  pub le : F → F → Bool
  pub inf : F
  pub is_finite : F → Bool
  -- `(later - earlier).total_seconds()` of two datetimes, counted in microseconds.
  pub total_seconds : ℕ → ℕ → F
  -- `f"{x}"`.
  pub show : F → String

module _ {F : Type 0} ⦃f : Float F⦄ where
  open f use {lit}

  abbrev pub zero_f : F
  zero_f = lit 0 0
