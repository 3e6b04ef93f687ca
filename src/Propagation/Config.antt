-- ===== src/Propagation/Config.antt =====
-- internal/propagation/config.go: a field that is zero takes its default.
use urban_goggles.Base.{ℤ, pos, int_eq, if◌then◌else◌}
use urban_goggles.External.Float.{Float64}

pub record Config (F : Type 0) : Type 0 where
  pub base_dwell_secs : ℤ
  pub dwell_elasticity : F
  pub load_increase_pct : F
  pub confidence_decay : F
  pub min_confidence : F
  pub min_delay_threshold : ℤ
  pub max_depth : ℤ
  pub max_impacts : ℤ
  pub per_stop_min_count : ℤ

module _ (f : Float64) where
  unfoldable pub default_config : Config f.F
  default_config = record {
    base_dwell_secs = pos 30;
    dwell_elasticity = f.lit 3 1;
    load_increase_pct = f.lit 15 2;
    confidence_decay = f.lit 7 1;
    min_confidence = f.lit 2 1;
    min_delay_threshold = pos 15;
    max_depth = pos 5;
    max_impacts = pos 100;
    per_stop_min_count = pos 5;
  }

  or_int : ℤ → ℤ → ℤ
  or_int a default = if int_eq a (pos 0) then default else a

  or_float : f.F → f.F → f.F
  or_float a default = if f.eqf a (f.lit 0 0) then default else a

  unfoldable pub with_defaults : Config f.F → Config f.F
  unfolding or_int or_float default_config
  with_defaults c = record {
    base_dwell_secs = or_int c.base_dwell_secs default_config.base_dwell_secs;
    dwell_elasticity = or_float c.dwell_elasticity default_config.dwell_elasticity;
    load_increase_pct = or_float c.load_increase_pct default_config.load_increase_pct;
    confidence_decay = or_float c.confidence_decay default_config.confidence_decay;
    min_confidence = or_float c.min_confidence default_config.min_confidence;
    min_delay_threshold = or_int c.min_delay_threshold default_config.min_delay_threshold;
    max_depth = or_int c.max_depth default_config.max_depth;
    max_impacts = or_int c.max_impacts default_config.max_impacts;
    per_stop_min_count = or_int c.per_stop_min_count default_config.per_stop_min_count;
  }
