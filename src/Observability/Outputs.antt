-- ===== src/Observability/Outputs.antt =====
-- internal/observability/influx.go and prometheus.go: what their constructors accept, and the points.
use libra_flux.Base.{
  Bool, not, ◌&&◌, ◌||◌, Option, none, some, List, [], ◌∷◌, ◌++◌, ℤ, pos, ltb_ℤ, Result, ok, ◌>>◌,
  fail_if, if◌then◌else◌,
}
use libra_flux.Base.Text.{GoString, codes, ◌=s◌}
use libra_flux.Base.Assoc.{Assoc, string_eq, insert}
use libra_flux.Base.Decimal.{itoa_ℤ}

-- InfluxConfig; the interval is in nanoseconds.
pub record InfluxConfig : Type 0 where
  pub url : GoString
  pub token : GoString
  pub org : GoString
  pub bucket : GoString
  pub interval : ℤ

pub data OutputError : Type 0 where
  url_required token_required org_required bucket_required interval_low : OutputError
  port_outside : OutputError
  invalid_bind : GoString → OutputError

-- NewInfluxPusher, up to the client
unfoldable pub check_influx : InfluxConfig → Result OutputError (Unit {0})
check_influx c = do
  fail_if (c.url =s []) url_required
  fail_if (c.token =s []) token_required
  fail_if (c.org =s []) org_required
  fail_if (c.bucket =s []) bucket_required
  fail_if (ltb_ℤ c.interval (pos 1000000000)) interval_low

-- A metric of the registry, with its labels and the value that it has under each of its types.
pub data MetricType : Type 0 where
  counter gauge untyped histogram summary : MetricType

pub record Metric (F : Type 0) : Type 0 where
  pub labels : List (GoString × GoString)
  pub counter_value : Option F
  pub gauge_value : Option F
  pub untyped_value : Option F

pub record MetricFamily (F : Type 0) : Type 0 where
  pub name : GoString
  pub type : MetricType
  pub metrics : List (Metric F)

pub record Point (F : Type 0) : Type 0 where
  pub measurement : GoString
  pub tags : Assoc GoString GoString
  pub value : F

unfoldable pub tags_of :
    List (GoString × GoString) → Assoc GoString GoString → Assoc GoString GoString
unfolding insert
tags_of [] tags = tags
tags_of ((k, v) ∷ labels) tags = tags_of labels (insert k v tags)

module _ {F : Type 0} where
  unfoldable pub value_of : MetricType → Metric F → Option F
  value_of counter m = m.counter_value
  value_of gauge m = m.gauge_value
  value_of untyped m = m.untyped_value
  value_of histogram m = none
  value_of summary m = none

  unfoldable pub metric_points : GoString → MetricType → List (Metric F) → List (Point F)
  unfolding value_of tags_of
  metric_points name type [] = []
  metric_points name type (m ∷ ms) =
      let rest = metric_points name type ms in
      elim (value_of type m) [
        | none ↦ rest
        | some v ↦ record { measurement = name; tags = tags_of m.labels []; value = v } ∷ rest
      ]

  -- convertToPoints
  unfoldable pub convert_to_points : List (MetricFamily F) → List (Point F)
  unfolding metric_points
  convert_to_points [] = []
  convert_to_points (f ∷ fs) = metric_points f.name f.type f.metrics ++ convert_to_points fs

-- PrometheusConfig
pub record PrometheusConfig : Type 0 where
  pub port : ℤ
  pub path : GoString
  pub bind : GoString

unfoldable pub metrics_path : GoString → GoString
metrics_path [] = codes "/metrics"
metrics_path (c ∷ s) = if (c ∷ []) =s codes "/" then c ∷ s else b'/' ∷ c ∷ s

-- NewPrometheusServer: the path and the address that the server uses. `is_ip s` says that
-- `net.ParseIP(s)` is not nil.
unfoldable pub new_prometheus_server :
    (GoString → Bool) → PrometheusConfig → Result OutputError PrometheusConfig
unfolding metrics_path
new_prometheus_server is_ip c = do
  fail_if (ltb_ℤ c.port (pos 1) || ltb_ℤ (pos 65535) c.port) port_outside
  fail_if
      (not (c.bind =s [])
        && not (c.bind =s codes "0.0.0.0")
        && not (c.bind =s codes "::")
        && not (is_ip c.bind))
      (invalid_bind c.bind)
  ok (record { port = c.port; path = metrics_path c.path; bind = c.bind })

-- The address on which Start listens.
unfoldable pub listen_address : PrometheusConfig → GoString
listen_address c = c.bind ++ (codes ":" ++ itoa_ℤ c.port)
