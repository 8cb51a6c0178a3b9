-- ===== src/Gateway/Storage/Env/Gauge.antt =====
-- Actions that leave the gauge of the requests in flight as it is.
use prompt_cache_storage.Prelude.{
  ℕ, ◌≡◌, refl, ap, Bool, true, false, Option, none, some, List, Bytes, if◌then◌else◌,
}
use prompt_cache_storage.Gateway.Metrics.{Metrics, observe_rocksdb}
use prompt_cache_storage.Gateway.Storage.Rocks.{Rocks, Status, BatchOp}
use prompt_cache_storage.Gateway.Storage.Env.{
  State, M, lift, observe, get, write, now_seconds, seek, timer, observe_iter,
}

abbrev pub gauge_of : Option Metrics → Option ℕ
gauge_of none = none
gauge_of (some m) = some m.inflight

-- The gauge, if there are metrics.
unfoldable pub gauge : {r : Rocks} → State r → Option ℕ
gauge s = gauge_of s.metrics

pub gauge-metrics : {r : Rocks} (s t : State r) → s.metrics ≡ t.metrics → gauge s ≡ gauge t
unfolding gauge
gauge-metrics s t h = ap gauge_of h

measured :
    (r : Rocks) (op : Bytes) (st : Status) (bytes : ℕ) (start : r.Time) (metrics : Option Metrics)
    (w : r.World)
    → gauge {r = r} (observe op st bytes start (record { world = w; metrics = metrics })).1
      ≡ gauge_of metrics
unfolding observe observe_rocksdb gauge
measured r op st bytes start none w = refl
measured r op st bytes start (some m) w = refl

module _ {r : Rocks} where
  abbrev pub LeavesGauge : {A : Type 0} → M r A → Type 0
  LeavesGauge m = (s : State r) → gauge (m s).1 ≡ gauge s

  pub if-LeavesGauge :
      {A : Type 0} (b : Bool) (x y : M r A)
      → LeavesGauge x
      → LeavesGauge y
      → LeavesGauge (if b then x else y)
  if-LeavesGauge true x y h k = h
  if-LeavesGauge false x y h k = k

  pub get-LeavesGauge : (k : Bytes) → LeavesGauge (get k)
  unfolding get lift gauge
  get-LeavesGauge k s = measured r _ _ _ _ s.metrics _

  pub write-LeavesGauge : (op : Bytes) (n : ℕ) (ops : List BatchOp) → LeavesGauge (write op n ops)
  unfolding write lift gauge
  write-LeavesGauge op n ops s = measured r op _ n _ s.metrics _

  pub now_seconds-LeavesGauge : LeavesGauge now_seconds
  unfolding now_seconds lift gauge
  now_seconds-LeavesGauge s = refl

  pub seek-LeavesGauge : (k : Bytes) → LeavesGauge (seek k)
  unfolding seek lift gauge
  seek-LeavesGauge k s = refl

  pub timer-LeavesGauge : LeavesGauge timer
  unfolding timer lift gauge
  timer-LeavesGauge s = refl

  pub observe_iter-LeavesGauge :
      (st : Status) (start : r.Time) → LeavesGauge (observe_iter st start)
  unfolding observe_iter gauge
  observe_iter-LeavesGauge st start s = measured r _ st 0 start s.metrics s.world
