-- ===== src/Gateway/Storage/Env.antt =====
-- The state of a call of the store: the world behind RocksDB, and the metrics if there are any.
pub mod Laws
pub mod Keeps
pub mod Gauge
use prompt_cache_storage.Prelude.{
  ℕ, ℤ, Bool, true, false, Option, none, some, List, [], ◌∷◌, Bytes, codes, length,
}
use prompt_cache_storage.Gateway.Metrics
use prompt_cache_storage.Gateway.Metrics.{Metrics}
use prompt_cache_storage.Gateway.Storage.Rocks.{
  Rocks, Status, fine, not_found, broken, BatchOp, put, delete, Cursor,
}

-- The state of `Rocks` `r`, with the gateway's own.
pub record State (r : Rocks) : Type 0 where
  pub world : r.World
  pub metrics : Option Metrics

abbrev pub M : Rocks → Type 0 → Type 0
M r A = State r → A × State r

infixl 5 ◌>>=◌ ◌>>◌
abbrev pub ◌>>=◌ : {r : Rocks} {A B : Type 0} → M r A → (A → M r B) → M r B
◌>>=◌ m f s = let (a, s') = m s in f a s'

abbrev pub ◌>>◌ : {r : Rocks} {B : Type 0} → M r (Unit {0}) → M r B → M r B
◌>>◌ m k s = let (_, s') = m s in k s'

-- `st.ok() || st.IsNotFound()`
abbrev pub is_answer : Status → Bool
is_answer fine = true
is_answer not_found = true
is_answer (broken e) = false

module _ {r : Rocks} where
  abbrev pub pure : {A : Type 0} → A → M r A
  pure a s = (a, s)

  -- A call of RocksDB or of a clock.
  lift : {A : Type 0} → (r.World → A × r.World) → M r A
  lift f s = let (a, w) = f s.world in (a, record s { world = w })

  -- `observe_rocksdb`: the clock is read only if there are metrics.
  observe : Bytes → Status → ℕ → r.Time → M r (Unit {0})
  observe op st bytes start s = elim s.metrics [
    | none ↦ (tt, s)
    | some m ↦
        let (end, w) = r.steady_now s.world in
        let m' =
          Metrics.observe_rocksdb r.latency op (is_answer st) bytes (r.elapsed start end) m in
        (tt, record s { world = w; metrics = some m' })
  ]

  -- `start = Clock::now()`, the call, `observe_rocksdb`.
  unfoldable pub get : Bytes → M r (Status × Bytes)
  unfolding lift observe
  get k = do
    start ← lift r.steady_now
    (st, v) ← lift (λ w. let (st, v, w') = r.get k w in ((st, v), w'))
    observe (codes "get") st (length v) start
    pure (st, v)

  unfoldable pub write : Bytes → ℕ → List BatchOp → M r Status
  unfolding lift observe
  write op bytes ops = do
    start ← lift r.steady_now
    st ← lift (r.write ops)
    observe op st bytes start
    pure st

  unfoldable pub now_seconds : M r ℤ
  unfolding lift
  now_seconds = lift r.unix_now_seconds

  unfoldable pub seek : Bytes → M r Cursor
  unfolding lift
  seek k = lift (r.seek k)

  unfoldable pub timer : M r r.Time
  unfolding lift
  timer = lift r.steady_now

  unfoldable pub observe_iter : Status → r.Time → M r (Unit {0})
  unfolding observe
  observe_iter st start = observe (codes "iter") st 0 start
