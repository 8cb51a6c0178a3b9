-- ===== src/IndexLayer/Storage.antt =====
-- The abstract class `Storage` of index_layer/src/cache.h: `Put`, `GetRange` with its result and what it
-- left in `out`, `Delete` and `Size`. The state is that of the store behind it.
use prompt_cache_storage.Prelude.{ℕ, Bytes, Bool, ℤ}

pub record Storage : Type 1 where
  pub State : Type 0
  pub put : Bytes → Bytes → State → Bool × State
  pub get_range : Bytes → ℤ → State → Bool × Bytes × State
  pub delete : Bytes → State → Bool × State
  pub size : State → ℕ
