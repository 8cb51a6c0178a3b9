-- ===== src/Gateway/Storage/Env/Keeps.antt =====
-- Actions that change nothing that is held.
use prompt_cache_storage.Prelude.{◌≡◌, Bool, true, false, if◌then◌else◌}
use prompt_cache_storage.Gateway.Storage.Rocks.{Rocks, RocksLaws}
use prompt_cache_storage.Gateway.Storage.Env.{State, M}
use prompt_cache_storage.Gateway.Storage.Env.Laws.{held}

module _ {r : Rocks} (laws : RocksLaws r) where
  abbrev pub Keeps : {A : Type 0} → M r A → Type 0
  Keeps m = (s : State r) → held laws (m s).1 ≡ held laws s

  pub if-Keeps :
      {A : Type 0} (b : Bool) (x y : M r A) → Keeps x → Keeps y → Keeps (if b then x else y)
  if-Keeps true x y h k = h
  if-Keeps false x y h k = k
