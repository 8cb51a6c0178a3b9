-- ===== src/IndexLayer/Main/Endings.antt =====
-- A property of how a run ends, through the steps of `main`.
use prompt_cache_storage.Prelude.{
  Bool, true, false, Option, none, some, ◌≡◌, refl, if◌then◌else◌, [],
}
use prompt_cache_storage.IndexLayer.Cache.{PrefixMap}
use prompt_cache_storage.IndexLayer.Main.Args.{Options}
use prompt_cache_storage.IndexLayer.Main.{Ending, uncaught, unless_thrown}

module _ {D S : Type 0} (P : Ending D S → Type 0) where
  pub either : (b : Bool) (x y : Ending D S) → P x → P y → P (if b then x else y)
  either true x y hx hy = hx
  either false x y hx hy = hy

  pub thrown_or :
      {A : Type 0} (o : Option A) (f : A → Ending D S)
      → P uncaught
      → ((a : A) → P (f a))
      → P (unless_thrown o f)
  thrown_or none f hu h = hu
  thrown_or (some a) f hu h = h a

  pub thrown_eq :
      {A : Type 0} (o : Option A) (f : A → Ending D S)
      → P uncaught
      → ((a : A) → o ≡ some a → P (f a))
      → P (unless_thrown o f)
  thrown_eq none f hu h = hu
  thrown_eq (some a) f hu h = h a refl

-- The map of a run before its command.
abbrev pub fresh : Options → PrefixMap
fresh o = record {
  block_size = o.block_size;
  bytes_per_token = o.bytes_per_token;
  version_clock = 0;
  prefix_map = [];
  obj_table = [];
}
