-- ===== src/Gateway/Storage/Env/Laws.antt =====
-- What the calls of RocksDB do to what the database holds, with the clocks and the metrics around
-- them.
use prompt_cache_storage.Prelude.{
  ℕ, ◌≡◌, refl, ◌∙◌, ap, subst, ◌⊎◌, inl, inr, Option, none, some, List, Bytes,
}
use prompt_cache_storage.Gateway.Metrics.{Metrics}
use prompt_cache_storage.Gateway.Storage.Rocks.{
  Rocks, RocksLaws, Status, fine, not_found, BatchOp, apply_batch,
}
use prompt_cache_storage.Gateway.Storage.Env.{
  State, get, write, seek, now_seconds, timer, observe, observe_iter,
}

module _ {r : Rocks} (laws : RocksLaws r) where
  -- What the database holds in a state.
  abbrev pub held : State r → Bytes → Option Bytes
  held s = laws.holds s.world

  observe_keeps :
      (op : Bytes) (st : Status) (n : ℕ) (start : r.Time) (s : State r)
      → held (observe op st n start s).1 ≡ held s
  unfolding observe
  observe_keeps op st n start s = go s.metrics s.world
    where
      go :
          (m : Option Metrics) (w : r.World)
          → held (observe op st n start (record { world = w; metrics = m })).1 ≡ laws.holds w
      go none w = refl
      go (some m) w = laws.steady_keeps w

  pub get_keeps : (k : Bytes) (s : State r) → held (get k s).1 ≡ held s
  unfolding get
  get_keeps k s =
      observe_keeps _ _ _ _ _
      ∙ laws.get_keeps k (r.steady_now s.world).1
      ∙ laws.steady_keeps s.world

  pub get_fine : (k : Bytes) (s : State r) → (get k s).0.0 ≡ fine → held s k ≡ some (get k s).0.1
  unfolding get
  get_fine k s h =
      subst (λ m. m k ≡ some (get k s).0.1) (laws.steady_keeps s.world)
        (laws.get_fine k (r.steady_now s.world).1 h)

  pub get_absent : (k : Bytes) (s : State r) → (get k s).0.0 ≡ not_found → held s k ≡ none
  unfolding get
  get_absent k s h =
      subst (λ m. m k ≡ none) (laws.steady_keeps s.world)
        (laws.get_absent k (r.steady_now s.world).1 h)

  -- A batch is written whole, or the status is not OK and nothing has changed.
  pub write_cases :
      (op : Bytes) (n : ℕ) (ops : List BatchOp) (s : State r)
      → ((j : Bytes) → held (write op n ops s).1 j ≡ apply_batch ops (held s) j)
        ⊎ (((write op n ops s).0 ≡ fine → ⊥) × (held (write op n ops s).1 ≡ held s))
  unfolding write
  write_cases op n ops s =
      let (start, w) = r.steady_now s.world in
      elim (laws.write_atomic ops w) [
        | inl done ↦ inl (λ j.
            ap (λ m. m j) (observe_keeps _ _ _ _ _)
            ∙ done j
            ∙ ap (λ m. apply_batch ops m j) (laws.steady_keeps s.world))
        | inr (failed, same) ↦
            inr (failed, observe_keeps _ _ _ _ _ ∙ same ∙ laws.steady_keeps s.world)
      ]

  pub now_keeps : (s : State r) → held (now_seconds s).1 ≡ held s
  unfolding now_seconds
  now_keeps s = laws.unix_keeps s.world

  pub seek_keeps : (k : Bytes) (s : State r) → held (seek k s).1 ≡ held s
  unfolding seek
  seek_keeps k s = laws.seek_keeps k s.world

  pub timer_keeps : (s : State r) → held (timer s).1 ≡ held s
  unfolding timer
  timer_keeps s = laws.steady_keeps s.world

  pub observe_iter_keeps :
      (st : Status) (start : r.Time) (s : State r) → held (observe_iter st start s).1 ≡ held s
  unfolding observe_iter
  observe_iter_keeps st start s = observe_keeps _ _ _ _ _
