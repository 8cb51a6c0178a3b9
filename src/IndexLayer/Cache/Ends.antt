-- ===== src/IndexLayer/Cache/Ends.antt =====
-- Properties of the results of calls, and of all entries of a map.
use prompt_cache_storage.Prelude.{
  ℕ, ℤ, ◌≡◌, refl, ◌∙◌, ap, subst, Bool, true, false, inl, inr, some, Bool-cases, if◌then◌else◌,
}
use prompt_cache_storage.Prelude.Assoc.{
  Key, Assoc, lookup, insert, lookup-insert, nat_key, bytes_key,
}
use prompt_cache_storage.IndexLayer.Run.{Run, done, overflow, out_of_fuel, ◌>>=◌}
use prompt_cache_storage.IndexLayer.Cache.Usable.{InRange}

-- What holds of the result of a call, if there is one.
abbrev pub Ends : {A : Type 0} → (A → Type 0) → Run A → Type 0
Ends Q (done a) = Q a
Ends Q overflow = Unit {0}
Ends Q out_of_fuel = Unit {0}

pub bind-Ends :
    {A B : Type 0} (P : A → Type 0) (Q : B → Type 0) (run : Run A) (f : A → Run B)
    → Ends P run
    → ((a : A) → P a → Ends Q (f a))
    → Ends Q (run >>= f)
bind-Ends P Q (done a) f h go = go a h
bind-Ends P Q overflow f h go = tt
bind-Ends P Q out_of_fuel f h go = tt

pub either-Ends :
    {A : Type 0} (Q : A → Type 0) (b : Bool) (x y : Run A)
    → Ends Q x
    → Ends Q y
    → Ends Q (if b then x else y)
either-Ends Q true x y hx hy = hx
either-Ends Q false x y hx hy = hy

pub usable-Ends :
    (run : Run ℤ) (total : ℕ)
    → ((u : ℤ) → run ≡ done u → InRange u total)
    → Ends (λ u. InRange u total) run
usable-Ends (done u) total h = h u refl
usable-Ends overflow total h = tt
usable-Ends out_of_fuel total h = tt

pub any-Ends : {A : Type 0} (run : Run A) → Ends (λ a. Unit {0}) run
any-Ends (done a) = tt
any-Ends overflow = tt
any-Ends out_of_fuel = tt

-- A property of everything that a map holds.
abbrev pub AllHeld : {K V : Type 0} ⦃key : Key K⦄ → (K → V → Type 0) → Assoc K V → Type 0
AllHeld {K} {V} P m = (k : K) (v : V) → lookup k m ≡ some v → P k v

pub insert-AllHeld :
    {K V : Type 0} ⦃key : Key K⦄ (P : K → V → Type 0) (k : K) (v : V) (m : Assoc K V)
    → P k v
    → AllHeld P m
    → AllHeld P (insert k v m)
insert-AllHeld {K} {V} ⦃key⦄ P k v m here h j w at = elim (Bool-cases (key.same k j)) [
  | inl e ↦
      let same = (key.same_iff k j).0 e in
      let known : some v ≡ some w = rw (lookup-insert k j v m, e) at at in
      subst (λ (x : K × V). P x.0 x.1) (ap (λ i. (i, v)) same ∙ ap (λ x. (j, x)) (cc known)) here
  | inr e ↦ h j w (rw (lookup-insert k j v m, e) at at)
]
