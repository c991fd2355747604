-- ===== src/Common/Entries.antt =====
-- The entries of a collection, each a document under its id.
use bckashbackend.Common.Lists.{All, select}
use bckashbackend.Common.Store.{Store, find, modify}
use bckashbackend.Common.Tests.{◌==◌, Bool-cases, ==→≡}
use Prim.Native.Nat.{ℕ}
use mathlib.Core.Path.{◌≡◌, refl, subst, sym}
use mathlib.Core.Logic.{◌⊎◌, inl, inr}
use mathlib.Core.Bool.{Bool}
use mathlib.Core.List.{[], ◌∷◌}
use mathlib.Core.Option.{some, some-injective}

module _ {V : Type 0} where
  -- The document is there under the id.
  abbrev pub At : ℕ → V → Store V → Type 0
  At k v [] = ⊥
  At k v ((j, w) ∷ d) = ((j ≡ k) × (w ≡ v)) ⊎ At k v d

  abbrev pub EachAt : (ℕ → V → Type 0) → Store V → Type 0
  EachAt R = All (λ (e : ℕ × V). R e.0 e.1)

  pub weaken_each :
      (R S : ℕ → V → Type 0) (d : Store V)
      → ((k : ℕ) (v : V) → R k v → S k v)
      → EachAt R d
      → EachAt S d
  weaken_each R S [] f h = tt
  weaken_each R S ((j, w) ∷ d) f h = (f j w h.0, weaken_each R S d f h.1)

  pub each-At : (d : Store V) → EachAt (λ k v. At k v d) d
  each-At [] = tt
  each-At ((j, w) ∷ d) =
      (inl (refl, refl), weaken_each (λ k v. At k v d) _ d (λ k v there. inr there) (each-At d))

  module _ (R : ℕ → V → Type 0) where
    pub find-EachAt : (k : ℕ) (d : Store V) {v : V} → EachAt R d → find k d ≡ some v → R k v
    find-EachAt k [] h e = cc
    find-EachAt k ((j, w) ∷ d) {v} h e = elim (Bool-cases (k == j)) [
      | inl same ↦
          let here : some w ≡ some v = rw same at e in
          subst (λ i. R i v) (sym (==→≡ k j same)) (subst (R j) (some-injective w v here) h.0)
      | inr other ↦ find-EachAt k d h.1 (rw other at e)
    ]

    pub modify-EachAt :
        (k : ℕ) (f : V → V) (d : Store V)
        → ((j : ℕ) (v : V) → R j v → R j (f v))
        → EachAt R d
        → EachAt R (modify k f d)
    modify-EachAt k f [] g h = tt
    modify-EachAt k f ((j, w) ∷ d) g h = elim (Bool-cases (k == j)) [
      | inl same ↦ rw same (g j w h.0, h.1)
      | inr other ↦ rw other (h.0, modify-EachAt k f d g h.1)
    ]

    pub select-EachAt : (p : ℕ × V → Bool) (d : Store V) → EachAt R d → EachAt R (select p d)
    select-EachAt p [] h = tt
    select-EachAt p ((j, w) ∷ d) h = elim (Bool-cases (p (j, w))) [
      | inl kept ↦ rw kept (h.0, select-EachAt p d h.1)
      | inr cut ↦ rw cut (select-EachAt p d h.1)
    ]
