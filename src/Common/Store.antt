-- ===== src/Common/Store.antt =====
-- A collection of documents under their `_id`. Identifiers are only compared, so they are numbers.
use Prim.Native.Nat.{ℕ, ◌+◌}
use mathlib.Core.Path.{◌≡◌, refl, subst, ap, sym, ◌∙◌}
use mathlib.Core.Logic.{◌≢◌, inl, inr}
use mathlib.Core.Bool.{Bool, true, false}
use mathlib.Core.List.{List, [], ◌∷◌}
use mathlib.Core.Option.{Option, none, some, some-injective}
use native.Mathlib.Omega.{arith}
use bckashbackend.Common.Tests.{if◌then◌else◌, ◌==◌, Bool-cases, Option-cases, or_else, ==→≡, ==→≢}
use bckashbackend.Common.Lists.{All, sum_by}

abbrev pub Store {ℓ} : Type ℓ → Type ℓ
Store V = List (ℕ × V)

module _ {ℓ} {V : Type ℓ} where
  -- `findById(k)`
  abbrev pub find : ℕ → Store V → Option V
  find k [] = none
  find k ((j, v) ∷ d) = if k == j then some v else find k d

  -- `updateOne({ _id: k }, …)`; a missing document is left missing
  abbrev pub modify : ℕ → (V → V) → Store V → Store V
  modify k f [] = []
  modify k f ((j, v) ∷ d) =
      let rest = modify k f d in if k == j then (j, f v) ∷ d else (j, v) ∷ rest

  -- `findOneAndUpdate({ _id: k, …guard }, …)`: the guard is tested and the write made in one step
  abbrev pub update_if : ℕ → (V → Bool) → (V → V) → Store V → Option (V × Store V)
  update_if k guard f d = elim (find k d) [
    | none ↦ none
    | some v ↦ if guard v then some (f v, modify k f d) else none
  ]

  -- An update with `upsert: true`: a missing document is created as v, and one that is there is changed.
  unfoldable pub upsert : ℕ → V → (V → V) → Store V → Store V
  upsert k v f d = elim (find k d) [ none ↦ (k, v) ∷ d | some w ↦ modify k f d ]

  -- `findOneAndDelete({ _id: k })`
  abbrev pub erase : ℕ → Store V → Store V
  erase k [] = []
  erase k ((j, v) ∷ d) = let rest = erase k d in if k == j then d else (j, v) ∷ rest

  pub find-modify_self :
      (k : ℕ) (f : V → V) (d : Store V) {v : V}
      → find k d ≡ some v
      → find k (modify k f d) ≡ some (f v)
  find-modify_self k f [] h = ground arith
  find-modify_self k f ((j, w) ∷ d) h = elim (Bool-cases (k == j)) [
    | inl same ↦ rw same (
        rw same
          (ap {B = Option V} (λ o. elim o [ none ↦ none | some x ↦ some (f x) ]) (rw same at h)))
    | inr other ↦ rw other (rw other (find-modify_self k f d (rw other at h)))
  ]

  pub find-modify_ne :
      (j k : ℕ) (f : V → V) (d : Store V) → j ≢ k → find j (modify k f d) ≡ find j d
  find-modify_ne j k f [] h = refl
  find-modify_ne j k f ((i, w) ∷ d) h = ground (arith, find-modify_ne j k f d h)

  -- What is read of a key, z where it is missing, after an upsert that makes z the value it inserts.
  pub or_else-upsert :
      (j k : ℕ) (v z : V) (f : V → V) (d : Store V)
      → f z ≡ v
      → or_else (find j (upsert k v f d)) z
        ≡ (if j == k then f (or_else (find j d) z) else or_else (find j d) z)
  unfolding upsert
  or_else-upsert j k v z f d h = elim (Bool-cases (j == k)) [
    | inl same ↦
        let same' = ==→≡ j k same in
        elim (Option-cases (find k d)) [
          | inl missing ↦
              let missing' : find j d ≡ none = rw same' missing in
              rw same (rw (missing, upsert) (rw (missing', same) (sym h)))
          | inr (n, there) ↦
              let there' : find j d ≡ some n = rw same' there in
              let after : find j (modify k f d) ≡ some (f n) =
                rw same' (find-modify_self k f d there) in
              rw same (rw (there, upsert) (rw there' (rw after refl)))
        ]
    | inr other ↦ elim (Option-cases (find k d)) [
      | inl missing ↦ rw other (rw (missing, upsert) (rw other refl))
      | inr (n, there) ↦
          let after = find-modify_ne j k f d (==→≢ j k other) in
          rw other (rw (there, upsert) (rw after refl))
    ]
  ]

  update_if-some_found :
      (k : ℕ) (guard : V → Bool) (f : V → V) (d : Store V) (w : V) {r : V × Store V}
      → find k d ≡ some w
      → (if guard w then some (f w, modify k f d) else none) ≡ some r
      → (v : V) × (find k d ≡ some v) × (guard v ≡ true) × (r ≡ (f v, modify k f d))
  update_if-some_found k guard f d w {r} found e = elim (Bool-cases (guard w)) [
    | inl pass ↦ (w, found, pass, sym (some-injective (f w, modify k f d) r (rw pass at e)))
    | inr fail ↦ let e' : none ≡ some r = rw fail at e in cc
  ]

  -- A guarded write that is made has found a document that passes the guard.
  pub update_if-some :
      (k : ℕ) (guard : V → Bool) (f : V → V) (d : Store V) {r : V × Store V}
      → update_if k guard f d ≡ some r
      → (v : V) × (find k d ≡ some v) × (guard v ≡ true) × (r ≡ (f v, modify k f d))
  update_if-some k guard f d {r} e = elim (Option-cases (find k d)) [
    | inl missing ↦ let e' : none ≡ some r = rw (missing, update_if) at e in cc
    | inr (w, found) ↦ update_if-some_found k guard f d w found (rw (found, update_if) at e)
  ]

  pub update_if_passes :
      (k : ℕ) (guard : V → Bool) (f : V → V) (d : Store V) {v : V}
      → find k d ≡ some v
      → guard v ≡ true
      → update_if k guard f d ≡ some (f v, modify k f d)
  update_if_passes k guard f d found pass = rw (found, update_if) (rw pass)

  pub update_if_fails :
      (k : ℕ) (guard : V → Bool) (f : V → V) (d : Store V) {v : V}
      → find k d ≡ some v
      → guard v ≡ false
      → update_if k guard f d ≡ none
  update_if_fails k guard f d found fail = rw (found, update_if) (rw fail)

  module _ {κ} (P : V → Type κ) where
    abbrev pub Each : Store V → Type κ
    Each = All (λ e. P e.1)

    find-Each_step :
        (k j : ℕ) (w : V) (d : Store V) (b : Bool) {v : V}
        → P w
        → (find k d ≡ some v → P v)
        → (if b then some w else find k d) ≡ some v
        → P v
    find-Each_step k j w d true h rest e = subst P (some-injective w _ e) h
    find-Each_step k j w d false h rest e = rest e

    -- A property of every document holds of the one that is found.
    pub find-Each : (k : ℕ) (d : Store V) {v : V} → Each d → find k d ≡ some v → P v
    find-Each k [] h e = cc
    find-Each k ((j, w) ∷ d) h e = find-Each_step k j w d (k == j) h.0 (λ r. find-Each k d h.1 r) e

    -- A write keeps it, if the write keeps it of the document that is found.
    pub modify-Each :
        (k : ℕ) (f : V → V) (d : Store V)
        → ((v : V) → find k d ≡ some v → P v → P (f v))
        → Each d
        → Each (modify k f d)
    modify-Each k f [] g h = tt
    modify-Each k f ((j, w) ∷ d) g h = elim (Bool-cases (k == j)) [
      | inl same ↦ rw same (g w (rw same refl) h.0, h.1)
      | inr other ↦ rw other (h.0, modify-Each k f d (λ v e p. g v (rw other e) p) h.1)
    ]

    pub erase-Each : (k : ℕ) (d : Store V) → Each d → Each (erase k d)
    erase-Each k [] h = tt
    erase-Each k ((j, w) ∷ d) h = elim (Bool-cases (k == j)) [
      | inl same ↦ rw same h.1
      | inr other ↦ rw other (h.0, erase-Each k d h.1)
    ]

    -- The collection after a guarded write that was made.
    pub update_if-Each :
        (k : ℕ) (guard : V → Bool) (f : V → V) (d : Store V) {v : V} {d' : Store V}
        → update_if k guard f d ≡ some (v, d')
        → ((w : V) → find k d ≡ some w → guard w ≡ true → P w → P (f w))
        → Each d
        → Each d'
    update_if-Each k guard f d e keep h =
        let (w, found, pass, same) = update_if-some k guard f d e in
        subst Each (ap (λ r. r.1) (sym same)) (
          modify-Each k f d
            (λ u e' p.
              keep u e' (subst (λ x. guard x ≡ true) (some-injective w u (sym found ∙ e')) pass) p)
            h)

-- What an update does to a sum over a collection.
pub sum_by-modify :
    {V : Type 0} (w : V → ℕ) (id : ℕ) (f : V → V) (d : Store V) {v : V}
    → find id d ≡ some v
    → sum_by (λ e. w e.1) (modify id f d) + w v ≡ sum_by (λ e. w e.1) d + w (f v)
sum_by-modify w id f [] e = cc
sum_by-modify w id f ((j, u) ∷ d) {v} e = elim (Bool-cases (id == j)) [
  | inl same ↦
      let here : some u ≡ some v = rw same at e in
      let u_is_v = some-injective u v here in rw same (rw u_is_v (omega arith))
  | inr other ↦ let rest = sum_by-modify w id f d (rw other at e) in rw other (omega (arith, rest))
]
