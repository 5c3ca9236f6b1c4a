-- ===== src/Prelude/Dict.antt =====
-- Maps as association lists, for the `HashMap`s of the program: no entry order is observed. The keys
-- have a Boolean equality, an instance argument.
use Prim.Native.Nat.{ℕ, suc, ◌≤◌}
use mathlib.Core.Path.{◌≡◌, refl, ap, ◌∙◌}
use mathlib.Core.Logic.{◌↔◌, ◌≢◌, ◌⊎◌, inl, inr}
use mathlib.Core.Bool.{Bool, true}
use mathlib.Core.Option.{Option, none, some}
use mathlib.Core.List.{List, [], ◌∷◌}
use native.Mathlib.Omega.{arith}
use rustgo.Prelude.Tests.{◌==◌, ==_iff, if◌then◌else◌, Bool-cases}
use rustgo.Prelude.Lists.{length}

pub record Key {ℓ} (K : Type ℓ) : Type ℓ where
  pub same : K → K → Bool
  pub same_iff : (j k : K) → (same j k ≡ true) ↔ (j ≡ k)

instance abbrev pub nat_key : Key ℕ
nat_key = record { same = ◌==◌; same_iff = ==_iff }

abbrev pub Dict {ℓ κ} : Type ℓ → Type κ → Type (ℓ ⊔ κ)
Dict K V = List (K × V)

abbrev pub map_some {ℓ κ} : {A : Type ℓ} {B : Type κ} → (A → B) → Option A → Option B
map_some f none = none
map_some f (some a) = some (f a)

module _ {ℓ κ} {K : Type ℓ} {V : Type κ} ⦃key : Key K⦄ where
  unfoldable pub get : Dict K V → K → Option V
  get [] k = none
  get ((j, v) ∷ d) k = let rest = get d k in if key.same j k then some v else rest

  unfoldable pub erase : Dict K V → K → Dict K V
  erase [] k = []
  erase ((j, v) ∷ d) k = let rest = erase d k in if key.same j k then rest else (j, v) ∷ rest

  unfoldable pub insert : Dict K V → K → V → Dict K V
  unfolding erase
  insert d k v = (k, v) ∷ erase d k

  -- `if let Some(v) = d.get_mut(&k) { … }`
  unfoldable pub modify : Dict K V → K → (V → V) → Dict K V
  modify [] k f = []
  modify ((j, v) ∷ d) k f =
      let rest = modify d k f in (if key.same j k then (j, f v) else (j, v)) ∷ rest

  -- `d.retain(|_, v| p(v))`
  unfoldable pub retain : (V → Bool) → Dict K V → Dict K V
  retain p [] = []
  retain p ((j, v) ∷ d) = let rest = retain p d in if p v then (j, v) ∷ rest else rest

  -- No key occurs twice.
  unfoldable pub IsDict : Dict K V → Type κ
  IsDict [] = Unit
  IsDict ((k, v) ∷ d) = (get d k ≡ none) × IsDict d

  pub get-erase :
      (d : Dict K V) (k j : K) → get (erase d k) j ≡ (if key.same k j then none else get d j)
  unfolding get erase
  get-erase [] k j = ground arith
  get-erase ((i, v) ∷ d) k j =
      ground (arith, get-erase d k j, key.same_iff i k, key.same_iff i j, key.same_iff k j)

  pub get-insert :
      (d : Dict K V) (k j : K) (v : V)
      → get (insert d k v) j ≡ (if key.same k j then some v else get d j)
  unfolding get insert
  get-insert d k j v = rw (get-erase d k j) (ground arith)

  pub get-modify :
      (d : Dict K V) (k j : K) (f : V → V)
      → get (modify d k f) j ≡ (if key.same k j then map_some f (get d j) else get d j)
  unfolding get modify
  get-modify [] k j f = ground arith
  get-modify ((i, v) ∷ d) k j f =
      ground (arith, get-modify d k j f, key.same_iff i k, key.same_iff i j, key.same_iff k j)

  pub erase_absent : (d : Dict K V) (k : K) → get d k ≡ none → erase d k ≡ d
  unfolding get erase
  erase_absent [] k h = refl
  erase_absent ((i, v) ∷ d) k h = ground (arith, erase_absent d k)

  pub length-insert :
      (d : Dict K V) (k : K) (v : V) → get d k ≡ none → length (insert d k v) ≡ suc (length d)
  unfolding insert
  length-insert d k v h = ap (λ e. suc (length e)) (erase_absent d k h)

  pub length-erase :
      (d : Dict K V) (k : K) (v : V)
      → IsDict d
      → get d k ≡ some v
      → length d ≡ suc (length (erase d k))
  unfolding get erase IsDict
  length-erase [] k v dict h = ground arith
  length-erase ((i, w) ∷ d) k v dict h = elim (Bool-cases (key.same i k)) [
    | inl here ↦
        let gone : get d k ≡ none = ground (arith, key.same_iff i k) in
        rw (here, erase_absent d k gone) refl
    | inr there ↦ rw there (ap suc (length-erase d k v dict.1 (ground arith)))
  ]

  pub length-modify : (d : Dict K V) (k : K) (f : V → V) → length (modify d k f) ≡ length d
  unfolding modify
  length-modify [] k f = refl
  length-modify ((i, v) ∷ d) k f = ground (arith, length-modify d k f)

  pub erase-IsDict : (d : Dict K V) (k : K) → IsDict d → IsDict (erase d k)
  unfolding erase IsDict
  erase-IsDict [] k dict = tt
  erase-IsDict ((i, v) ∷ d) k dict = ground (arith, get-erase d k i, erase-IsDict d k dict.1)

  pub insert-IsDict : (d : Dict K V) (k : K) (v : V) → IsDict d → IsDict (insert d k v)
  unfolding insert IsDict
  insert-IsDict d k v dict =
      (ground (arith, get-erase d k k, key.same_iff k k), erase-IsDict d k dict)

  pub modify-IsDict : (d : Dict K V) (k : K) (f : V → V) → IsDict d → IsDict (modify d k f)
  unfolding modify IsDict
  modify-IsDict [] k f dict = tt
  modify-IsDict ((i, v) ∷ d) k f dict =
      ground (arith, get-modify d k i f, key.same_iff k i, modify-IsDict d k f dict.1)

  pub retain_absent :
      (p : V → Bool) (d : Dict K V) (k : K) → get d k ≡ none → get (retain p d) k ≡ none
  unfolding get retain
  retain_absent p [] k h = refl
  retain_absent p ((i, v) ∷ d) k h = ground (arith, retain_absent p d k)

  pub get-retain :
      (p : V → Bool) (d : Dict K V) (k : K)
      → IsDict d
      → get (retain p d) k ≡ elim (get d k) [ none ↦ none | some v ↦ if p v then some v else none ]
  unfolding get retain IsDict
  get-retain p [] k dict = refl
  get-retain p ((i, v) ∷ d) k dict = elim (Bool-cases (key.same i k)) [
    | inl here ↦
        let gone : get d k ≡ none = ground (arith, key.same_iff i k, dict.0) in
        let left = retain_absent p d k gone in
        elim (Bool-cases (p v)) [
          | inl good ↦ rw (good, here, good) refl
          | inr bad ↦ rw (bad, here, bad) left
        ]
    | inr there ↦
        let rest = get-retain p d k dict.1 in
        elim (Bool-cases (p v)) [
          | inl good ↦ rw (good, there) rest
          | inr bad ↦ rw (bad, there) rest
        ]
  ]

  pub retain-IsDict : (p : V → Bool) (d : Dict K V) → IsDict d → IsDict (retain p d)
  unfolding retain IsDict
  retain-IsDict p [] dict = tt
  retain-IsDict p ((i, v) ∷ d) dict = ground (arith, retain_absent p d i, retain-IsDict p d dict.1)

  pub length-retain : (p : V → Bool) (d : Dict K V) → length (retain p d) ≤ length d
  unfolding retain
  length-retain p [] = omega arith
  length-retain p ((i, v) ∷ d) = ground (arith, length-retain p d)

  pub length-erase_le : (d : Dict K V) (k : K) → length (erase d k) ≤ length d
  unfolding erase
  length-erase_le [] k = omega arith
  length-erase_le ((i, v) ∷ d) k = ground (arith, length-erase_le d k)

  pub get-insert_same : (d : Dict K V) (k : K) (v : V) → get (insert d k v) k ≡ some v
  get-insert_same d k v = get-insert d k k v ∙ rw ((key.same_iff k k).1 refl) refl

  -- A new key hides no other.
  pub get-insert_old :
      (d : Dict K V) (k j : K) (v w : V)
      → get d k ≡ none
      → get d j ≡ some w
      → get (insert d k v) j ≡ some w
  get-insert_old d k j v w new at = elim (Bool-cases (key.same k j)) [
    | inl here ↦ absurd (ground (arith, ap (get d) ((key.same_iff k j).0 here)))
    | inr there ↦ get-insert d k j v ∙ rw (there, at) refl
  ]

  pub get-insert-cases :
      (d : Dict K V) (k j : K) (v w : V)
      → get (insert d k v) j ≡ some w
      → ((k ≡ j) × (v ≡ w)) ⊎ (get d j ≡ some w)
  get-insert-cases d k j v w at = elim (Bool-cases (key.same k j)) [
    | inl here ↦ inl ((key.same_iff k j).0 here, ground (arith, get-insert d k j v))
    | inr there ↦ inr (ground (arith, get-insert d k j v))
  ]

  pub get-erase_other : (d : Dict K V) (k j : K) → k ≢ j → get (erase d k) j ≡ get d j
  get-erase_other d k j apart = get-erase d k j ∙ ground (arith, key.same_iff k j)

  pub get-erase-cases :
      (d : Dict K V) (k j : K) (w : V) → get (erase d k) j ≡ some w → (k ≢ j) × (get d j ≡ some w)
  get-erase-cases d k j w at = elim (Bool-cases (key.same k j)) [
    | inl here ↦ absurd (ground (arith, get-erase d k j))
    | inr there ↦ (λ same. ground (arith, key.same_iff k j), ground (arith, get-erase d k j))
  ]
