-- ===== src/Prelude/Dict.antt =====
-- Python's `dict`: an association list in insertion order. A write of a known key keeps its place.
use adn_dmr_peer_server.Prelude.Tests.{if◌then◌else◌, Bool-cases}
use adn_dmr_peer_server.Prelude.Eq.{Eq, ◌==◌}
use mathlib.Core.Path.{◌≡◌, refl, ap, ◌∙◌}
use mathlib.Core.Logic.{inl, inr}
use mathlib.Core.Option.{Option, none, some}
use mathlib.Core.List.{List, [], ◌∷◌}
use native.Mathlib.Omega.{arith}

abbrev pub Dict {ℓ κ} : Type ℓ → Type κ → Type (ℓ ⊔ κ)
Dict K V = List (K × V)

module _ {ℓ κ} {K : Type ℓ} {V : Type κ} ⦃e : Eq K⦄ where
  unfoldable pub get : K → Dict K V → Option V
  get k [] = none
  get k ((j, v) ∷ d) = if j == k then some v else get k d

  unfoldable pub put : K → V → Dict K V → Dict K V
  put k v [] = (k, v) ∷ []
  put k v ((j, w) ∷ d) = if j == k then (j, v) ∷ d else (j, w) ∷ put k v d

  -- Every entry of the key goes: a dictionary has one, and the law then needs no such premise.
  unfoldable pub pop : K → Dict K V → Dict K V
  pop k [] = []
  pop k ((j, w) ∷ d) = let rest = pop k d in if j == k then rest else (j, w) ∷ rest

  pub get-put :
      (k j : K) (v : V) (d : Dict K V) → get j (put k v d) ≡ (if k == j then some v else get j d)
  unfolding get put
  get-put k j v [] = refl
  get-put k j v ((i, w) ∷ d) =
      ground (arith, e.beq_iff k j, e.beq_iff i k, e.beq_iff i j, get-put k j v d)

  pub get-pop : (k j : K) (d : Dict K V) → get j (pop k d) ≡ (if k == j then none else get j d)
  unfolding get pop
  get-pop k j [] = ground arith
  get-pop k j ((i, w) ∷ d) =
      ground (arith, e.beq_iff k j, e.beq_iff i k, e.beq_iff i j, get-pop k j d)

  pub get-put_self : (k : K) (v : V) (d : Dict K V) → get k (put k v d) ≡ some v
  get-put_self k v d = ground (arith, get-put k k v d, (e.beq_iff k k).1 refl)

pub ruleset dict_laws = (get-put, get-pop)

-- A dictionary has one entry for a key.
module _ {ℓ κ} {K : Type ℓ} {V : Type κ} ⦃e : Eq K⦄ where
  abbrev pub Distinct : Dict K V → Type κ
  Distinct [] = Unit
  Distinct ((k, v) ∷ d) = (get k d ≡ none) × Distinct d

  pub pop-missing : (k : K) (d : Dict K V) → get k d ≡ none → pop k d ≡ d
  unfolding get pop
  pop-missing k [] h = refl
  pop-missing k ((j, v) ∷ d) h = elim (Bool-cases (j == k)) [
    | inl same ↦ cc (rw (same, get) at h)
    | inr other ↦ rw other (ap (λ t. (j, v) ∷ t) (pop-missing k d (rw (other, get) at h)))
  ]

  pub put-Distinct : (k : K) (v : V) (d : Dict K V) → Distinct d → Distinct (put k v d)
  unfolding put get
  put-Distinct k v [] h = (refl, tt)
  put-Distinct k v ((j, w) ∷ d) (fresh, h) = elim (Bool-cases (j == k)) [
    | inl same ↦ rw same (fresh, h)
    | inr other ↦
        rw other
          (get-put k j v d ∙ ground (arith, e.beq_iff k j, e.beq_iff j k), put-Distinct k v d h)
  ]

  pub pop-Distinct : (k : K) (d : Dict K V) → Distinct d → Distinct (pop k d)
  unfolding pop
  pop-Distinct k [] h = h
  pop-Distinct k ((j, w) ∷ d) (fresh, h) = elim (Bool-cases (j == k)) [
    | inl same ↦ rw same (pop-Distinct k d h)
    | inr other ↦ rw other (get-pop k j d ∙ ground (arith, fresh), pop-Distinct k d h)
  ]

-- A dictionary of lists, whose missing entries are empty and whose entries are deleted once they are.
abbrev pub list_at {ℓ} : {A : Type ℓ} → Option (List A) → List A
list_at none = []
list_at (some xs) = xs

abbrev pub set_or_delete {ℓ κ} : {A : Type ℓ} {B : Type κ} → List A → B → B → B
set_or_delete [] written deleted = deleted
set_or_delete (x ∷ xs) written deleted = written

module _ {ℓ κ} {K : Type ℓ} {A : Type κ} ⦃e : Eq K⦄ where
  pub get-set_or_delete :
      (k j : K) (xs : List A) (d : Dict K (List A))
      → list_at (get j (set_or_delete xs (put k xs d) (pop k d)))
        ≡ (if k == j then xs else list_at (get j d))
  get-set_or_delete k j [] d = ground (arith, get-pop k j d)
  get-set_or_delete k j (x ∷ xs) d = ground (arith, get-put k j (x ∷ xs) d)
