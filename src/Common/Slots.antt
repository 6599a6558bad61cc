-- ===== src/Common/Slots.antt =====
-- A vector with an entry for each connector, by the connector's number.
use Prim.Native.Nat.{ℕ, zero, suc, ◌<◌}
use mathlib.Core.Path.{◌≡◌, refl, ap, ◌∙◌}
use mathlib.Core.Logic.{◌≢◌}
use mathlib.Core.List.{List}
use mathlib.Core.Option.{Option, none, some}
use native.Mathlib.Omega.{arith}
use open_ocpp_simu.Common.Lists.{
  length, get_elem?, set, length-set, get_elem?_total, get_elem?-set_self, get_elem?-set_ne,
  lt_of_get_elem?,
}

-- `xs[id - 1u]` of a vector. Number 0 wraps round and is out of bounds like one past the end, which
-- is `none`.
module _ {ℓ} {A : Type ℓ} where
  unfoldable pub slot : List A → ℕ → Option A
  slot xs zero = none
  slot xs (suc i) = get_elem? xs i

  unfoldable pub modify_slot : List A → ℕ → (A → A) → Option (List A)
  modify_slot xs zero g = none
  modify_slot xs (suc i) g = elim (get_elem? xs i) [ none ↦ none | some a ↦ some (set xs i (g a)) ]

  -- The numbers of connectors go from 1 to the size.
  abbrev pub IsSlot : List A → ℕ → Type 0
  IsSlot xs id = (0 < id) × (id < suc (length xs))

module _ {ℓ} {A : Type ℓ} where
  pub slot_total : (xs : List A) (id : ℕ) → IsSlot xs id → (a : A) × (slot xs id ≡ some a)
  unfolding slot
  slot_total xs zero h = absurd (omega arith)
  slot_total xs (suc i) h = get_elem?_total xs i (omega arith)

  pub modify_slot_total :
      (xs : List A) (id : ℕ) (g : A → A)
      → IsSlot xs id
      → (ys : List A) × (modify_slot xs id g ≡ some ys) × (length ys ≡ length xs)
  unfolding modify_slot
  modify_slot_total xs zero g h = absurd (omega arith)
  modify_slot_total xs (suc i) g h =
      let (a, e) = get_elem?_total xs i (omega arith) in
      (set xs i (g a), rw (e, modify_slot) refl, length-set xs i (g a))

  pub modify_slot-slot :
      (xs : List A) (id : ℕ) (g : A → A) (a : A)
      → slot xs id ≡ some a
      → (ys : List A) × (modify_slot xs id g ≡ some ys)
  unfolding slot modify_slot
  modify_slot-slot xs zero g a h = cc
  modify_slot-slot xs (suc i) g a h =
      let there : get_elem? xs i ≡ some a = h in (set xs i (g a), rw (modify_slot, there) refl)

  pub modify_slot_inv :
      (xs ys : List A) (i : ℕ) (g : A → A)
      → modify_slot xs (suc i) g ≡ some ys
      → (a : A) × (get_elem? xs i ≡ some a) × (ys ≡ set xs i (g a))
  unfolding modify_slot
  modify_slot_inv xs ys i g e = go (get_elem? xs i) refl
    where
      go : (o : Option A) → get_elem? xs i ≡ o → (a : A) × (o ≡ some a) × (ys ≡ set xs i (g a))
      go none h = ground (arith, e, h)
      go (some a) h = (a, refl, ground (arith, e, h))

  pub length-modify_slot :
      (xs ys : List A) (id : ℕ) (g : A → A) → modify_slot xs id g ≡ some ys → length ys ≡ length xs
  unfolding modify_slot
  length-modify_slot xs ys zero g e = cc
  length-modify_slot xs ys (suc i) g e =
      let (a, _, w) = modify_slot_inv xs ys i g e in ap length w ∙ length-set xs i (g a)

  -- A write changes its own slot.
  pub slot-modify_slot_self :
      (xs ys : List A) (id : ℕ) (g : A → A) (a : A)
      → slot xs id ≡ some a
      → modify_slot xs id g ≡ some ys
      → slot ys id ≡ some (g a)
  unfolding slot modify_slot
  slot-modify_slot_self xs ys zero g a h e = cc
  slot-modify_slot_self xs ys (suc i) g a h e =
      let (b, r, w) = modify_slot_inv xs ys i g e in
      let same : b ≡ a = cc in
      rw w (get_elem?-set_self xs i (g b) (lt_of_get_elem? xs i b r) ∙ rw same refl)

  -- A write leaves the other slots alone.
  pub slot-modify_slot_ne :
      (xs ys : List A) (id other : ℕ) (g : A → A)
      → modify_slot xs id g ≡ some ys
      → id ≢ other
      → slot ys other ≡ slot xs other
  unfolding slot modify_slot
  slot-modify_slot_ne xs ys id zero g e h = refl
  slot-modify_slot_ne xs ys zero (suc j) g e h = cc
  slot-modify_slot_ne xs ys (suc i) (suc j) g e h =
      let (a, _, w) = modify_slot_inv xs ys i g e in
      rw w (get_elem?-set_ne xs i j (g a) (λ q. h (ap suc q)))
