-- ===== src/Launcher/Maps.antt =====
-- `std::map` with text keys, as an association list.
use open_ocpp_simu.Common.{
  ◌≡◌, ◌≢◌, refl, Option, none, some, List, [], ◌∷◌, Text, text_eq, text_eq_iff, text_eq_refl,
  arith, if◌then◌else◌,
}

abbrev pub Map : Type 0 → Type 0
Map A = List (Text × A)

module _ {A : Type 0} where
  unfoldable pub lookup : Map A → Text → Option A
  lookup [] k = none
  lookup ((l, a) ∷ m) k = if text_eq l k then some a else lookup m k

  -- `m[k] = v`
  unfoldable pub insert : Text → A → Map A → Map A
  insert k v [] = (k, v) ∷ []
  insert k v ((l, a) ∷ m) = if text_eq l k then (l, v) ∷ m else (l, a) ∷ insert k v m

  unfoldable pub erase : Text → Map A → Map A
  erase k [] = []
  erase k ((l, a) ∷ m) = let rest = erase k m in if text_eq l k then rest else (l, a) ∷ rest

  pub lookup-insert_self : (k : Text) (v : A) (m : Map A) → lookup (insert k v m) k ≡ some v
  unfolding lookup insert
  lookup-insert_self k v [] = rw (text_eq_refl k) refl
  lookup-insert_self k v ((l, a) ∷ m) = ground (arith, lookup-insert_self k v m)

  pub lookup-insert_ne :
      (k j : Text) (v : A) (m : Map A) → k ≢ j → lookup (insert k v m) j ≡ lookup m j
  unfolding lookup insert
  lookup-insert_ne k j v [] ne = ground (arith, text_eq_iff k j)
  lookup-insert_ne k j v ((l, a) ∷ m) ne =
      ground (arith, lookup-insert_ne k j v m ne, text_eq_iff l j, text_eq_iff l k)

  pub lookup-erase_self : (k : Text) (m : Map A) → lookup (erase k m) k ≡ none
  unfolding lookup erase
  lookup-erase_self k [] = refl
  lookup-erase_self k ((l, a) ∷ m) = ground (arith, lookup-erase_self k m)
