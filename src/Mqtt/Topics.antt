-- ===== src/Mqtt/Topics.antt =====
-- What `mqttMessageReceived` reads of a topic, by `std::filesystem::path` (on POSIX) and `atoi`.
use open_ocpp_simu.Common.{
  ℕ, ◌+◌, ◌-◌, ◌*◌, ◌%◌, ◌^◌, Bool, true, false, not, ◌&&◌, ◌||◌, ◌==◌, leb, ltb, Option, none,
  some, List, [], ◌∷◌, Text, is_empty, if◌then◌else◌,
}

-- The text between the slashes, the empty ones included.
unfoldable pub segments : Text → List Text
segments [] = [] ∷ []
segments (c ∷ s) = elim (segments s) [
  | [] ↦ []
  | seg ∷ rest ↦ if c == 47 then [] ∷ seg ∷ rest else (c ∷ seg) ∷ rest
]

unfoldable pub last_segment : List Text → Text
last_segment [] = []
last_segment (s ∷ []) = s
last_segment (s ∷ t ∷ rest) = last_segment (t ∷ rest)

-- `path::filename()`
unfoldable pub filename : Text → Text
filename topic = last_segment (segments topic)

-- Slashes in a row count once. One at the end adds an empty element after a name.
unfoldable pub names : Bool → List Text → List Text
names after_name [] = []
names after_name (s ∷ []) = if is_empty s && not after_name then [] else s ∷ []
names after_name (s ∷ t ∷ rest) =
    if is_empty s then names after_name (t ∷ rest) else s ∷ names true (t ∷ rest)

-- The elements of a path, from `begin()` to `end()`, the root directory included.
unfoldable pub elements : Text → List Text
elements [] = []
elements (c ∷ s) =
    let rest = names false (segments (c ∷ s)) in if c == 47 then (47 ∷ []) ∷ rest else rest

-- `*iter` after two `iter--` from `end()`, which a path of fewer elements does not have.
unfoldable pub before_last : List Text → Option Text
before_last [] = none
before_last (s ∷ []) = none
before_last (s ∷ t ∷ []) = some s
before_last (s ∷ t ∷ u ∷ rest) = before_last (t ∷ u ∷ rest)

abbrev pub is_space : ℕ → Bool
is_space c = c == 32 || (leb 9 c && leb c 13)

abbrev pub is_digit : ℕ → Bool
is_digit c = leb 48 c && leb c 57

unfoldable pub read_digits : ℕ → Text → ℕ
read_digits n [] = n
read_digits n (c ∷ s) =
    let rest = read_digits (10 * n + (c - 48)) s in if is_digit c then rest else n

-- `static_cast<unsigned int>(atoi(s))`, where `atoi` is `strtol` (which saturates) cast to `int`.
unfoldable pub positive_u32 : ℕ → ℕ
positive_u32 n = if ltb n (2 ^ 63) then n % 2 ^ 32 else 2 ^ 32 - 1

unfoldable pub negative_u32 : ℕ → ℕ
negative_u32 n = if ltb n (2 ^ 63) then (2 ^ 32 - n % 2 ^ 32) % 2 ^ 32 else 0

unfoldable pub atoi_u32 : Text → ℕ
atoi_u32 [] = 0
atoi_u32 (c ∷ s) =
    let rest = atoi_u32 s in
    if is_space c
    then rest
    else if c == 45
    then negative_u32 (read_digits 0 s)
    else if c == 43
    then positive_u32 (read_digits 0 s)
    else positive_u32 (read_digits 0 (c ∷ s))
