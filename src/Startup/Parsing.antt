-- ===== src/Startup/Parsing.antt =====
-- The loop on the arguments ends, and reads nothing behind them.
use mathlib.Core.Path.{subst}
use open_ocpp_simu.Common.{
  ℕ, zero, suc, ◌≤◌, ◌≡◌, ◌≢◌, refl, Bool, true, false, Option, none, some, List, [], ◌∷◌, ◌++◌,
  Text, codes, text_eq, text_eq_iff, length, arith, if◌then◌else◌, Bool-cases, inl, inr,
}
use open_ocpp_simu.Startup.Arguments.{
  Params, is_value, more_files, more_words, insert_file, ArgStep, next, bad_param, one_value,
  add_files, add_words, arg_step, Parsed, out_of_fuel, null_read, usage, parsed, parse_loop,
}

-- The last argument, if any, does not look like an option.
abbrev pub ends_in_value : List Text → Bool
ends_in_value [] = true
ends_in_value (a ∷ []) = is_value a
ends_in_value (a ∷ b ∷ args) = ends_in_value (b ∷ args)

-- What is left after a step: no more arguments than before, with the same end.
abbrev IsRest : List Text → List Text → Type 0
IsRest args rest =
    (length rest ≤ length args) × (ends_in_value args ≡ true → ends_in_value rest ≡ true)

IsRest-tail : (a : Text) (args rest : List Text) → IsRest args rest → IsRest (a ∷ args) rest
IsRest-tail a [] [] h = (omega arith, λ e. refl)
IsRest-tail a [] (b ∷ rest) h = absurd (omega (arith, h.0))
IsRest-tail a (b ∷ args) rest h = (omega (arith, h.0), h.1)

more_files-IsRest : (files args : List Text) → IsRest args (more_files files args).1
unfolding more_files
more_files-IsRest files [] = (omega arith, λ e. e)
more_files-IsRest files (a ∷ args) = elim (Bool-cases (is_value a)) [
  | inl h ↦ rw h (
      IsRest-tail a args (more_files (insert_file a files) args).1
        (more_files-IsRest (insert_file a files) args))
  | inr h ↦ rw h (omega arith, λ e. e)
]

more_words-IsRest : (name : Text) (args : List Text) → IsRest args (more_words name args).1
unfolding more_words
more_words-IsRest name [] = (omega arith, λ e. e)
more_words-IsRest name (a ∷ args) = elim (Bool-cases (is_value a)) [
  | inl h ↦ rw h (
      IsRest-tail a args (more_words (name ++ (codes " " ++ a)) args).1
        (more_words-IsRest (name ++ (codes " " ++ a)) args))
  | inr h ↦ rw h (omega arith, λ e. e)
]

-- A good step: where one reads the null pointer, the arguments ended in an option.
abbrev IsGood : Text → List Text → Option ArgStep → Type 0
IsGood a rest none = ends_in_value (a ∷ rest) ≡ false
IsGood a rest (some (bad_param b)) = Unit
IsGood a rest (some (next p left)) = IsRest rest left

one_value-IsGood :
    (a : Text) (rest : List Text) (set : Text → Params)
    → is_value a ≡ false
    → IsGood a rest (one_value rest set)
one_value-IsGood a [] set h = h
one_value-IsGood a (v ∷ rest) set h = IsRest-tail v rest rest (omega arith, λ e. e)

add_files-IsGood :
    (a : Text) (rest : List Text) (p : Params)
    → is_value a ≡ false
    → IsGood a rest (add_files rest p)
add_files-IsGood a [] p h = h
add_files-IsGood a (v ∷ rest) p h =
    IsRest-tail v rest (more_files (insert_file v p.diag_files) rest).1
      (more_files-IsRest (insert_file v p.diag_files) rest)

add_words-IsGood :
    (a : Text) (rest : List Text) (p : Params)
    → is_value a ≡ false
    → IsGood a rest (add_words rest p)
add_words-IsGood a [] p h = h
add_words-IsGood a (v ∷ rest) p h =
    IsRest-tail v rest (more_words v rest).1 (more_words-IsRest v rest)

-- A test for an option, whose text is not a value.
if-IsGood :
    (a opt : Text) (rest : List Text) (x y : Option ArgStep)
    → is_value opt ≡ false
    → (is_value a ≡ false → IsGood a rest x)
    → IsGood a rest y
    → IsGood a rest (if text_eq a opt then x else y)
if-IsGood a opt rest x y o f g = elim (Bool-cases (text_eq a opt)) [
  | inl h ↦ rw h (f (rw ((text_eq_iff a opt).0 h) o))
  | inr h ↦ rw h g
]

arg_step-IsGood : (a : Text) (rest : List Text) (p : Params) → IsGood a rest (arg_step a rest p)
unfolding arg_step
arg_step-IsGood a rest p =
    if-IsGood a (codes "-h") rest _ _ refl (λ h. tt)
      (if-IsGood a (codes "-w") rest _ _ refl (one_value-IsGood a rest _) (
        if-IsGood a (codes "-t") rest _ _ refl (one_value-IsGood a rest _) (
          if-IsGood a (codes "-c") rest _ _ refl (one_value-IsGood a rest _) (
            if-IsGood a (codes "-s") rest _ _ refl (one_value-IsGood a rest _) (
              if-IsGood a (codes "-n") rest _ _ refl (one_value-IsGood a rest _) (
                if-IsGood a (codes "-p") rest _ _ refl (one_value-IsGood a rest _) (
                  if-IsGood a (codes "-b") rest _ _ refl (one_value-IsGood a rest _) (
                    if-IsGood a (codes "-m") rest _ _ refl (one_value-IsGood a rest _) (
                      if-IsGood a (codes "-i") rest _ _ refl (one_value-IsGood a rest _) (
                        if-IsGood a (codes "-f") rest _ _ refl (add_files-IsGood a rest p) (
                          if-IsGood a (codes "-e") rest _ _ refl (one_value-IsGood a rest _) (
                            if-IsGood a (codes "-v") rest _ _ refl (add_words-IsGood a rest p) (
                              if-IsGood a (codes "-o") rest _ _ refl (one_value-IsGood a rest _)
                                tt)))))))))))))

-- How the loop ends where the last argument is a value, and where it is not.
abbrev HasEnded : Bool → Parsed → Type 0
HasEnded b out_of_fuel = ⊥
HasEnded b null_read = b ≡ false
HasEnded b (usage o) = Unit
HasEnded b (parsed p) = Unit

HasEnded-of : (b c : Bool) (r : Parsed) → (c ≡ true → b ≡ true) → HasEnded b r → HasEnded c r
HasEnded-of b c out_of_fuel f h = elim h [ ]
HasEnded-of b c null_read f h = ground (arith, f)
HasEnded-of b c (usage o) f h = tt
HasEnded-of b c (parsed p) f h = tt

ends_in_value-tail :
    (a : Text) (args : List Text) → ends_in_value (a ∷ args) ≡ true → ends_in_value args ≡ true
ends_in_value-tail a [] h = refl
ends_in_value-tail a (b ∷ args) h = h

HasEnded-step :
    (fuel : ℕ) (a : Text) (args : List Text) (p : Params) (o : Option ArgStep)
    → arg_step a args p ≡ o
    → length args ≤ fuel
    → IsGood a args o
    → ((rest : List Text) (q : Params)
        → length rest ≤ fuel
        → HasEnded (ends_in_value rest) (parse_loop fuel rest q))
    → HasEnded (ends_in_value (a ∷ args)) (parse_loop (suc fuel) (a ∷ args) p)
unfolding parse_loop
HasEnded-step fuel a args p none e h good more = rw (HasEnded, parse_loop, e) good
HasEnded-step fuel a args p (some (bad_param b)) e h good more = rw (HasEnded, parse_loop, e) tt
HasEnded-step fuel a args p (some (next q rest)) e h good more =
    rw (HasEnded, parse_loop, e)
      (HasEnded-of (ends_in_value rest) (ends_in_value (a ∷ args)) (parse_loop fuel rest q)
        (λ v. good.1 (ends_in_value-tail a args v)) (more rest q (omega (arith, good.0))))

parse_loop-HasEnded :
    (fuel : ℕ) (args : List Text) (p : Params)
    → length args ≤ fuel
    → HasEnded (ends_in_value args) (parse_loop fuel args p)
unfolding parse_loop
parse_loop-HasEnded fuel [] p h = tt
parse_loop-HasEnded zero (a ∷ args) p h = omega (arith, h)
parse_loop-HasEnded (suc fuel) (a ∷ args) p h =
    HasEnded-step fuel a args p (arg_step a args p) refl (omega arith) (arg_step-IsGood a args p)
      (parse_loop-HasEnded fuel)

-- As much fuel as there are arguments is enough. Where the last argument does not start with
-- a dash, the loop does not read behind the arguments: it prints the usage or gives the parameters.
pub parse_loop_lem :
    (fuel : ℕ) (args : List Text) (p : Params)
    → length args ≤ fuel
    → (parse_loop fuel args p ≢ out_of_fuel)
      × (ends_in_value args ≡ true → parse_loop fuel args p ≢ null_read)
parse_loop_lem fuel args p h =
    let ended = parse_loop-HasEnded fuel args p h in
    (
      λ e. subst (HasEnded (ends_in_value args)) e ended,
      λ v e.
          let no : ends_in_value args ≡ false = subst (HasEnded (ends_in_value args)) e ended in cc,
    )
