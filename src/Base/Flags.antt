-- ===== src/Base/Flags.antt =====
-- The loop over `getopt`: the options of a command line set fields, one after the other.
use mathlib.Core.Option.{Option, none, some}
use mathlib.Core.Path.{◌≡◌, refl}
use mathlib.Core.List.{List, [], ◌∷◌, ◌++◌}
use graph_benchmark.Base.Options.{◌>>=◌, Option-cases}
use mathlib.Core.Logic.{inl, inr}

module _ {ℓ κ} {S : Type ℓ} {F : Type κ} (set_flag : S → F → Option S) where
  -- `none` is the usage text, on which the program returns.
  unfoldable pub parse_flags : S → List F → Option S
  parse_flags s [] = some s
  parse_flags s (f ∷ fs) = set_flag s f >>= λ s'. parse_flags s' fs

  -- An option that is refused in every state ends the program, wherever it stands.
  pub parse_flags-none :
      (f : F) (before after : List F)
      → ((s : S) → set_flag s f ≡ none)
      → (s : S) → parse_flags s (before ++ f ∷ after) ≡ none
  unfolding parse_flags
  parse_flags-none f [] after refused s = rw (refused s) refl
  parse_flags-none f (g ∷ before) after refused s = elim (Option-cases (set_flag s g)) [
    | inl e ↦ rw e refl
    | inr (s', e) ↦ rw e (parse_flags-none f before after refused s')
  ]

  pub parse_flags-append :
      (fs gs : List F) (s : S)
      → parse_flags s (fs ++ gs) ≡ (parse_flags s fs >>= λ s'. parse_flags s' gs)
  unfolding parse_flags
  parse_flags-append [] gs s = refl
  parse_flags-append (f ∷ fs) gs s = elim (Option-cases (set_flag s f)) [
    | inl e ↦ rw e refl
    | inr (s', e) ↦ rw e (parse_flags-append fs gs s')
  ]
