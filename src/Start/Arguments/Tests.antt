-- ===== src/Start/Arguments/Tests.antt =====
-- A run of the options, and their theorem at a concrete input.
use wl.Prelude.{ℕ, ◌≡◌, refl, true, false, none, some, List, [], ◌∷◌, ◌++◌, arith}
use wl.Libc.{codes, strtol, skip_spaces, is_space, is_digit, magnitude, read_digits}
use wl.Compositor.Options.{fdpair}
use wl.Start.Arguments.{Opts, parse, set_option, word_of}
use wl.Start.Arguments.Given.{
  Given, term_pair, data_one, dashed, all_words, command_words, give_all, argv_of, parse-give_all,
}

abbrev no_opts : Opts
no_opts = record { rfd = none; wfd = none; datafd = none }

abbrev shell : List (List ℕ)
shell = (codes "-t" ++ 0 ∷ []) ∷ (codes "sh" ++ 0 ∷ []) ∷ []

abbrev given : List Given
given = term_pair true 3 4 ∷ data_one false 5 ∷ []

refuses_name :
    parse
      ((codes "-t3,4" ++ 0 ∷ []) ∷ (codes "-d" ++ 0 ∷ []) ∷ (codes "5" ++ 0 ∷ []) ∷ shell)
      no_opts
    ≡ none
unfolding parse set_option word_of fdpair strtol skip_spaces is_space is_digit magnitude read_digits
refuses_name = refl

refuses_option : parse ((codes "-w3" ++ 0 ∷ []) ∷ []) no_opts ≡ none
unfolding parse set_option word_of
refuses_option = refl

parse-give_all_example :
    parse (all_words given ++ command_words (dashed shell)) no_opts
    ≡ some (give_all given no_opts, argv_of (dashed shell))
parse-give_all_example =
    parse-give_all given (dashed shell) no_opts ((omega arith, omega arith), (omega arith, tt)) tt
