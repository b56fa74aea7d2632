-- ===== src/Util/Tests.antt =====
-- Runs of util.c, and its theorems at concrete inputs.
use wl.Prelude.{ℕ, ◌-◌, ◌%◌, ◌^◌, ◌≡◌, refl, inl, true, false, some, List, [], ◌∷◌, ◌++◌, arith}
use wl.Util.NumTab.{NumTab, got, numget, numput}
use wl.Util.NumTab.Numbers.{IsNumTab}
use wl.Util.NumTab.Refines.{
  Call, get_number, put_number, Result, number, done, refused, Serving, used_of, run, run-Serving,
}
use wl.Util.Utf8.{char, utf8dec}
use wl.Util.Utf8.Laws.{encoding, utf8dec-encoding}
use wl.Util.Utf8.Sound.{IsSound, utf8dec-IsSound}

-- Shifts as on x86-64.
abbrev shift_mod : ℕ → ℕ
shift_mod n = 2 ^ (n % 64)

-- The first word is used up; 64 and 65 are in use, 66 is free.
abbrev two_words : NumTab
two_words = record { ent = 0 ∷ (2 ^ 64 - 4) ∷ [] }

numget_second_word :
    numget shift_mod false two_words ≡ got 66 (record { ent = 0 ∷ (2 ^ 64 - 8) ∷ [] })
unfolding numget
numget_second_word = refl

numget_grows :
    numget shift_mod true (record { ent = 0 ∷ [] })
    ≡ got 64 (record { ent = 0 ∷ (2 ^ 64 - 2) ∷ [] })
unfolding numget
numget_grows = refl

numput_once : numput two_words 65 ≡ some (record { ent = 0 ∷ (2 ^ 64 - 2) ∷ [] })
unfolding numput
numput_once = refl

utf8dec-encoding_example : utf8dec (encoding 0x20ac ++ 0x41 ∷ []) 4 ≡ char 0x20ac 3
utf8dec-encoding_example =
    utf8dec-encoding 0x20ac 4 (0x41 ∷ []) (omega arith, inl (omega arith)) (omega arith)

utf8dec-IsSound_example : IsSound 2 (utf8dec (0xe2 ∷ 0x82 ∷ 0xac ∷ []) 2)
utf8dec-IsSound_example =
    utf8dec-IsSound (0xe2 ∷ 0x82 ∷ 0xac ∷ []) 2 (omega arith) (omega arith) (omega arith)

abbrev calls : List Call
calls = get_number false ∷ put_number 64 ∷ put_number 64 ∷ get_number true ∷ []

run-Serving_example :
    (rs : List Result) × (tab' : NumTab) × (run shift_mod calls two_words ≡ some (rs, tab'))
    × IsNumTab tab'
    × Serving (used_of two_words) calls rs (used_of tab')
run-Serving_example = run-Serving shift_mod (λ n h. refl) calls two_words (omega arith)

calls_run :
    run shift_mod calls two_words
    ≡ some (number 66 ∷ done ∷ refused ∷ number 64 ∷ [], record { ent = 0 ∷ (2 ^ 64 - 8) ∷ [] })
unfolding run numget numput
calls_run = refl
