-- ===== src/Start/Main/Tests.antt =====
-- Runs of `main`, and its theorems at concrete inputs.
use wl.Prelude.{ℕ, ◌≡◌, refl, true, false, Option, none, some, List, [], ◌∷◌, ◌++◌, arith}
use wl.Libc.{codes, is_space, skip_spaces, read_digits, magnitude, strtol, is_digit}
use wl.Util.NumTab.{numget, numput}
use wl.Fs.State.{Reply, Aux}
use wl.Fs.Tags.{newtag}
use wl.Fs.Output.{write9p, push_loop}
use wl.Fs.Wait.{fswait, conclude, look_for, unqueue}
use wl.Fs.Requests.{fsinit, fsattach, fswalk, fsopen, fsread, fsclunk}
use wl.Compositor.Options.{splitpath, split_loop, fdpair, kbmapline}
use wl.Windows.Served.{shift_mod, send_tagged, send_tagged-KeepsTables, connection}
use wl.Start.{read_screen, termenv, drawinit, connect}
use wl.Start.Kbmap.{keymapinit}
use wl.Start.Arguments.{parse, set_option, word_of}
use wl.Start.Served.{two_keys, two_texts, starting, keys_read}
use wl.Start.Main.{Answers, Entered, begun, left, begin_main, Watch, turn_main, launch}
use wl.Start.Main.Watches.{Watches, turn_main-Watches}
use wl.Start.Main.Begins.{KbmapStarts, Begins, begin_main-Begins}

abbrev answers : Answers
answers = record {
  terminal = none;
  display = true;
  source = true;
  socket = true;
  shm = true;
  global = λ i. true;
  pair = true;
  cloexec = true;
  client = some 9;
  spawned = true;
}

abbrev words : List (List ℕ)
words = (codes "-t3,4" ++ 0 ∷ []) ∷ (codes "sh" ++ 0 ∷ []) ∷ []

abbrev opening : Aux
opening = connection (starting ++ keys_read)

reads_keys :
    KbmapStarts send_tagged send_tagged-KeepsTables shift_mod
      (λ n h. refl)
      (λ a. true)
      []
      (λ r. 8192)
      (λ n. true)
      true
      two_keys
      ((refl, two_texts.0), ((refl, two_texts.1), tt))
      true
      true
      3
      (omega arith)
      answers
      words
      opening
unfolding parse set_option word_of fdpair is_digit is_space magnitude read_digits skip_spaces strtol
    connect fsinit fsattach numget fswait write9p push_loop conclude look_for unqueue
    wl.Fs.Wait.wait_loop newtag fswalk numput fsopen fsread splitpath split_loop termenv drawinit
    read_screen wl.Fs.Requests.fsversion
reads_keys = (refl, (refl, (refl, tt)))

abbrev start : List (List ℕ) → Option Entered
start args =
    begin_main send_tagged shift_mod (λ a. true) [] (λ r. 8192) (λ n. true) true true true 3 answers
      args opening

begin_main-Begins_example :
    Begins send_tagged send_tagged-KeepsTables shift_mod
      (λ n h. refl)
      (λ a. true)
      []
      (λ r. 8192)
      (λ n. true)
      true
      two_keys
      ((refl, two_texts.0), ((refl, two_texts.1), tt))
      true
      true
      3
      (omega arith)
      answers
      (start words)
begin_main-Begins_example =
    begin_main-Begins send_tagged send_tagged-KeepsTables shift_mod (λ n h. refl) (λ a. true) []
      (λ r. 8192) (λ n. true) true two_keys ((refl, two_texts.0), ((refl, two_texts.1), tt)) true
      true 3 (omega arith) answers words opening (omega arith) tt reads_keys

-- Without -t the terminal is opened, which fails here.
no_terminal : start [] ≡ some left
unfolding begin_main parse
no_terminal = refl

abbrev child_of : Option Entered → Option (Option ℕ)
child_of (some (begun o c keymap child a)) = some child
child_of b = none

begins : child_of (start words) ≡ some (some 9)
unfolding begin_main parse set_option word_of fdpair is_digit is_space magnitude read_digits
    skip_spaces strtol newtag connect fsinit fsattach numget fswait write9p push_loop conclude
    look_for unqueue fswalk numput fsopen fsread splitpath split_loop termenv drawinit read_screen
    launch fsclunk keymapinit kbmapline wl.Keymap.Table.add_line wl.Keymap.Write.line_numbers
    wl.Libc.strtoul wl.Keymap.Table.enter wl.Keymap.Table.has_rune wl.Keymap.Table.must_grow
    wl.Keymap.Table.push wl.Keymap.Table.shift wl.Libc.Search.bsearch wl.Keymap.Runes.u16cmp
    wl.Keymap.Write.finish wl.Keymap.Write.symbol_lines wl.Keymap.Write.symbol_line
    wl.Keymap.Runes.runetoxkb wl.Keymap.Runes.offset_of wl.Fs.Requests.fsversion
    wl.Fs.Wait.wait_loop wl.Keymap.Runes.extra_offset wl.Keymap.Runes.string_at
    wl.Start.Kbmap.kbmap_loop wl.Keymap.Tables.xkbascii
begins = refl

-- A callback does nothing, and one byte is left to write, which is not taken.
abbrev idle : ℕ → ℕ → Reply → Aux → Aux
idle fn arg r a = a

abbrev watch : Watch
watch = record { aux = connection []; source = 1; eventmask = 0 }

turn_main-Watches_example : Watches (turn_main idle (λ a. a) (some (true, false)) (λ a. a) watch)
turn_main-Watches_example =
    turn_main-Watches idle (λ fn arg r a. omega arith) watch refl (λ a. a) (λ a. a)
      (some (true, false))
