-- ===== src/Start/Tests.antt =====
-- Runs of the start of wl9.c, and its theorems at concrete inputs.
use wl.Prelude.{ℕ, ◌≡◌, refl, true, Option, none, some, List, [], ◌∷◌, ◌++◌, arith}
use wl.Prelude.Int.{ℤ, pos}
use wl.Libc.{codes, is_space, skip_spaces, read_digits, magnitude, strtol, is_digit}
use wl.Libc.Decimal.{decimal}
use wl.Util.NumTab.{numget, numput}
use wl.Fs.Output.{write9p, push_loop}
use wl.Fs.Wait.{fswait, conclude, look_for, unqueue, wait_loop}
use wl.Fs.Tags.{newtag}
use wl.Fs.Requests.{fsinit, fsattach, fswalk, fsopen, fsread}
use wl.Compositor.Options.{splitpath, split_loop}
use wl.Windows.Served.{shift_mod, send_tagged, connection}
use wl.Start.{Started, ok, err, Draw, Connection, screen, read_screen, termenv, drawinit, connect}
use wl.Start.Served.{new_screen, starting}
use wl.Start.Place.{read_screen-columns}

-- Three fields of /dev/draw/new that are not looked at.
abbrev middle : List ℕ
middle = codes "          0    x8r8g8b8           0 "

read_screen-columns_example :
    read_screen new_screen ≡ screen (decimal 11 7) (pos 0) (pos 0) (pos 1920) (pos 1080)
read_screen-columns_example =
    read_screen-columns 10 10 10 7 7 7 0 0 1920 1080 middle 32 [] refl refl refl refl refl refl
      (omega arith) (omega arith) (omega arith) (omega arith)

abbrev draw : Draw
draw = record {
  ctlfid = 0;
  datafid = 0;
  datafd = none;
  x0 = pos 0;
  y0 = pos 0;
  x1 = pos 0;
  y1 = pos 0;
  buflen = 0;
  imgid = record { ent = [] };
}

abbrev start : Started Connection
start = connect send_tagged shift_mod (λ a. true) [] (λ r. 8192) draw (connection starting)

abbrev numbers : Started Connection → List (Option ℕ) × ℤ × ℕ
numbers (ok c a) = (
  some c.draw.datafid ∷ some c.draw.ctlfid ∷ some c.snarf ∷ some c.wsys ∷ some c.root ∷ [],
  c.draw.x1,
  c.draw.buflen,
)
numbers (err a) = ([], pos 0, 0)
numbers (Started.halted h) = ([], pos 0, 0)

connects : numbers start ≡ (some 7 ∷ some 6 ∷ some 5 ∷ some 4 ∷ some 2 ∷ [], pos 1920, 8192)
unfolding connect newtag fsinit fsattach numget fswait write9p push_loop conclude look_for unqueue
    wait_loop fswalk numput fsopen fsread is_digit is_space magnitude read_digits skip_spaces strtol
    splitpath split_loop termenv drawinit read_screen wl.Prelude.Int.to_int
connects = refl
