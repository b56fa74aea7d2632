-- ===== src/Start/Kbmap/Tests.antt =====
-- A run of `keymapinit`, and its theorem, on a file of two lines.
use wl.Prelude.{refl, true, [], arith}
use wl.Util.NumTab.{numget, numput}
use wl.Fs.Output.{write9p, push_loop}
use wl.Fs.Tags.{newtag}
use wl.Fs.Wait.{fswait, conclude, look_for, unqueue, wait_loop}
use wl.Fs.Requests.{fswalk, fsopen, fsread}
use wl.Windows.Served.{shift_mod, send_tagged, connection}
use wl.Start.Served.{two_keys, two_texts, keys_read}
use wl.Start.Kbmap.{keymapinit}
use wl.Start.Kbmap.Lines.{KbmapReads, Writes, keymapinit-Writes}

reads_lines : KbmapReads send_tagged shift_mod (λ a. true) [] two_keys 0 (connection keys_read)
unfolding fswalk fsopen fsread fswait write9p push_loop conclude look_for unqueue wait_loop newtag
    numget numput
reads_lines = (refl, (refl, (refl, tt)))

keymapinit-Writes_example :
    Writes
      (λ n. true)
      true
      send_tagged
      two_keys
      (keymapinit send_tagged
        (λ n. true)
        true
        shift_mod
        (λ a. true)
        []
        3
        true
        true
        0
        (connection keys_read))
keymapinit-Writes_example =
    keymapinit-Writes (λ n. true) true send_tagged shift_mod (λ a. true) [] two_keys
      ((refl, two_texts.0), ((refl, two_texts.1), tt)) 3 true true 0 (connection keys_read)
      (omega arith) reads_lines
