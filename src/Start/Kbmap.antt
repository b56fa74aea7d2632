-- ===== src/Start/Kbmap.antt =====
-- `keymapinit` of wl9.c: `writekeymap` with `kbmapline` for its lines, each of which is a read of
-- /dev/kbmap.
pub mod Lines
pub mod Kept
mod Tests
use wl.Prelude.{
  ℕ, zero, suc, Bool, true, false, Option, none, some, List, [], ◌∷◌, ◌++◌, if◌then◌else◌,
}
use wl.Libc.{codes}
use wl.Fs.State.{Reply, Aux, Request, Sent}
use wl.Fs.Requests.{Outcome, done, failed, fsopen, fsread, fsclunk}
use wl.Keymap.Table.{Keys, no_keys, Added, added, overrun, no_memory, add_line}
use wl.Keymap.Write.{Written, success, failed as not_written, crash, line_numbers, finish}
use wl.Compositor.Options.{Next, line, end_of_map, bad_line, kbmapline}
use wl.Windows.{Halt}
use wl.Start.{Started, ok, err, content_of, try, walk_to}

-- `writekeymap` has returned or crashed; or the program has stopped; or no fuel is left.
pub data Mapped : Type 0 where
  mapped : Written → Aux → Mapped
  halted : Halt → Mapped
  out_of_fuel : Mapped

-- A line is added, what it prints is printed, and the loop goes on.
abbrev pub add_next : List ℕ → Aux → Added → (Keys → List ℕ → Mapped) → Mapped
add_next out a (added t' more) next = next t' (out ++ more)
add_next out a overrun next = mapped crash a
add_next out a no_memory next = mapped (not_written out) a

module _ (send : Request → Aux → Sent) (memory : ℕ → Bool) (sound : Bool) where
  abbrev pub on_next : Next → Keys → List ℕ → Aux → (Keys → List ℕ → Mapped) → Mapped
  on_next (line s) t out a next =
      let (level, scan, rune) = line_numbers s in
      add_next out a (add_line memory t level scan rune) next
  on_next end_of_map t out a next = mapped (finish sound t out) a
  on_next bad_line t out a next = mapped (not_written out) a

  abbrev pub on_read :
      Outcome (Option Reply) → ℕ → Keys → List ℕ → (ℕ → Keys → List ℕ → Aux → Mapped) → Mapped
  on_read (done r tagp a) off t out next =
      let (l, off') = kbmapline (some (content_of r)) off in
      on_next l t out a λ t' out'. next off' t' out' a
  on_read (failed tagp a) off t out next = mapped (not_written out) a
  on_read Outcome.exited off t out next = Mapped.halted Halt.exited
  on_read (Outcome.starved a) off t out next = Mapped.halted (Halt.starved a)
  on_read Outcome.stuck off t out next = Mapped.halted Halt.stuck

  -- The loop of `writekeymap`.
  unfoldable pub kbmap_loop : ℕ → ℕ → ℕ → Keys → List ℕ → Aux → Mapped
  kbmap_loop zero fid off t out a = out_of_fuel
  kbmap_loop (suc fuel) fid off t out a =
      on_read (fsread send false fid off 36 a) off t out (kbmap_loop fuel fid)

  -- What is printed before the loop.
  abbrev pub first_text : List ℕ
  first_text = codes "xkb_keymap {\n" ++ codes "xkb_keycodes \"plan9\" {\n"

  module _ (wide : ℕ → ℕ) (room : Aux → Bool) (why : List ℕ) where
    -- The keymap is in the file, whose size is asked for; `tmp` and `dup` say whether tmpfile, and dup
    -- and fstat, succeed.
    abbrev pub kept_map : ℕ → Bool → Mapped → Option (Started (List ℕ))
    kept_map fid dup (mapped (success out) a) =
        some (try (fsclunk send fid a) err λ n a'. if dup then ok out a' else err a')
    kept_map fid dup (mapped (not_written out) a) = some (err a)
    kept_map fid dup (mapped crash a) = some (Started.halted Halt.crashed)
    kept_map fid dup (Mapped.halted h) = some (Started.halted h)
    kept_map fid dup out_of_fuel = none

    abbrev pub opened_map : ℕ → ℕ → Bool → Outcome ℕ → Option (Started (List ℕ))
    opened_map fuel fid dup (done x tagp a) =
        kept_map fid dup (kbmap_loop fuel fid 0 no_keys first_text a)
    opened_map fuel fid dup (failed tagp a) = some (err a)
    opened_map fuel fid dup Outcome.exited = some (Started.halted Halt.exited)
    opened_map fuel fid dup (Outcome.starved a) = some (Started.halted (Halt.starved a))
    opened_map fuel fid dup Outcome.stuck = some (Started.halted Halt.stuck)

    abbrev pub walked_map : ℕ → Bool → Outcome ℕ → Option (Started (List ℕ))
    walked_map fuel dup (done fid tagp a) = opened_map fuel fid dup (fsopen send false fid 0 a)
    walked_map fuel dup (failed tagp a) = some (err a)
    walked_map fuel dup Outcome.exited = some (Started.halted Halt.exited)
    walked_map fuel dup (Outcome.starved a) = some (Started.halted (Halt.starved a))
    walked_map fuel dup Outcome.stuck = some (Started.halted Halt.stuck)

    -- What the keyboards are given: the bytes of the file. `none` is no more fuel.
    unfoldable pub keymapinit : ℕ → Bool → Bool → ℕ → Aux → Option (Started (List ℕ))
    unfolding kbmap_loop
    keymapinit fuel false dup root a = some (err a)
    keymapinit fuel true dup root a =
        walked_map fuel dup (walk_to send wide room why root (codes "dev" ∷ codes "kbmap" ∷ []) a)
