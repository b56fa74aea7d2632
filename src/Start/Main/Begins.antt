-- ===== src/Start/Main/Begins.antt =====
-- What `main` has when its loop begins.
use wl.Prelude.{
  ℕ, ◌<◌, ◌≡◌, refl, Bool, true, false, ◌&&◌, Option, none, some, List, [], ◌∷◌, length, All, map,
  arith, if◌then◌else◌,
}
use wl.Util.NumTab.Numbers.{IsNumTab, ShiftsMod64}
use wl.Fs.State.{Reply, Aux, Request, Sent}
use wl.Keymap.Write.{text, success, writekeymap}
use wl.Windows.Kept.{KeepsTables}
use wl.Windows.Loops.{NotStuck}
use wl.Start.{Started, ok, err, Connection, connect}
use wl.Start.Numbers.{Holding, Leads}
use wl.Start.Connected.{held, IsConnected, connect-IsConnected}
use wl.Start.Kbmap.{keymapinit}
use wl.Start.Kbmap.Lines.{IsLine, KbmapReads, Writes, keymapinit-Writes}
use wl.Start.Kbmap.Kept.{HoldsMap, keymapinit-HoldsMap}
use wl.Start.Arguments.{Opts, parse}
use wl.Start.Main.{
  Answers, globals, create_globals, open_display, launch, open_term, new_draw, Entered, begun, left,
  begin_display, with_keymap, with_connection, with_term, with_args, begin_main,
}

module _ (send : Request → Aux → Sent) (law : KeepsTables send) (wide : ℕ → ℕ)
    (shifts : ShiftsMod64 wide) (room : Aux → Bool) (why : List ℕ) (iounit : Reply → ℕ)
    (memory : ℕ → Bool) (sound : Bool) (ss : List (List ℕ)) (lines : All IsLine ss) (tmp dup : Bool)
    (fuel : ℕ) (enough : length ss < fuel) (x : Answers) where
  -- The numbers of the files are distinct and in use, the keymap is that of all lines, the terminal
  -- has a descriptor, and the globals are made.
  abbrev pub Begins : Option Entered → Type 0
  Begins none = ⊥
  Begins (some (begun o c keymap child a)) =
      ((kbmap : ℕ) × Holding (some kbmap ∷ held o.datafd c) a)
      × (writekeymap memory sound (map text ss) ≡ success keymap)
      × ((rfd : ℕ) × (o.rfd ≡ some rfd))
      × (create_globals x.global globals ≡ true)
  Begins (some left) = Unit
  Begins (some (Entered.halted h)) = NotStuck h

  -- After the connection is made, the reads of /dev/kbmap give what a file of the lines has.
  abbrev pub KbmapAfter : Started Connection → Type 0
  KbmapAfter (ok c b) = KbmapReads send wide room why ss c.root b
  KbmapAfter (err b) = Unit
  KbmapAfter (Started.halted h) = Unit

  abbrev pub StartsWith : Aux → Option (Opts × List (List ℕ)) → Type 0
  StartsWith a none = Unit
  StartsWith a (some (o, argv)) =
      KbmapAfter (connect send wide room why iounit (new_draw o.datafd) a)

  abbrev pub KbmapStarts : List (List ℕ) → Aux → Type 0
  KbmapStarts args a = StartsWith a (parse args (record { rfd = none; wfd = none; datafd = none }))

  globals_made : (a b c d g : Bool) → (a && b && c && d && g) ≡ true → g ≡ true
  globals_made a b c d g e = ground (arith, e)

  begin_display-Begins :
      (argv : List (List ℕ)) (o : Opts) (c : Connection) (keymap : List ℕ) (a : Aux) (kbmap rfd : ℕ)
      → Holding (some kbmap ∷ held o.datafd c) a
      → writekeymap memory sound (map text ss) ≡ success keymap
      → o.rfd ≡ some rfd
      → Begins (some (begin_display x argv o c keymap a))
  begin_display-Begins argv o c keymap a kbmap rfd h e r = step (open_display x) refl
    where
      run :
          (argv' : List (List ℕ))
          → create_globals x.global globals ≡ true
          → Begins (
              some (elim argv' [
                | [] ↦ begun o c keymap none a
                | s ∷ ss' ↦ elim (launch x) [
                  | none ↦ left
                  | some child ↦ begun o c keymap (some child) a
                ]
              ]))
      run [] made = ((kbmap, h), e, (rfd, r), made)
      run (s ∷ ss') made = launched (launch x)
        where
          launched :
              (child : Option ℕ)
              → Begins (
                  some
                    (elim child [ none ↦ left | some child' ↦ begun o c keymap (some child') a ]))
          launched none = tt
          launched (some child') = ((kbmap, h), e, (rfd, r), made)

      step :
          (opens : Bool)
          → open_display x ≡ opens
          → Begins (
              some (
                if opens
                then elim argv [
                  | [] ↦ begun o c keymap none a
                  | s ∷ ss' ↦ elim (launch x) [
                    | none ↦ left
                    | some child ↦ begun o c keymap (some child) a
                  ]
                ]
                else left))
      step true e' = run argv (globals_made x.display x.source x.socket x.shm _ e')
      step false e' = tt

  with_connection-Begins :
      (argv : List (List ℕ)) (o : Opts) (rfd : ℕ) (s : Started Connection)
      → o.rfd ≡ some rfd
      → Leads (IsConnected o.datafd) s
      → KbmapAfter s
      → Begins (with_connection send wide room why iounit memory sound tmp dup fuel x argv o s)
  with_connection-Begins argv o rfd (ok c a) r h reads =
      step (keymapinit send memory sound wide room why fuel tmp dup c.root a)
        (keymapinit-Writes memory sound send wide room why ss lines fuel tmp dup c.root a enough
          reads)
        (keymapinit-HoldsMap send law memory sound wide shifts room why (held o.datafd c) fuel tmp
          dup c.root a h)
    where
      step :
          (m : Option (Started (List ℕ)))
          → Writes memory sound send ss m
          → HoldsMap send law memory sound (held o.datafd c) m
          → Begins (with_keymap send wide room why iounit memory sound tmp dup fuel x argv o c m)
      step none w k = w
      step (some (ok keymap b)) w (kbmap, k) =
          begin_display-Begins argv o c keymap b kbmap rfd k w.0 r
      step (some (err b)) w k = tt
      step (some (Started.halted q)) w k = k
  with_connection-Begins argv o rfd (err a) r h k = tt
  with_connection-Begins argv o rfd (Started.halted q) r h k = h

  with_opts-Begins :
      (argv : List (List ℕ)) (a : Aux) (o : Opts) (rfd : ℕ)
      → IsNumTab a.fid
      → IsNumTab a.tag
      → o.rfd ≡ some rfd
      → KbmapAfter (connect send wide room why iounit (new_draw o.datafd) a)
      → Begins (with_term send wide room why iounit memory sound tmp dup fuel x argv a (some o))
  with_opts-Begins argv a o rfd fids tags r reads =
      with_connection-Begins argv o rfd _ r
        (connect-IsConnected send law wide shifts room why iounit (new_draw o.datafd) a
          (omega arith) fids tags)
        reads

  with_term-Begins :
      (argv : List (List ℕ)) (a : Aux) (o : Opts) (terminal : Option ℕ)
      → IsNumTab a.fid
      → IsNumTab a.tag
      → KbmapAfter (connect send wide room why iounit (new_draw o.datafd) a)
      → Begins (
          with_term send wide room why iounit memory sound tmp dup fuel x argv a
            (open_term terminal o))
  with_term-Begins argv a o terminal fids tags reads = step o.rfd refl terminal
    where
      step :
          (rfd : Option ℕ)
          → o.rfd ≡ rfd
          → (t : Option ℕ)
          → Begins (
              with_term send wide room why iounit memory sound tmp dup fuel x argv a (elim rfd [
                | some r ↦ some o
                | none ↦ elim t [
                  | none ↦ none
                  | some fd ↦ some (record o { rfd = some fd; wfd = some fd })
                ]
              ]))
      step (some r) e t = with_opts-Begins argv a o r fids tags e reads
      step none e none = tt
      step none e (some fd) =
          with_opts-Begins argv a (record o { rfd = some fd; wfd = some fd }) fd fids tags refl
            reads

  -- Requests keep the tables, which are sound, and `1ul << n` counts n modulo 64; where the words of
  -- the command line are options and a command, and after the connection is made, the reads of /dev/kbmap that follow, as many as it has lines
  -- and one more, give, where they return, 36 bytes of a file of lines of 35 bytes and a newline
  -- each, one after the other, or as many as there are; there is fuel for one more than the lines. Then, whatever the
  -- words of its command line are and whatever the system answers, `main` comes to its loop, returns
  -- 1, exits or crashes, or waits without an end, and no `numget` fails to end. Where it comes to the loop,
  -- the terminal has a descriptor, the file numbers of the root, $wsys, /dev/snarf, /dev/kbmap and,
  -- unless -d was given, of /dev/draw's two files are distinct and in use, the keymap is the one
  -- that `writekeymap` writes for all lines, and every global is made.
  pub begin_main-Begins :
      (args : List (List ℕ)) (a : Aux)
      → IsNumTab a.fid
      → IsNumTab a.tag
      → KbmapStarts args a
      → Begins (begin_main send wide room why iounit memory sound tmp dup fuel x args a)
  unfolding begin_main
  begin_main-Begins args a fids tags reads =
      step (parse args (record { rfd = none; wfd = none; datafd = none })) reads
    where
      step :
          (p : Option (Opts × List (List ℕ)))
          → StartsWith a p
          → Begins (with_args send wide room why iounit memory sound tmp dup fuel x a p)
      step none k = tt
      step (some (o, argv)) k = with_term-Begins argv a o x.terminal fids tags k
