-- ===== src/Start/Kbmap/Lines.antt =====
-- Reading a line at a time writes the keymap of the lines of the file.
use wl.Prelude.{
  ℕ, zero, suc, ◌+◌, ◌≡◌, ◌<◌, refl, sym, ap, subst, ◌∙◌, Bool, true, false, Option, none, some,
  List, [], ◌∷◌, ◌++◌, length, take, drop, if◌then◌else◌, All, arith, map, length-append,
}
use wl.Libc.{codes}
use wl.Fs.State.{Reply, Aux, Request, Sent}
use wl.Fs.Requests.{Outcome, done, failed, fsopen, fsread, fsclunk}
use wl.Keymap.Table.{Keys, no_keys, Added, added, overrun, no_memory, add_line}
use wl.Keymap.Write.{
  Line, text, Written, success, failed as not_written, crash, line_numbers, all_read, stopped,
  crashed, read_lines, finish, writekeymap,
}
use wl.Compositor.Options.{Next, line, last_byte, kbmapline}
use wl.Start.{Started, ok, err, content_of, try, walk_to}
use wl.Keymap.Stdin.{file, IsText, kbmaptoxkb, kbmaptoxkb-writekeymap}
use wl.Start.Place.{drop-past}
use wl.Start.Kbmap.{
  Mapped, mapped, out_of_fuel, add_next, on_next, on_read, kbmap_loop, first_text, kept_map,
  opened_map, walked_map, keymapinit,
}

-- A line as /dev/kbmap has it, without its newline.
abbrev pub IsLine : List ℕ → Type 0
IsLine s = (length s ≡ 35) × IsText s

lines-IsText : (ss : List (List ℕ)) → All IsLine ss → All IsText ss
lines-IsText [] h = tt
lines-IsText (s ∷ ss) ((e, k), h) = (k, lines-IsText ss h)

take-past : (xs ys : List ℕ) (n : ℕ) → length xs ≡ n → take n (xs ++ ys) ≡ xs
take-past [] ys zero e = refl
take-past [] ys (suc n) e = absurd (omega arith)
take-past (x ∷ xs) ys zero e = absurd (omega arith)
take-past (x ∷ xs) ys (suc n) e = ap (λ l. x ∷ l) (take-past xs ys n (omega arith))

drop_more : (xs : List ℕ) (k m n : ℕ) → k ≡ m + n → drop k xs ≡ drop n (drop m xs)
drop_more xs k zero n e = ap (λ i. drop i xs) (omega arith)
drop_more xs zero (suc m) n e = absurd (omega arith)
drop_more [] (suc k) (suc m) zero e = refl
drop_more [] (suc k) (suc m) (suc n) e = refl
drop_more (x ∷ xs) (suc k) (suc m) n e = drop_more xs k m n (omega arith)

last_byte_lem : (s : List ℕ) (c : ℕ) → last_byte (s ++ c ∷ []) ≡ c
last_byte_lem [] c = refl
last_byte_lem (x ∷ []) c = refl
last_byte_lem (x ∷ y ∷ s) c = last_byte_lem (y ∷ s) c

length-line : (s : List ℕ) → IsLine s → length (s ++ b'\n' ∷ []) ≡ 36
length-line s h = omega (arith, h.0, length-append s (b'\n' ∷ []))

kbmapline-line :
    (s : List ℕ) (off : ℕ) → IsLine s → kbmapline (some (s ++ b'\n' ∷ [])) off ≡ (line s, off + 36)
unfolding kbmapline
kbmapline-line s off h =
    rw (length-line s h, last_byte_lem s b'\n', take-past s (b'\n' ∷ []) 35 h.0) refl

-- A read that returns gives the bytes of the file at its offset, 36 where there are as many, and `next`
-- is so of what follows it.
abbrev pub ReadAs : List ℕ → (ℕ → Aux → Type 0) → ℕ → Outcome (Option Reply) → Type 0
ReadAs content next off (done r tagp a) =
    (content_of r ≡ take 36 (drop off content)) × next (off + 36) a
ReadAs content next off o = Unit

-- The next n reads of the file number give what the file has, one after the other.
abbrev pub ReadsFile : (Request → Aux → Sent) → List ℕ → ℕ → ℕ → ℕ → Aux → Type 0
ReadsFile send content zero fid off a = Unit
ReadsFile send content (suc n) fid off a =
    ReadAs content (ReadsFile send content n fid) off (fsread send false fid off 36 a)

abbrev pub OpenedFile : (Request → Aux → Sent) → List ℕ → ℕ → ℕ → Outcome ℕ → Type 0
OpenedFile send content n fid (done x tagp a) = ReadsFile send content n fid 0 a
OpenedFile send content n fid o = Unit

abbrev pub WalkedFile : (Request → Aux → Sent) → List ℕ → ℕ → Outcome ℕ → Type 0
WalkedFile send content n (done fid tagp a) =
    OpenedFile send content n fid (fsopen send false fid 0 a)
WalkedFile send content n o = Unit

-- Of the connection as it stands, the walk to /dev/kbmap, its opening and the reads that follow, as
-- many as the file has lines and one for its end, give what a file of the lines has, as far as
-- each returns.
abbrev pub KbmapReads :
    (Request → Aux → Sent) → (ℕ → ℕ) → (Aux → Bool) → List ℕ → List (List ℕ) → ℕ → Aux → Type 0
KbmapReads send wide room why ss root a =
    WalkedFile send (file ss) (suc (length ss))
      (walk_to send wide room why root (codes "dev" ∷ codes "kbmap" ∷ []) a)

module _ (memory : ℕ → Bool) (sound : Bool) where
  -- What `writekeymap` does from here on with the lines to come.
  abbrev from : List Line → Keys → List ℕ → Written
  from ls t out = elim (read_lines memory ls t out) [
    | all_read t' out' ↦ finish sound t' out'
    | stopped out' ↦ not_written out'
    | crashed ↦ crash
  ]

  abbrev texts : List (List ℕ) → List Line
  texts ss = map text ss

  abbrev pub Follows : List (List ℕ) → Keys → List ℕ → Mapped → Type 0
  Follows ss t out (mapped w a) = (o : List ℕ) → w ≡ success o → from (texts ss) t out ≡ success o
  Follows ss t out (Mapped.halted h) = Unit
  Follows ss t out out_of_fuel = ⊥

  not_success : (o out : List ℕ) {A : Type 0} → not_written out ≡ success o → A
  not_success o out e = absurd (ground (arith, e))

  crash_success : (o : List ℕ) {A : Type 0} → crash ≡ success o → A
  crash_success o e = absurd (ground (arith, e))

  add_next-Follows :
      (s : List ℕ) (ss : List (List ℕ)) (t : Keys) (out : List ℕ) (a : Aux)
      (next : Keys → List ℕ → Mapped) (x : Added)
      → add_line memory t (line_numbers s).0 (line_numbers s).1 (line_numbers s).2 ≡ x
      → ((t' : Keys) (out' : List ℕ) → Follows ss t' out' (next t' out'))
      → Follows (s ∷ ss) t out (add_next out a x next)
  unfolding read_lines
  add_next-Follows s ss t out a next (added t' more) e rest =
      step (next t' (out ++ more)) (rest t' (out ++ more))
    where
      step : (m : Mapped) → Follows ss t' (out ++ more) m → Follows (s ∷ ss) t out m
      step (mapped w b) f = λ o q. rw (e, from) (f o q)
      step (Mapped.halted h) f = tt
      step out_of_fuel f = f
  add_next-Follows s ss t out a next overrun e rest = λ o q. crash_success o q
  add_next-Follows s ss t out a next no_memory e rest = λ o q. not_success o out q

  module _ (send : Request → Aux → Sent) where
    at_end-Follows :
        (t : Keys) (out : List ℕ) (a : Aux) (off : ℕ) (next : ℕ → Keys → List ℕ → Aux → Mapped)
        → Follows [] t out (
            let (l, off') = kbmapline (some []) off in
            on_next send memory sound l t out a λ t' out'. next off' t' out' a)
    unfolding read_lines kbmapline
    at_end-Follows t out a off next = λ o q. q

    on_read-Follows :
        (content : List ℕ) (ss : List (List ℕ)) (o : Outcome (Option Reply)) (off : ℕ) (t : Keys)
        (out : List ℕ) (next : ℕ → Keys → List ℕ → Aux → Mapped) (more : ℕ → Aux → Type 0)
        → All IsLine ss
        → drop off content ≡ file ss
        → ReadAs content more off o
        → ((ss' : List (List ℕ)) (off' : ℕ) (t' : Keys) (out' : List ℕ) (a : Aux)
            → All IsLine ss'
            → drop off' content ≡ file ss'
            → length ss ≡ suc (length ss')
            → more off' a
            → Follows ss' t' out' (next off' t' out' a))
        → Follows ss t out (on_read send memory sound o off t out next)
    on_read-Follows content [] (done r tagp a) off t out next more h at (e, later) rest =
        subst
          (λ c. Follows [] t out (
            let (l, off') = kbmapline (some c) off in
            on_next send memory sound l t out a λ t' out'. next off' t' out' a))
          (sym (e ∙ ap (take 36) at)) (at_end-Follows t out a off next)
    on_read-Follows content (s ∷ ss) (done r tagp a) off t out next more h at (e, later) rest =
        let read =
          e ∙ ap (take 36) at ∙ take-past (s ++ b'\n' ∷ []) (file ss) 36 (length-line s h.0) in
        let beyond =
          drop_more content (off + 36) off 36 refl
          ∙ ap (drop 36) at
          ∙ drop-past (s ++ b'\n' ∷ []) (file ss) 36 0 (omega (arith, length-line s h.0)) in
        subst
          (λ (n : Next × ℕ).
            Follows (s ∷ ss) t out
              (on_next send memory sound n.0 t out a λ t' out'. next n.1 t' out' a))
          (sym (ap (λ c. kbmapline (some c) off) read ∙ kbmapline-line s off h.0))
          (add_next-Follows s ss t out a _ _ refl
            (λ t' out'. rest ss (off + 36) t' out' a h.1 beyond refl later))
    on_read-Follows content ss (failed tagp a) off t out next more h at e rest =
        λ o q. not_success o out q
    on_read-Follows content ss Outcome.exited off t out next more h at e rest = tt
    on_read-Follows content ss (Outcome.starved a) off t out next more h at e rest = tt
    on_read-Follows content ss Outcome.stuck off t out next more h at e rest = tt

    kbmap_loop-Follows :
        (content : List ℕ) (fid fuel : ℕ) (ss : List (List ℕ)) (off : ℕ) (t : Keys) (out : List ℕ)
        (a : Aux)
        → All IsLine ss
        → drop off content ≡ file ss
        → length ss < fuel
        → ReadsFile send content (suc (length ss)) fid off a
        → Follows ss t out (kbmap_loop send memory sound fuel fid off t out a)
    unfolding kbmap_loop
    kbmap_loop-Follows content fid zero ss off t out a h at few k = absurd (omega arith)
    kbmap_loop-Follows content fid (suc fuel) ss off t out a h at few k =
        on_read-Follows content ss (fsread send false fid off 36 a) off t out _
          (ReadsFile send content (length ss) fid) h at k
          λ ss' off' t' out' b h' at' one_less more.
            kbmap_loop-Follows content fid fuel ss' off' t' out' b h' at' (omega arith)
              (subst (λ n. ReadsFile send content n fid off' b) one_less more)

    -- What `keymapinit` returns, and that it does.
    abbrev pub Writes : List (List ℕ) → Option (Started (List ℕ)) → Type 0
    Writes ss none = ⊥
    Writes ss (some (ok out a)) =
        (writekeymap memory sound (texts ss) ≡ success out)
        × (kbmaptoxkb memory sound false (file ss) ≡ some (success out))
    Writes ss (some (err a)) = Unit
    Writes ss (some (Started.halted h)) = Unit

    module _ (wide : ℕ → ℕ) (room : Aux → Bool) (why : List ℕ) (ss : List (List ℕ))
        (lines : All IsLine ss) where
      both_write :
          (out : List ℕ) (a : Aux)
          → writekeymap memory sound (texts ss) ≡ success out
          → Writes ss (some (ok out a))
      both_write out a e =
          (e, kbmaptoxkb-writekeymap memory sound ss (lines-IsText ss lines) ∙ ap (λ w. some w) e)

      kept_map-Writes :
          (fid : ℕ) (dup : Bool) (m : Mapped)
          → Follows ss no_keys (first_text send memory sound) m
          → Writes ss (kept_map send memory sound wide room why fid dup m)
      unfolding writekeymap
      kept_map-Writes fid dup (mapped (success out) a) f = clunked dup (fsclunk send fid a)
        where
          clunked :
              (d : Bool) (o : Outcome ℕ)
              → Writes ss (some (try o err λ n a'. if d then ok out a' else err a'))
          clunked true (done n tagp b) = both_write out b (f out refl)
          clunked false (done n tagp b) = tt
          clunked d (failed tagp b) = tt
          clunked d Outcome.exited = tt
          clunked d (Outcome.starved b) = tt
          clunked d Outcome.stuck = tt
      kept_map-Writes fid dup (mapped (not_written out) a) f = tt
      kept_map-Writes fid dup (mapped crash a) f = tt
      kept_map-Writes fid dup (Mapped.halted h) f = tt
      kept_map-Writes fid dup out_of_fuel f = f

      opened_map-Writes :
          (fuel fid : ℕ) (dup : Bool) (o : Outcome ℕ)
          → length ss < fuel
          → OpenedFile send (file ss) (suc (length ss)) fid o
          → Writes ss (opened_map send memory sound wide room why fuel fid dup o)
      opened_map-Writes fuel fid dup (done x tagp a) few k = kept_map-Writes fid dup _ (
          kbmap_loop-Follows (file ss) fid fuel ss 0 no_keys (first_text send memory sound) a lines
            refl few k)
      opened_map-Writes fuel fid dup (failed tagp a) few k = tt
      opened_map-Writes fuel fid dup Outcome.exited few k = tt
      opened_map-Writes fuel fid dup (Outcome.starved a) few k = tt
      opened_map-Writes fuel fid dup Outcome.stuck few k = tt

      walked_map-Writes :
          (fuel : ℕ) (dup : Bool) (o : Outcome ℕ)
          → length ss < fuel
          → WalkedFile send (file ss) (suc (length ss)) o
          → Writes ss (walked_map send memory sound wide room why fuel dup o)
      walked_map-Writes fuel dup (done fid tagp a) few k =
          opened_map-Writes fuel fid dup (fsopen send false fid 0 a) few k
      walked_map-Writes fuel dup (failed tagp a) few k = tt
      walked_map-Writes fuel dup Outcome.exited few k = tt
      walked_map-Writes fuel dup (Outcome.starved a) few k = tt
      walked_map-Writes fuel dup Outcome.stuck few k = tt

      -- Where the reads of /dev/kbmap that follow on this connection, as many as the file has lines
      -- and one more, give, where they return, 36 bytes of a file of lines of 35 bytes and a newline
      -- each, one after the other, or as many as there are: fuel for one more than the
      -- lines is enough for `keymapinit`, and where it succeeds, the keymap that it has is that which
      -- `writekeymap` writes for all lines of the file, in order, and that which kbmaptoxkb writes
      -- when the file is its standard input.
      pub keymapinit-Writes :
          (fuel : ℕ) (tmp dup : Bool) (root : ℕ) (a : Aux)
          → length ss < fuel
          → KbmapReads send wide room why ss root a
          → Writes ss (keymapinit send memory sound wide room why fuel tmp dup root a)
      unfolding keymapinit
      keymapinit-Writes fuel false dup root a few k = tt
      keymapinit-Writes fuel true dup root a few k =
          walked_map-Writes fuel dup
            (walk_to send wide room why root (codes "dev" ∷ codes "kbmap" ∷ []) a) few k
