-- ===== src/Start/Kbmap/Kept.antt =====
-- What `keymapinit` leaves of the connection's tables.
use wl.Prelude.{
  ℕ, zero, suc, Bool, true, false, Option, none, some, List, [], ◌∷◌, ◌++◌, if◌then◌else◌,
}
use wl.Libc.{codes}
use wl.Util.NumTab.Numbers.{IsNumTab, ShiftsMod64}
use wl.Fs.State.{Reply, Aux, Request, Sent}
use wl.Fs.Requests.{Outcome, done, failed, fsopen, fsread, fsclunk}
use wl.Fs.Requests.Fids.{Walks, fswalk-Walks}
use wl.Keymap.Table.{Keys, no_keys, Added, added, overrun, no_memory, add_line}
use wl.Keymap.Write.{success, failed as not_written, crash, line_numbers}
use wl.Compositor.Options.{Next, line, end_of_map, bad_line, kbmapline}
use wl.Windows.Kept.{
  Kept, Kept-refl, Kept-trans, KeepsTables, KeepsTables-KeepsFids, KeptOutcome, fsopen-Kept,
  fsread-Kept, fsclunk-Kept,
}
use wl.Windows.Loops.{NotStuck}
use wl.Windows.Walked.{TagsOutcome, fswalk-tags}
use wl.Start.{Started, ok, err, content_of, walk_to}
use wl.Start.Numbers.{Holding, Holding-Kept, Holding-new, Leads, try-Leads}
use wl.Start.Kbmap.{
  Mapped, mapped, out_of_fuel, add_next, on_next, on_read, kbmap_loop, first_text, kept_map,
  opened_map, walked_map, keymapinit,
}

abbrev KeptMapped : Aux → Mapped → Type 0
KeptMapped a (mapped w b) = Kept a b
KeptMapped a (Mapped.halted h) = NotStuck h
KeptMapped a out_of_fuel = Unit

mapped_after : (a b : Aux) (m : Mapped) → Kept a b → KeptMapped b m → KeptMapped a m
mapped_after a b (mapped w c) k l = Kept-trans a b c k l
mapped_after a b (Mapped.halted h) k l = l
mapped_after a b out_of_fuel k l = tt

module _ (send : Request → Aux → Sent) (law : KeepsTables send) (memory : ℕ → Bool)
    (sound : Bool) where
  add_next_kept :
      (out : List ℕ) (a : Aux) (x : Added) (next : Keys → List ℕ → Mapped)
      → IsNumTab a.tag
      → ((t : Keys) (out' : List ℕ) → KeptMapped a (next t out'))
      → KeptMapped a (add_next out a x next)
  add_next_kept out a (added t more) next h f = f t (out ++ more)
  add_next_kept out a overrun next h f = Kept-refl a h
  add_next_kept out a no_memory next h f = Kept-refl a h

  on_next_kept :
      (n : Next) (t : Keys) (out : List ℕ) (a : Aux) (next : Keys → List ℕ → Mapped)
      → IsNumTab a.tag
      → ((t' : Keys) (out' : List ℕ) → KeptMapped a (next t' out'))
      → KeptMapped a (on_next send memory sound n t out a next)
  on_next_kept (line s) t out a next h f =
      let (level, scan, rune) = line_numbers s in
      add_next_kept out a (add_line memory t level scan rune) next h f
  on_next_kept end_of_map t out a next h f = Kept-refl a h
  on_next_kept bad_line t out a next h f = Kept-refl a h

  on_read_kept :
      (o : Outcome (Option Reply)) (off : ℕ) (t : Keys) (out : List ℕ) (a : Aux)
      (next : ℕ → Keys → List ℕ → Aux → Mapped)
      → KeptOutcome a o
      → ((off' : ℕ) (t' : Keys) (out' : List ℕ) (b : Aux)
          → IsNumTab b.tag
          → KeptMapped b (next off' t' out' b))
      → KeptMapped a (on_read send memory sound o off t out next)
  on_read_kept (done r tagp b) off t out a next k f =
      let (l, off') = kbmapline (some (content_of r)) off in
      mapped_after a b _ k (on_next_kept l t out b _ k.tags λ t' out'. f off' t' out' b k.tags)
  on_read_kept (failed tagp b) off t out a next k f = k
  on_read_kept Outcome.exited off t out a next k f = tt
  on_read_kept (Outcome.starved b) off t out a next k f = tt
  on_read_kept Outcome.stuck off t out a next k f = k

  kbmap_loop_kept :
      (fuel fid off : ℕ) (t : Keys) (out : List ℕ) (a : Aux)
      → IsNumTab a.tag
      → KeptMapped a (kbmap_loop send memory sound fuel fid off t out a)
  unfolding kbmap_loop
  kbmap_loop_kept zero fid off t out a h = tt
  kbmap_loop_kept (suc fuel) fid off t out a h =
      on_read_kept (fsread send false fid off 36 a) off t out a _
        (fsread-Kept send law false fid off 36 a h) (kbmap_loop_kept fuel fid)

  -- The file number of /dev/kbmap is one more that is held.
  abbrev pub HoldsMap : List (Option ℕ) → Option (Started (List ℕ)) → Type 0
  HoldsMap ns none = Unit
  HoldsMap ns (some s) = Leads (λ out b. (kbmap : ℕ) × Holding (some kbmap ∷ ns) b) s

  module _ (wide : ℕ → ℕ) (shifts : ShiftsMod64 wide) (room : Aux → Bool) (why : List ℕ)
      (ns : List (Option ℕ)) where
    kept_map-HoldsMap :
        (fid : ℕ) (dup : Bool) (a : Aux) (m : Mapped)
        → Holding (some fid ∷ ns) a
        → KeptMapped a m
        → HoldsMap ns (kept_map send memory sound wide room why fid dup m)
    kept_map-HoldsMap fid dup a (mapped (success out) b) h k =
        let h' = Holding-Kept (some fid ∷ ns) a b h k in
        try-Leads (λ o c. (kbmap : ℕ) × Holding (some kbmap ∷ ns) c) (some fid ∷ ns) b h'
          (fsclunk send fid b) _ _ (fsclunk-Kept send law fid b h'.tags) (λ c l. tt)
          λ n c l. kept dup n c l
      where
        kept :
            (d : Bool) (n : ℕ) (c : Aux)
            → Holding (some fid ∷ ns) c
            → Leads
                (λ o c'. (kbmap : ℕ) × Holding (some kbmap ∷ ns) c')
                (if d then ok out c else err c)
        kept true n c l = (fid, l)
        kept false n c l = tt
    kept_map-HoldsMap fid dup a (mapped (not_written out) b) h k = tt
    kept_map-HoldsMap fid dup a (mapped crash b) h k = tt
    kept_map-HoldsMap fid dup a (Mapped.halted x) h k = k
    kept_map-HoldsMap fid dup a out_of_fuel h k = tt

    opened_map-HoldsMap :
        (fuel fid : ℕ) (dup : Bool) (a : Aux) (o : Outcome ℕ)
        → Holding (some fid ∷ ns) a
        → KeptOutcome a o
        → HoldsMap ns (opened_map send memory sound wide room why fuel fid dup o)
    opened_map-HoldsMap fuel fid dup a (done x tagp b) h k =
        kept_map-HoldsMap fid dup b _ (Holding-Kept (some fid ∷ ns) a b h k)
          (kbmap_loop_kept fuel fid 0 no_keys (first_text send memory sound) b k.tags)
    opened_map-HoldsMap fuel fid dup a (failed tagp b) h k = tt
    opened_map-HoldsMap fuel fid dup a Outcome.exited h k = tt
    opened_map-HoldsMap fuel fid dup a (Outcome.starved b) h k = tt
    opened_map-HoldsMap fuel fid dup a Outcome.stuck h k = k

    walked_map-HoldsMap :
        (fuel : ℕ) (dup : Bool) (a : Aux) (o : Outcome ℕ)
        → Holding ns a
        → Walks a o
        → TagsOutcome a o
        → HoldsMap ns (walked_map send memory sound wide room why fuel dup o)
    walked_map-HoldsMap fuel dup a (done fid tagp b) h al k =
        let h' = Holding-new ns a b fid h al k.tags in
        opened_map-HoldsMap fuel fid dup b (fsopen send false fid 0 b) h'
          (fsopen-Kept send law false fid 0 b h'.tags)
    walked_map-HoldsMap fuel dup a (failed tagp b) h al k = tt
    walked_map-HoldsMap fuel dup a Outcome.exited h al k = tt
    walked_map-HoldsMap fuel dup a (Outcome.starved b) h al k = tt
    walked_map-HoldsMap fuel dup a Outcome.stuck h al k = al

    pub keymapinit-HoldsMap :
        (fuel : ℕ) (tmp dup : Bool) (root : ℕ) (a : Aux)
        → Holding ns a
        → HoldsMap ns (keymapinit send memory sound wide room why fuel tmp dup root a)
    unfolding keymapinit
    keymapinit-HoldsMap fuel false dup root a h = tt
    keymapinit-HoldsMap fuel true dup root a h =
        let path = codes "dev" ∷ codes "kbmap" ∷ [] in
        walked_map-HoldsMap fuel dup a (walk_to send wide room why root path a) h
          (fswalk-Walks send (KeepsTables-KeepsFids send law) wide (room a) why false root path a
            shifts h.fids h.tags)
          (fswalk-tags send law wide (room a) why false root path a h.tags)
