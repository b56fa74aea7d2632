-- ===== src/Start/Connected.antt =====
-- The file numbers that `main` has after `drawinit`.
use wl.Prelude.{ℕ, inl, inr, Bool, true, false, Option, none, some, List, [], ◌∷◌, ◌==◌, Bool-cases}
use wl.Libc.{codes}
use wl.Util.NumTab.{NumTab, Got, got, numget}
use wl.Util.NumTab.Numbers.{IsNumTab, ShiftsMod64}
use wl.Util.NumTab.Alloc.{Answers, numget-Answers}
use wl.Fs.Output.{bufsize}
use wl.Fs.State.{Reply, Aux, ropen, rversion, tversion, Request, Sent}
use wl.Fs.Wait.{fswait}
use wl.Fs.Requests.{fsversion, fsinit, fsattach, fsopen, fsread, fsclunk}
use wl.Fs.Requests.Fids.{fswalk-Walks, fsattach-Attaches}
use wl.Compositor.Options.{Split, split, splitpath}
use wl.Windows.Kept.{
  KeepsTables, KeepsTables-KeepsFids, fswait-Kept, request-Kept, fsclunk-Kept, fsopen-Kept,
  fsread-Kept,
}
use wl.Windows.Walked.{fswalk-tags, fsattach-tags}
use wl.Start.{
  Started, ok, err, Draw, c_string, Screen, too_short, screen, read_screen, content_of, try,
  Connection, walk_to, clunk_err, termenv, with_buf, open_data, place_screen, open_screen, numbered,
  drawinit, walk_split, attach_root, connect,
}
use wl.Start.Numbers.{
  Holding, Leads, Holding-rest, try-Leads, try_tag-Leads, waited-Leads, walk-Leads, attach-Leads,
  then_do-Leads,
}

-- The numbers that a connection holds, the last one taken first.
abbrev pub drawn_fids : Option ℕ → Draw → List (Option ℕ) → List (Option ℕ)
drawn_fids none d ns = some d.datafid ∷ some d.ctlfid ∷ ns
drawn_fids (some fd) d ns = ns

abbrev pub held : Option ℕ → Connection → List (Option ℕ)
held fd c = drawn_fids fd c.draw (some c.snarf ∷ some c.wsys ∷ some c.root ∷ [])

abbrev pub IsConnected : Option ℕ → Connection → Aux → Type 0
IsConnected fd c a = Holding (held fd c) a

module _ (send : Request → Aux → Sent) (law : KeepsTables send) (wide : ℕ → ℕ)
    (shifts : ShiftsMod64 wide) (room : Aux → Bool) (why : List ℕ) where
  walk_to-Leads :
      {B : Type 0}
      → (P : B → Aux → Type 0) (ns : List (Option ℕ)) (a : Aux) (fid : ℕ) (path : List (List ℕ))
        (next : ℕ → Aux → Started B)
      → Holding ns a
      → ((n : ℕ) (b : Aux) → Holding (some n ∷ ns) b → Leads P (next n b))
      → Leads P (try (walk_to send wide room why fid path a) err next)
  walk_to-Leads P ns a fid path next h g =
      walk-Leads P ns a h (walk_to send wide room why fid path a) next
        (fswalk-Walks send (KeepsTables-KeepsFids send law) wide (room a) why false fid path a
          shifts h.fids h.tags)
        (fswalk-tags send law wide (room a) why false fid path a h.tags) g

  clunk_err-Leads :
      {B : Type 0}
      → (P : B → Aux → Type 0) (ns : List (Option ℕ)) (fid : ℕ) (a : Aux) → Holding ns a
      → Leads P (clunk_err send wide room why fid a)
  clunk_err-Leads P ns fid a h =
      try-Leads P ns a h (fsclunk send fid a) err (λ n a'. err a')
        (fsclunk-Kept send law fid a h.tags) (λ b k. tt) (λ n b k. tt)

  termenv-Leads :
      (ns : List (Option ℕ)) (root : ℕ) (var : List ℕ) (a : Aux)
      → Holding ns a
      → Leads (λ s b. Holding ns b) (termenv send wide room why root var a)
  unfolding termenv
  termenv-Leads ns root var a h =
      walk_to-Leads (λ s b. Holding ns b) ns a root (codes "env" ∷ var ∷ []) _ h
        λ fid a1 h1.
          let ms = some fid ∷ ns in
          try-Leads (λ s b. Holding ns b) ms a1 h1 (fsopen send false fid 0 a1) _ _
            (fsopen-Kept send law false fid 0 a1 h1.tags)
            (λ b k. clunk_err-Leads (λ s b. Holding ns b) ms fid b k)
            λ n a2 h2.
              try-Leads (λ s b. Holding ns b) ms a2 h2 (fsread send false fid 0 128 a2) _ _
                (fsread-Kept send law false fid 0 128 a2 h2.tags)
                (λ b k. clunk_err-Leads (λ s b. Holding ns b) ms fid b k)
                λ r a3 h3. elim (Bool-cases (room a3)) [
                  | inl e ↦ rw e (Holding-rest fid ns a3 h3)
                  | inr e ↦ rw e tt
                ]

  module _ (iounit : Reply → ℕ) where
    with_buf-Leads :
        (P : Draw → Aux → Type 0) (d : Draw) (a : Aux)
        → P d a
        → Leads P (with_buf send wide room why iounit d a)
    with_buf-Leads P d a k = elim (Bool-cases (room a)) [ inl e ↦ rw e k | inr e ↦ rw e tt ]

    open_data-Leads :
        (ns : List (Option ℕ)) (d : Draw) (root : ℕ) (conn : List ℕ) (a : Aux)
        → Holding (some d.ctlfid ∷ ns) a
        → Leads
            (λ d' b. Holding (drawn_fids none d' ns) b)
            (open_data send wide room why iounit d root conn a)
    open_data-Leads ns d root conn a h =
        let P = λ (d' : Draw) (b : Aux). Holding (drawn_fids none d' ns) b in
        let ms = some d.ctlfid ∷ ns in
        walk_to-Leads P ms a root (codes "dev" ∷ codes "draw" ∷ conn ∷ codes "data" ∷ []) _ h
          λ fid a1 h1.
            try_tag-Leads P (some fid ∷ ms) a1 h1 (fsopen send true fid 1 a1) _
              (fsopen-Kept send law true fid 1 a1 h1.tags)
              λ t a2 h2.
                waited-Leads P (some fid ∷ ms) a2 h2 (fswait t ropen a2) _
                  (fswait-Kept t ropen a2 h2.tags) λ r a3 h3. with_buf-Leads P _ a3 h3

    place_screen-Leads :
        (ns : List (Option ℕ)) (d : Draw) (root : ℕ) (s : Screen) (a : Aux)
        → Holding (some d.ctlfid ∷ ns) a
        → Leads
            (λ d' b. Holding (drawn_fids none d' ns) b)
            (place_screen send wide room why iounit d root s a)
    place_screen-Leads ns d root too_short a h = tt
    place_screen-Leads ns d root Screen.overrun a h = tt
    place_screen-Leads ns d root (screen conn x0 y0 x1 y1) a h =
        open_data-Leads ns (record d { x0 = x0; y0 = y0; x1 = x1; y1 = y1 }) root conn a h

    open_screen-Leads :
        (ns : List (Option ℕ)) (d : Draw) (root : ℕ) (a : Aux)
        → Holding ns a
        → Leads
            (λ d' b. Holding (drawn_fids none d' ns) b)
            (open_screen send wide room why iounit d root a)
    open_screen-Leads ns d root a h =
        let P = λ (d' : Draw) (b : Aux). Holding (drawn_fids none d' ns) b in
        walk_to-Leads P ns a d.datafid (codes "dev" ∷ codes "draw" ∷ codes "new" ∷ []) _ h
          λ fid a1 h1.
            try-Leads P (some fid ∷ ns) a1 h1 (fsopen send false fid 0 a1) err _
              (fsopen-Kept send law false fid 0 a1 h1.tags) (λ b k. tt)
              λ n a2 h2.
                try-Leads P (some fid ∷ ns) a2 h2 (fsread send false fid 0 144 a2) err _
                  (fsread-Kept send law false fid 0 144 a2 h2.tags) (λ b k. tt)
                  λ r a3 h3.
                    place_screen-Leads ns (record d { ctlfid = fid }) root
                      (read_screen (content_of r)) a3 h3

    drawinit-Leads :
        (ns : List (Option ℕ)) (d : Draw) (root : ℕ) (a : Aux)
        → IsNumTab d.imgid
        → Holding ns a
        → Leads
            (λ d' b. Holding (drawn_fids d.datafd d' ns) b)
            (drawinit send wide room why iounit d root a)
    unfolding drawinit
    drawinit-Leads ns d root a images h =
        step (numget wide (room a) d.imgid) (numget-Answers wide shifts (room a) d.imgid images)
      where
        screened :
            (tab : NumTab) (fd : Option ℕ)
            → Leads
                (λ d' b. Holding (drawn_fids fd d' ns) b)
                (elim fd [
                  | none ↦
                      open_screen send wide room why iounit
                        (record d { imgid = tab; buflen = 32768 })
                        root
                        a
                  | some n ↦
                      with_buf send wide room why iounit
                        (record d { imgid = tab; buflen = 32768 })
                        a
                ])
        screened tab none = open_screen-Leads ns (record d { imgid = tab; buflen = 32768 }) root a h
        screened tab (some n) = with_buf-Leads (λ d' b. Holding ns b) _ a h

        counted :
            (num : ℕ) (tab : NumTab)
            → Leads
                (λ d' b. Holding (drawn_fids d.datafd d' ns) b)
                (numbered send wide room why iounit d root (got num tab) a)
        counted num tab = elim (Bool-cases (num == 0)) [
          | inl e ↦ rw e (screened tab d.datafd)
          | inr e ↦ rw e tt
        ]

        step :
            (g : Got)
            → Answers (room a) d.imgid g
            → Leads
                (λ d' b. Holding (drawn_fids d.datafd d' ns) b)
                (numbered send wide room why iounit d root g a)
        step g (inl (num, tab, e, al)) = rw e (counted num tab)
        step g (inr (e, memory, full)) = rw e tt

    walk_split-Leads :
        (ns : List (Option ℕ)) (root : ℕ) (s : Split) (a : Aux)
        → Holding ns a
        → Leads (λ n b. Holding (some n ∷ ns) b) (walk_split send wide room why iounit root s a)
    walk_split-Leads ns root (split names) a h =
        walk_to-Leads (λ n b. Holding (some n ∷ ns) b) ns a root names ok h λ n b k. k
    walk_split-Leads ns root Split.not_absolute a h = tt
    walk_split-Leads ns root Split.too_many a h = tt

    attach_root-Leads :
        (d : Draw) (a : Aux)
        → IsNumTab d.imgid
        → Holding [] a
        → Leads (IsConnected d.datafd) (attach_root send wide room why iounit d a)
    attach_root-Leads d a images h =
        let P = IsConnected d.datafd in
        attach-Leads P send [] a h (fsattach send wide (room a) [] a) _
          (fsattach-Attaches send (KeepsTables-KeepsFids send law) wide (room a) [] a shifts h.fids
            h.tags)
          (fsattach-tags send law wide (room a) [] a h.tags)
          λ root a1 h1.
            let ns = some root ∷ [] in
            then_do-Leads (λ s b. Holding ns b) P _ _ (termenv-Leads ns root (codes "wsys") a1 h1)
              λ wsys a2 h2.
                then_do-Leads (λ n b. Holding (some n ∷ ns) b) P _ _
                  (walk_split-Leads ns root (splitpath 16 (c_string wsys)) a2 h2)
                  λ fid a3 h3.
                    let ms = some fid ∷ ns in
                    walk_to-Leads P ms a3 root (codes "dev" ∷ codes "snarf" ∷ []) _ h3
                      λ snarf a4 h4.
                        try-Leads P (some snarf ∷ ms) a4 h4 (fsopen send false snarf 0 a4) err _
                          (fsopen-Kept send law false snarf 0 a4 h4.tags) (λ b k. tt)
                          λ n a5 h5.
                            then_do-Leads
                              (λ d' b. Holding (drawn_fids d.datafd d' (some snarf ∷ ms)) b) P _ _
                              (drawinit-Leads (some snarf ∷ ms) d root a5 images h5) λ d' a6 h6. h6

    -- Where requests keep the tables, and `1ul << n` counts n modulo 64, on sound tables: where
    -- `main` comes to the end of `drawinit`, the file numbers that it has then, of the root, $wsys,
    -- /dev/snarf and, unless it was given a file descriptor to draw on, of /dev/draw's two files, are
    -- pairwise distinct and in use, and the tables are sound; and no `numget` on the way fails to end.
    pub connect-IsConnected :
        (d : Draw) (a : Aux)
        → IsNumTab d.imgid
        → IsNumTab a.fid
        → IsNumTab a.tag
        → Leads (IsConnected d.datafd) (connect send wide room why iounit d a)
    unfolding connect fsinit fsversion
    connect-IsConnected d a images fids tags =
        let a0 = record a { out = record a.out { wpos = 0; pending = [] }; queue = []; cb = [] } in
        let h0 : Holding [] a0 = record {
          tags = tags;
          fids = fids;
          distinct = tt;
          used = λ i u. absurd u;
        } in
        try-Leads (IsConnected d.datafd) [] a0 h0 (fsinit send a)
          (attach_root send wide room why iounit d)
          (λ n b. attach_root send wide room why iounit d b)
          (request-Kept send law (tversion bufsize) rversion false 0 (λ r. 0) a0 tags)
          (λ b k. attach_root-Leads d b images k) (λ n b k. attach_root-Leads d b images k)
