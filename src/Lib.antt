-- ===== src/Lib.antt =====
-- wl9 runs Wayland clients inside the windows of a Plan 9 terminal. It is a Wayland compositor
-- (wl9.c) whose screen, keyboard and mouse are files of a 9P server, reached through a client (fs.c)
-- on top of the c9 library, and it hands its clients an XKB keymap made from the terminal's
-- keyboard map (keymap.c). util.c has the tables of free numbers (tags, file numbers, images), the
-- UTF-8 decoder for the keys, and the little-endian fields of draw messages.
--
-- A request takes a tag and a file number from such tables, is written to a buffer and answered by
-- a reply, for which the program waits (`fswait`) or sets a callback (`fsasync`, `fsdispatch`). The
-- callbacks `kbdread` and `mouseread` turn the messages of a window's files into events for the
-- clients' keyboards and pointers, those of the client under focus. A client's commit of a surface
-- is copied to the screen in tiles (`drawcopy`).
--
-- Which file models what; the functions keep their names:
--   Prelude, Libc       shared helpers; strtoul, strtol and bsearch of the C library
--   Util                util.c and util.h
--   Keymap              keymap.c, and kbmaptoxkb.c
--   Fs/Output, Input    write9p, begin, read9p of fs.c
--   Fs/State, Tags      struct C9aux, freetag, r, error, newtag, fsasync
--   Fs/Wait, Dispatch   fswait, fsreadR, fswriteT, fsdispatch, fsflush
--   Fs/Requests         fsinit, fsattach, fswalk, fsopen, fsread, fswrite, fsclunk
--   Compositor/Focus    mousefocus, kbdfocus, get_pointer, get_keyboard of wl9.c
--   Compositor/Surface  wl_surface: attach, damage, frame, commit and the end of a buffer
--   Compositor/Keyboard, Pointer    kbdevent, the loop of kbdread, mouseread
--   Compositor/Control  wctlread: the place and flags of a window
--   Compositor/Draw     the tiles and messages of drawcopy, and toplevel_commit's choice of them
--   Compositor/Options, Snarf       fdpair, splitpath, kbmapline; what snarfput, snarfget copy
--   Windows             struct window, and the table of files of winnew
--   Windows/Open        winnew
--   Windows/Life        get_xdg_surface, get_toplevel, set_title, toplevel_destroy,
--                       xdg_surface_destroy, with the store of windows and surfaces
--   Windows/Requests    the tables of a toplevel's and an xdg_surface's requests
--   Windows/Reach       the worlds that the program reaches, event by event
--   Selection           set_selection, snarfput, offer_receive, snarfget with the descriptors, file
--                       numbers and callbacks of the copies
--   Start               termenv, drawinit, keymapinit, and main from fsinit to drawinit
--   Start/Arguments     ARGBEGIN of arg.h with main's options
--   Start/Main          main as a whole, launch, fsready, and a turn of main's loop
--   Windows/Drawing, Reading        the writes of drawcopy; wctlread, and how mouseread and kbdread
--                       ask for the next message
--   Windows/Commit      toplevel_commit, from the first commit to the drawing of the damage
--   Globals             the functions that bind the globals and the requests that make resources,
--                       snarfoffer, and the end of a resource
-- A window is opened by requests of Fs (Windows/Open), whose numbers and callbacks it keeps, is
-- called back by `fsdispatch` (Windows/Reading), and is destroyed with its focus
-- (Compositor/Focus) and the role of its surface (Compositor/Surface). The start (Start) opens
-- by the same requests the files that the windows, the copies of the selection and the drawing
-- use. The child modules hold the proofs, the modules named Tests the runs.
--
-- State is a record that the functions pass on. What the system answers (read, write, poll,
-- memory, the clock) is an argument or a list of answers in the state; a wait that the answers
-- do not bring to an end is a result of its own (`starved`), `exit(1)` is `exited`, a failed
-- assertion or a write outside an array is a crash. The c9 library is a parameter: `send` for
-- its requests, with the law that a request leaves the table of file numbers alone and that of
-- tags sound, for the windows and the start also that it leaves the callbacks alone
-- (`KeepsTables`) and, where a window is freed, that c9flush does not fail (`SendsFlush`), and a
-- list of events for c9proc. C's `1ul << n` for n of 64 or more is the parameter `wide`, with
-- the law that the shift counts modulo 64 where a result needs it.
--
-- Words are numbers below a power of 2 with their wrap-around written out. Fuel: 64 rounds for a
-- word in `numget`, the number of bytes for the decoder of keys and the loop of `kbdread`, the
-- number of queued replies and of events in `fsdispatch`, the number of rows in `drawcopy`, one
-- more than the lines of /dev/kbmap in `keymapinit`, than the bytes of the input in `kbmaptoxkb`;
-- each is proved enough.
--
-- Not modelled: what is printed to stderr; the c9 library's own code; generated protocol code; in
-- wl9.c the requests of other tables that do nothing, and what libwayland does. Coordinates of
-- drawn areas are not negative, and their sums in `drawcopy` do not overflow; an int that is read or
-- added up in `wctlread`, `drawinit` and `damage` wraps around. A second get_toplevel for one
-- surface is no step of Windows/Reach, nor is a `winnew` that fails after its first read.
pub mod Prelude
pub mod Libc
pub mod Util
pub mod Keymap
pub mod Fs
pub mod Compositor
pub mod Windows
pub mod Start
pub mod Selection
pub mod Globals
