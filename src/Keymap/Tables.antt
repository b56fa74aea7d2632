-- ===== src/Keymap/Tables.antt =====
-- The tables of keymap.c: XKB key symbol names, and where each rune's name starts in them.
use wl.Prelude.{ℕ, List, [], ◌∷◌, ◌++◌}
use Prim.Native.String.{String}
use wl.Libc.{codes}

-- The names in `xkbnames`, in order.
unfoldable pub names : List String
names =
    "BackSpace" ∷ "Tab" ∷ "Return" ∷ "Escape" ∷ "space" ∷ "exclam" ∷ "quotedbl" ∷ "numbersign"
    ∷ "dollar" ∷ "percent" ∷ "ampersand" ∷ "apostrophe" ∷ "parenleft" ∷ "parenright" ∷ "asterisk"
    ∷ "plus" ∷ "comma" ∷ "minus" ∷ "period" ∷ "slash" ∷ "0" ∷ "1" ∷ "2" ∷ "3" ∷ "4" ∷ "5" ∷ "6"
    ∷ "7" ∷ "8" ∷ "9" ∷ "colon" ∷ "semicolon" ∷ "less" ∷ "equal" ∷ "greater" ∷ "question" ∷ "at"
    ∷ "A" ∷ "B" ∷ "C" ∷ "D" ∷ "E" ∷ "F" ∷ "G" ∷ "H" ∷ "I" ∷ "J" ∷ "K" ∷ "L" ∷ "M" ∷ "N" ∷ "O" ∷ "P"
    ∷ "Q" ∷ "R" ∷ "S" ∷ "T" ∷ "U" ∷ "V" ∷ "W" ∷ "X" ∷ "Y" ∷ "Z" ∷ "bracketleft" ∷ "backslash"
    ∷ "bracketright" ∷ "asciicircum" ∷ "underscore" ∷ "grave" ∷ "a" ∷ "b" ∷ "c" ∷ "d" ∷ "e" ∷ "f"
    ∷ "g" ∷ "h" ∷ "i" ∷ "j" ∷ "k" ∷ "l" ∷ "m" ∷ "n" ∷ "o" ∷ "p" ∷ "q" ∷ "r" ∷ "s" ∷ "t" ∷ "u" ∷ "v"
    ∷ "w" ∷ "x" ∷ "y" ∷ "z" ∷ "braceleft" ∷ "bar" ∷ "braceright" ∷ "asciitilde" ∷ "Delete" ∷ "F1"
    ∷ "F2" ∷ "F3" ∷ "F4" ∷ "F5" ∷ "F6" ∷ "F7" ∷ "F8" ∷ "F9" ∷ "F10" ∷ "F11" ∷ "F12" ∷ "Home" ∷ "Up"
    ∷ "Prior" ∷ "Print" ∷ "Left" ∷ "Right" ∷ "Next" ∷ "Insert" ∷ "Alt_L" ∷ "Shift_L" ∷ "Control_L"
    ∷ "End" ∷ "Scroll_Lock" ∷ "XF86AudioPrev" ∷ "XF86AudioNext" ∷ "XF86AudioPlay"
    ∷ "XF86AudioLowerVolume" ∷ "XF86AudioRaiseVolume" ∷ "XF86AudioMute" ∷ "XF86MonBrightnessDown"
    ∷ "XF86MonBrightnessUp" ∷ "Down" ∷ "Break" ∷ "Caps_Lock" ∷ "Num_Lock" ∷ "Alt_R" ∷ "Super_L" ∷ []

-- Each name followed by a NUL byte.
unfoldable pub terminated : List String → List ℕ
terminated [] = []
terminated (n ∷ ns) = codes n ++ (0 ∷ terminated ns)

-- The array, which begins with a NUL byte of its own.
unfoldable pub xkbnames : List ℕ
unfolding terminated names
xkbnames = 0 ∷ terminated names

-- For each ASCII rune, the offset of its name, or 0.
unfoldable pub xkbascii : List ℕ
xkbascii =
    0 ∷ 0 ∷ 0 ∷ 0 ∷ 0 ∷ 0 ∷ 0 ∷ 0 ∷ 1 ∷ 11 ∷ 15 ∷ 0 ∷ 0 ∷ 0 ∷ 0 ∷ 0 ∷ 0 ∷ 0 ∷ 0 ∷ 0 ∷ 0 ∷ 0 ∷ 0 ∷ 0
    ∷ 0 ∷ 0 ∷ 0 ∷ 22 ∷ 0 ∷ 0 ∷ 0 ∷ 0 ∷ 29 ∷ 35 ∷ 42 ∷ 51 ∷ 62 ∷ 69 ∷ 77 ∷ 87 ∷ 98 ∷ 108 ∷ 119 ∷ 128
    ∷ 133 ∷ 139 ∷ 145 ∷ 152 ∷ 158 ∷ 160 ∷ 162 ∷ 164 ∷ 166 ∷ 168 ∷ 170 ∷ 172 ∷ 174 ∷ 176 ∷ 178 ∷ 184
    ∷ 194 ∷ 199 ∷ 205 ∷ 213 ∷ 222 ∷ 225 ∷ 227 ∷ 229 ∷ 231 ∷ 233 ∷ 235 ∷ 237 ∷ 239 ∷ 241 ∷ 243 ∷ 245
    ∷ 247 ∷ 249 ∷ 251 ∷ 253 ∷ 255 ∷ 257 ∷ 259 ∷ 261 ∷ 263 ∷ 265 ∷ 267 ∷ 269 ∷ 271 ∷ 273 ∷ 275 ∷ 277
    ∷ 289 ∷ 299 ∷ 312 ∷ 324 ∷ 335 ∷ 341 ∷ 343 ∷ 345 ∷ 347 ∷ 349 ∷ 351 ∷ 353 ∷ 355 ∷ 357 ∷ 359 ∷ 361
    ∷ 363 ∷ 365 ∷ 367 ∷ 369 ∷ 371 ∷ 373 ∷ 375 ∷ 377 ∷ 379 ∷ 381 ∷ 383 ∷ 385 ∷ 387 ∷ 389 ∷ 391 ∷ 393
    ∷ 403 ∷ 407 ∷ 418 ∷ 429 ∷ []

-- Runes beyond ASCII in ascending order, with the offset of the name.
unfoldable pub xkbextra : List (ℕ × ℕ)
xkbextra =
    (0xF001, 436)
    ∷ (0xF002, 439)
    ∷ (0xF003, 442)
    ∷ (0xF004, 445)
    ∷ (0xF005, 448)
    ∷ (0xF006, 451)
    ∷ (0xF007, 454)
    ∷ (0xF008, 457)
    ∷ (0xF009, 460)
    ∷ (0xF00A, 463)
    ∷ (0xF00B, 467)
    ∷ (0xF00C, 471)
    ∷ (0xF00D, 475)
    ∷ (0xF00E, 480)
    ∷ (0xF00F, 483)
    ∷ (0xF010, 489)
    ∷ (0xF011, 495)
    ∷ (0xF012, 500)
    ∷ (0xF013, 506)
    ∷ (0xF014, 511)
    ∷ (0xF015, 518)
    ∷ (0xF016, 524)
    ∷ (0xF017, 532)
    ∷ (0xF018, 542)
    ∷ (0xF019, 546)
    ∷ (0xF022, 558)
    ∷ (0xF023, 572)
    ∷ (0xF024, 586)
    ∷ (0xF025, 600)
    ∷ (0xF026, 621)
    ∷ (0xF027, 642)
    ∷ (0xF028, 656)
    ∷ (0xF029, 678)
    ∷ (0xF800, 698)
    ∷ (0xF861, 703)
    ∷ (0xF864, 709)
    ∷ (0xF865, 719)
    ∷ (0xF867, 728)
    ∷ (0xF868, 734)
    ∷ []
