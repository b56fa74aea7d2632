-- ===== src/Libc/Tests.antt =====
-- Runs of the C library's functions.
use wl.Prelude.{◌^◌, ◌-◌, ◌≡◌, refl, []}
use wl.Prelude.Int.{negsuc}
use wl.Libc.{codes, strtoul, strtol}

strtoul_padded : strtoul (codes "   42 7") ≡ (42, codes " 7")
unfolding strtoul
strtoul_padded = refl

strtol_negative : strtol (codes " -3 x") ≡ (negsuc 2, codes " x")
unfolding strtol
strtol_negative = refl

strtoul_negative : strtoul (codes "-1") ≡ (2 ^ 64 - 1, [])
unfolding strtoul
strtoul_negative = refl
