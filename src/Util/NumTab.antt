-- ===== src/Util/NumTab.antt =====
-- `struct numtab` with `numget` and `numput` of util.c: a bit map of 64-bit words in which a set bit
-- is a free number. The word `1ul << num` is undefined in C for a shift of 64 or more, and what the
-- compiled code makes of it is the parameter `wide`.
pub mod Words
pub mod Numbers
pub mod Alloc
pub mod Refines
use wl.Prelude.{
  ℕ, zero, suc, ◌+◌, ◌-◌, ◌*◌, ◌/◌, ◌%◌, ◌^◌, bit_and, bit_or, Bool, true, false, not, ◌||◌, Option,
  none, some, List, [], ◌∷◌, ◌++◌, ltb, leb, ◌==◌, if◌then◌else◌, length, get_elem?, set,
}

pub record NumTab : Type 0 where
  pub ent : List ℕ

abbrev pub entbit : ℕ
entbit = 64

-- `~x` on an unsigned long.
abbrev complement : ℕ → ℕ
complement x = 2 ^ 64 - 1 - x

-- `for (mask = *ent; (mask & 1) == 0; mask >>= 1) ++num;` with fuel.
trailing : ℕ → ℕ → ℕ → Option ℕ
trailing zero mask num = none
trailing (suc fuel) mask num = elim (bit_and mask 1 == 0) [
  | true ↦ trailing fuel (mask / 2) (num + 1)
  | false ↦ some num
]

-- A number and the words after it is taken, `full` when every word is 0, `stuck` without fuel.
pub data Scan : Type 0 where
  found : ℕ → List ℕ → Scan
  full stuck : Scan

abbrev pub past : ℕ → Scan → Scan
past w (found num ws) = found num (w ∷ ws)
past w full = full
past w stuck = stuck

-- -1 of `numget` is `failed`.
pub data Got : Type 0 where
  got : ℕ → NumTab → Got
  failed stuck : Got

-- The value -2ul: every bit but the lowest.
abbrev all_but_first : ℕ
all_but_first = 2 ^ 64 - 2

module _ (wide : ℕ → ℕ) where
  -- `1ul << n`
  shl_one : ℕ → ℕ
  shl_one n = if ltb n 64 then 2 ^ n else wide n

  take_bit : ℕ → List ℕ → Option ℕ → Scan
  take_bit w ws none = Scan.stuck
  take_bit w ws (some num) = found num (bit_and w (complement (shl_one num)) ∷ ws)

  -- The loop over the words; num counts from `base`.
  pub scan : List ℕ → ℕ → Scan
  scan [] base = full
  scan (w ∷ ws) base =
      if w == 0 then past w (scan ws (base + entbit)) else take_bit w ws (trailing entbit w base)

  -- `room` says whether realloc finds memory.
  pub grow : Bool → NumTab → Got
  grow false tab = failed
  grow true tab = got (length tab.ent * entbit) (record { ent = tab.ent ++ all_but_first ∷ [] })

  unfoldable pub numget : Bool → NumTab → Got
  unfolding shl_one take_bit scan grow trailing
  numget room tab = elim (scan tab.ent 0) [
    | found num ws ↦ got num (record { ent = ws })
    | full ↦ grow room tab
    | stuck ↦ Got.stuck
  ]

-- `none` is the -1; num is an int that is not negative, the caller's test being `num < 0`.
unfoldable pub numput : NumTab → ℕ → Option NumTab
numput tab num =
    let index = num / entbit in
    let mask = 2 ^ (num % entbit) in
    elim (get_elem? tab.ent index) [
      | none ↦ none
      | some w ↦
          if not (bit_and w mask == 0)
          then none
          else some (record { ent = set tab.ent index (bit_or w mask) })
    ]
