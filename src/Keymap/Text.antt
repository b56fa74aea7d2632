-- ===== src/Keymap/Text.antt =====
-- The fixed parts of the keymap that `writekeymap` writes, and the modifiers of `keymapmod`.
use Prim.Native.String.{String}
use wl.Prelude.{
  All, ℕ, ◌+◌, ◌^◌, ◌≡◌, refl, Bool, false, ◌||◌, List, [], ◌∷◌, ◌++◌, ◌==◌, if◌then◌else◌, arith,
}
use wl.Libc.{codes}
use wl.Keymap.Runes.{hex, hex4, keymapmod}

unfoldable pub lines_of : List String → List ℕ
lines_of [] = []
lines_of (l ∷ ls) = codes l ++ lines_of ls

unfoldable pub xkbtypes : List ℕ
unfolding lines_of
xkbtypes = lines_of (
    "xkb_types \"plan9\" {\n" ∷ "\ttype \"ONE_LEVEL\" {\n" ∷ "\t\tmodifiers = none;\n"
    ∷ "\t\tlevel_name[1] = \"Any\";\n" ∷ "\t};\n" ∷ "\ttype \"TWO_LEVEL\" {\n"
    ∷ "\t\tmodifiers = Shift;\n" ∷ "\t\tmap[Shift] = 2;\n" ∷ "\t\tlevel_name[1] = \"Base\";\n"
    ∷ "\t\tlevel_name[2] = \"Shift\";\n" ∷ "\t};\n" ∷ "\ttype \"ALPHABETIC\" {\n"
    ∷ "\t\tmodifiers = Shift+Lock;\n" ∷ "\t\tmap[Shift] = 2;\n" ∷ "\t\tmap[Lock] = 2;\n"
    ∷ "\t\tlevel_name[1] = \"Base\";\n" ∷ "\t\tlevel_name[2] = \"Caps\";\n" ∷ "\t};\n" ∷ "};\n"
    ∷ [])

unfoldable pub xkbcompat : List ℕ
unfolding lines_of
xkbcompat = lines_of (
    "xkb_compat \"plan9\" {\n" ∷ "\tinterpret Shift_L {\n"
    ∷ "\t\taction = SetMods(modifiers=Shift,clearLocks);\n" ∷ "\t};\n" ∷ "\tinterpret Caps_Lock {\n"
    ∷ "\t\taction = LockMods(modifiers=Lock);\n" ∷ "\t};\n" ∷ "};\n" ∷ [])

unfoldable pub xkbmods : List ℕ
unfolding lines_of
xkbmods = lines_of (
    "\tmodifier_map Mod1 {<U+F015>, <U+F867>};\n" ∷ "\tmodifier_map Shift {<U+F016>};\n"
    ∷ "\tmodifier_map Control {<U+F017>};\n" ∷ "\tmodifier_map Lock {<U+F864>};\n"
    ∷ "\tmodifier_map Mod4 {<U+F868>};\n" ∷ [])

-- A real modifier, by name and bit, with the runes that the keymap maps to it.
pub record Modifier : Type 0 where
  pub name : String
  pub index : ℕ
  pub runes : List ℕ

-- The lines of `xkbmods` as data. X numbers the modifiers Shift, Lock, Control, Mod1 to Mod5.
abbrev pub modifiers : List Modifier
modifiers =
    record { name = "Mod1"; index = 3; runes = 0xF015 ∷ 0xF867 ∷ [] }
    ∷ record { name = "Shift"; index = 0; runes = 0xF016 ∷ [] }
    ∷ record { name = "Control"; index = 2; runes = 0xF017 ∷ [] }
    ∷ record { name = "Lock"; index = 1; runes = 0xF864 ∷ [] }
    ∷ record { name = "Mod4"; index = 6; runes = 0xF868 ∷ [] }
    ∷ []

abbrev pub keycode : ℕ → List ℕ
keycode r = codes "<U+" ++ (hex4 r ++ codes ">")

abbrev pub comma_list : List ℕ → List ℕ
comma_list [] = []
comma_list (r ∷ []) = keycode r
comma_list (r ∷ r' ∷ rs) = keycode r ++ (codes ", " ++ comma_list (r' ∷ rs))

unfoldable pub declared : List Modifier → List ℕ
declared [] = []
declared (m ∷ ms) =
    codes "\tmodifier_map "
    ++ (codes m.name ++ (codes " {" ++ (comma_list m.runes ++ (codes "};\n" ++ declared ms))))

-- The text and the data say the same.
xkbmods_text : xkbmods ≡ declared modifiers
unfolding xkbmods declared hex
xkbmods_text = refl

abbrev pub contains : List ℕ → ℕ → Bool
contains [] r = false
contains (x ∷ xs) r = r == x || contains xs r

-- The bits of the modifiers that a key is mapped to.
abbrev pub mask_of : List Modifier → ℕ → ℕ
mask_of [] r = 0
mask_of (m ∷ ms) r = (if contains m.runes r then 2 ^ m.index else 0) + mask_of ms r

-- The real modifiers as X numbers them.
unfoldable pub real_name : ℕ → List ℕ
real_name n =
    if n == 0
    then codes "Shift"
    else if n == 1
    then codes "Lock"
    else if n == 2
    then codes "Control"
    else codes "Mod" ++ (n + 46) ∷ []

abbrev pub IsReal : Modifier → Type 0
IsReal m = codes m.name ≡ real_name m.index

modifiers-IsReal : All IsReal modifiers
unfolding real_name
modifiers-IsReal = (refl, (refl, (refl, (refl, (refl, tt)))))

keymapmod-mask : (r : ℕ) → keymapmod r ≡ mask_of modifiers r
unfolding keymapmod
keymapmod-mask r = ground arith

-- The keymap's `modifier_map` lines are the printed form of a list of real modifiers with their keys,
-- and for every rune `keymapmod` gives the bits of exactly the modifiers that these lines map its
-- key to.
pub keymapmod-mask_of :
    (r : ℕ)
    → (ms : List Modifier) × All IsReal ms × (xkbmods ≡ declared ms) × (keymapmod r ≡ mask_of ms r)
keymapmod-mask_of r = (modifiers, modifiers-IsReal, xkbmods_text, keymapmod-mask r)
