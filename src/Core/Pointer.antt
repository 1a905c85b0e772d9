-- ===== src/Core/Pointer.antt =====
-- The escaping of keys in JSON Pointers, as packages/core writes and reads them.
use managed_tool_call_schema.Base.{
  ℕ, Text, ◌==◌, nat_eq, ◌≡◌, ◌≢◌, refl, ◌&&◌, [], ◌∷◌, arith, if◌then◌else◌,
}

-- `s.replaceAll(pair, unit)` for a pair of code units
replace_pair : ℕ → ℕ → ℕ → Text → Text
replace_pair a b c [] = []
replace_pair a b c (x ∷ []) = x ∷ []
replace_pair a b c (x ∷ y ∷ s) =
    let hit = c ∷ replace_pair a b c s in
    let miss = x ∷ replace_pair a b c (y ∷ s) in if x == a && y == b then hit else miss

-- `s.replaceAll(unit, pair)`
replace_unit : ℕ → ℕ → ℕ → Text → Text
replace_unit a b c [] = []
replace_unit a b c (x ∷ s) =
    if x == a then b ∷ c ∷ replace_unit a b c s else x ∷ replace_unit a b c s

-- `part.replaceAll('~1', '/').replaceAll('~0', '~')`
unfoldable pub unescape : Text → Text
unfolding replace_pair
unescape part = replace_pair 126 48 126 (replace_pair 126 49 47 part)

-- `key.replaceAll('~', '~0').replaceAll('/', '~1')`
unfoldable pub escape : Text → Text
unfolding replace_unit
escape key = replace_unit 47 126 49 (replace_unit 126 126 48 key)

-- A unit that opens no pair stays.
replace_pair-skip :
    (a b c x : ℕ) (s : Text) → x ≢ a → replace_pair a b c (x ∷ s) ≡ x ∷ replace_pair a b c s
unfolding replace_pair
replace_pair-skip a b c x [] n = refl
replace_pair-skip a b c x (y ∷ s) n = ground arith

unescape_slashes :
    (s : Text)
    → replace_pair 126 49 47 (replace_unit 47 126 49 (replace_unit 126 126 48 s))
      ≡ replace_unit 126 126 48 s
unfolding replace_unit replace_pair
unescape_slashes [] = refl
unescape_slashes (x ∷ s) =
    let t = replace_unit 47 126 49 (replace_unit 126 126 48 s) in
    ground
      (arith, unescape_slashes s, replace_pair-skip 126 49 47 48 t, replace_pair-skip 126 49 47 x t)

unescape_tildes : (s : Text) → replace_pair 126 48 126 (replace_unit 126 126 48 s) ≡ s
unfolding replace_unit replace_pair
unescape_tildes [] = refl
unescape_tildes (x ∷ s) =
    ground (arith, unescape_tildes s, replace_pair-skip 126 48 126 x (replace_unit 126 126 48 s))

-- A key that was escaped into a pointer is read back from it.
pub unescape-escape : (key : Text) → unescape (escape key) ≡ key
unfolding unescape escape
unescape-escape key = rw (unescape_slashes key) (unescape_tildes key)
