-- ===== src/Manif/Tables.antt =====
-- The values that manif/writer.go writes as text from which manif/parser.go builds the same values.
pub mod Order
pub mod Entries
pub mod Rows
pub mod Begins
pub mod Reading
pub mod Loops
pub mod RoundTrip
pub mod WholeFile
use go_luarocks.Prelude.{ℕ, ◌+◌, ◌≡◌, Bool, true, false, ◌&&◌, Bytes, any, pos}
use go_luarocks.Manif.Value.{
  Value, Items, Fields, Numbered, int, str, array, object, mixed, no_items, item, no_fields, field,
  no_numbered, numbered, text_lt,
}
use go_luarocks.Manif.Writer.{is_line_end, has_items, has_fields, has_numbered}
use go_luarocks.Manif.Integers.{IsInt64}

-- The key is below all of the keys.
unfoldable pub below_all : {N : Type 0} → Bytes → Fields N → Bool
unfolding text_lt
below_all k no_fields = true
below_all k (field j v fs) = text_lt k j && below_all k fs

-- Strings and keys on one line, 64-bit integers, arrays that are not empty, and tables whose keys
-- ascend. In a mixed table there are entries of both kinds, and the numbers count from 1.
unfoldable mutual
  unfolding below_all

  pub IsPlain : {N : Type 0} → Value N → Type 0
  IsPlain (str s) = any is_line_end s ≡ false
  IsPlain (int n) = IsInt64 n
  IsPlain (array xs) = (has_items xs ≡ true) × ArePlainItems xs
  IsPlain (object fs) = ArePlainFields fs
  IsPlain (mixed ns fs) =
      (has_numbered ns ≡ true) × (has_fields fs ≡ true) × ArePlainNumbered 1 ns × ArePlainFields fs
  IsPlain v = ⊥

  pub ArePlainItems : {N : Type 0} → Items N → Type 0
  ArePlainItems no_items = Unit
  ArePlainItems (item v xs) = IsPlain v × ArePlainItems xs

  pub ArePlainFields : {N : Type 0} → Fields N → Type 0
  ArePlainFields no_fields = Unit
  ArePlainFields (field k v fs) =
      (any is_line_end k ≡ false) × IsPlain v × (below_all k fs ≡ true) × ArePlainFields fs

  pub ArePlainNumbered : {N : Type 0} → ℕ → Numbered N → Type 0
  ArePlainNumbered i no_numbered = Unit
  ArePlainNumbered i (numbered k v ns) = (k ≡ pos i) × IsPlain v × ArePlainNumbered (i + 1) ns
