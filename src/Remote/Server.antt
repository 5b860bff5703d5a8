-- ===== src/Remote/Server.antt =====
-- remote/search.go: NormalizeServer, splitURL and unquote.
use go_luarocks.Prelude.{
  ℕ, not, ◌&&◌, ◌||◌, none, some, List, [], ◌∷◌, ◌++◌, Bytes, codes, same, if◌then◌else◌, ◌==◌,
  reverse, any,
}
use go_luarocks.Files.FilePath.{slash}
use go_luarocks.Files.Strings.{split_byte, split_from, join_byte, replace_byte, to_lower}
use go_luarocks.Manif.Lexer.{split_at}

-- unquote: one pair of quotes, around two bytes at least.
unfoldable pub unquote_ends : ℕ → Bytes → Bytes → Bytes
unquote_ends first [] s = s
unquote_ends first (last ∷ middle) s =
    if ((first == b'"') && (last == b'"')) || ((first == 39) && (last == 39))
    then reverse middle
    else s

unfoldable pub unquote : Bytes → Bytes
unfolding unquote_ends
unquote [] = []
unquote (first ∷ rest) = unquote_ends first (reverse rest) (first ∷ rest)

-- splitURL
unfoldable pub split_url : Bytes → Bytes × Bytes
unfolding unquote split_at
split_url raw =
    let url = unquote raw in
    elim (split_at (codes "://") url) [
      | none ↦ (codes "file", url)
      | some (proto, path) ↦
          if any (λ c. c == b':') proto then (codes "file", url) else (proto, path)
    ]

-- The loop over the trailing slashes, on the reversed text: one byte at least is kept.
unfoldable pub trim_reversed : Bytes → Bytes
trim_reversed [] = []
trim_reversed (c ∷ []) = c ∷ []
trim_reversed (c ∷ d ∷ s) =
    let shorter = trim_reversed (d ∷ s) in if c == slash then shorter else c ∷ d ∷ s

-- strings.ReplaceAll(path, "//", "/")
unfoldable pub halve_slashes : Bytes → Bytes
halve_slashes [] = []
halve_slashes (c ∷ []) = c ∷ []
halve_slashes (c ∷ d ∷ s) =
    let pair = slash ∷ halve_slashes s in
    let one = c ∷ halve_slashes (d ∷ s) in if (c == slash) && (d == slash) then pair else one

-- The drive letter, and the path behind it.
unfoldable pub split_drive : Bytes → Bytes × Bytes
split_drive [] = ([], [])
split_drive (c ∷ []) = ([], c ∷ [])
split_drive (c ∷ d ∷ s) = if d == b':' then (c ∷ d ∷ [], s) else ([], c ∷ d ∷ s)

-- One round of the loop over the pieces, which are kept last first.
unfoldable pub add_piece : List Bytes → Bytes → List Bytes
unfolding same
add_piece [] piece = if same piece (codes ".") then [] else piece ∷ []
add_piece (last ∷ kept) piece =
    if same piece (codes ".")
    then last ∷ kept
    else if not (same piece (codes "..")) || same last (codes "..")
    then piece ∷ last ∷ kept
    else if same last []
    then last ∷ kept
    else kept

unfoldable pub add_pieces : List Bytes → List Bytes → List Bytes
unfolding add_piece
add_pieces kept [] = kept
add_pieces kept (piece ∷ pieces) = add_pieces (add_piece kept piece) pieces

unfoldable pub pieces_text : List Bytes → Bytes
unfolding join_byte
pieces_text [] = codes "."
pieces_text ([] ∷ []) = codes "/"
pieces_text (piece ∷ pieces) = join_byte slash (piece ∷ pieces)

-- What NormalizeServer makes of the path.
unfoldable pub normalize_path : Bytes → Bytes
unfolding trim_reversed halve_slashes split_drive add_pieces pieces_text split_from
normalize_path path =
    let slashed = reverse (trim_reversed (reverse (replace_byte 92 slash path))) in
    let parted = split_drive (halve_slashes slashed) in
    parted.0 ++ pieces_text (reverse (add_pieces [] (split_byte slash parted.1)))

-- NormalizeServer
unfoldable pub normalize_server : Bytes → Bytes
unfolding split_url normalize_path same
normalize_server server =
    let parted = split_url server in
    let path = normalize_path parted.1 in
    if same (to_lower parted.0) (codes "file") then path else parted.0 ++ (codes "://" ++ path)
