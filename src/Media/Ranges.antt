-- ===== src/Media/Ranges.antt =====
-- The header `Range` and the reads of a file, for src/fb/presentation/rest/v1/streaming.py. A file
-- is the list of its bytes.
use facebook_clone.Prelude.{
  ℕ, zero, suc, ◌+◌, ◌-◌, ◌*◌, min, Bool, true, false, ◌&&◌, ◌||◌, Option, none, some, List, [],
  ◌∷◌, ◌==◌, leb, ltb, take, drop, length, if◌then◌else◌,
}
use facebook_clone.Shared.EntityId.{Text}
use facebook_clone.Shared.Text.{codes, strip, is_empty, text_eq}

-- `text.replace(pattern, "")`, where some characters of an occurrence are still to be dropped
unfoldable pub remove_all : Text → ℕ → Text → Text
remove_all pattern skip [] = []
remove_all pattern (suc skip) (c ∷ text) = remove_all pattern skip text
remove_all pattern zero (c ∷ text) =
    let inside = remove_all pattern (length pattern - 1) text in
    let outside = remove_all pattern zero text in
    if text_eq (take (length pattern) (c ∷ text)) pattern then inside else c ∷ outside

-- A character before the first of some parts
abbrev pub before_first : ℕ → List Text → List Text
before_first c [] = (c ∷ []) ∷ []
before_first c (part ∷ parts) = (c ∷ part) ∷ parts

-- `text.split("-")`
unfoldable pub split_dash : Text → List Text
split_dash [] = [] ∷ []
split_dash (c ∷ text) =
    let rest = split_dash text in if c == 45 then [] ∷ rest else before_first c rest

-- The digits of `int(text)`, with single underscores between them, after a value that is read
unfoldable pub read_digits : ℕ → Bool → Text → Option ℕ
read_digits value after_digit [] = if after_digit then some value else none
read_digits value after_digit (c ∷ text) =
    let more = read_digits (value * 10 + (c - 48)) true text in
    let past = read_digits value false text in
    if leb 48 c && leb c 57 then more else if c == 95 && after_digit then past else none

-- `int(text)` of a text without a minus sign, none for its ValueError
unfoldable pub read_int : Text → Option ℕ
unfolding read_digits
read_int text = elim (strip text) [
  | [] ↦ none
  | c ∷ rest ↦ if c == 43 then read_digits 0 false rest else read_digits 0 false (c ∷ rest)
]

-- `int(parts[1]) if parts[1] else file_size - 1`
abbrev pub end_of : ℕ → Text → Option ℕ
end_of file_size part = if is_empty part then some (file_size - 1) else read_int part

-- The start and the end of a range, none for a ValueError or an IndexError
abbrev pub bounds_of : ℕ → List Text → Option (ℕ × ℕ)
bounds_of file_size [] = none
bounds_of file_size (part ∷ []) = none
bounds_of file_size (part ∷ other ∷ parts) = elim (read_int part) [
  | none ↦ none
  | some start ↦ elim (end_of file_size other) [ none ↦ none | some end ↦ some (start, end) ]
]

unfoldable pub parse_range : Text → ℕ → Option (ℕ × ℕ)
unfolding read_int split_dash remove_all
parse_range header file_size =
    bounds_of file_size (split_dash (strip (remove_all (codes "bytes=") 0 header)))

-- `start >= file_size or end >= file_size or start > end`
abbrev pub is_unsatisfiable : ℕ → ℕ → ℕ → Bool
is_unsatisfiable file_size start end = leb file_size start || leb file_size end || ltb end start

abbrev pub chunk : ℕ
chunk = 65536

-- What a generator yields until it ends, none where it has not ended with the fuel that it has
abbrev pub Chunks : Type 0
Chunks = Option (List (List ℕ))

-- `yield data`, and what follows
abbrev pub yielding : List ℕ → Chunks → Chunks
yielding bytes none = none
yielding bytes (some more) = some (bytes ∷ more)

-- The loop of `generate_range` over what is left of the file, on fuel
unfoldable pub generate_range : ℕ → ℕ → List ℕ → Chunks
generate_range zero remaining rest = none
generate_range (suc fuel) remaining rest =
    let bytes = take (min chunk remaining) rest in
    let more = generate_range fuel (remaining - length bytes) (drop (length bytes) rest) in
    if remaining == 0 then some [] else if is_empty bytes then some [] else yielding bytes more

-- The loop of `generate_full`
unfoldable pub generate_full : ℕ → List ℕ → Chunks
generate_full zero rest = none
generate_full (suc fuel) rest =
    let bytes = take chunk rest in
    let more = generate_full fuel (drop (length bytes) rest) in
    if is_empty bytes then some [] else yielding bytes more

-- An answer of `_stream_local_file` for a file that is there: the whole of it, a part with its
-- bounds, or status 416
pub data Stream : Type 0 where
  full : Chunks → Stream
  partial : ℕ → ℕ → ℕ → Chunks → Stream
  not_satisfiable : Stream

-- The answer to bounds
abbrev pub stream_bounds : List ℕ → Option (ℕ × ℕ) → Stream
stream_bounds file none = not_satisfiable
stream_bounds file (some bounds) =
    let file_size = length file in
    let end = min bounds.1 (file_size - 1) in
    let chunk_size = end - bounds.0 + 1 in
    if is_unsatisfiable file_size bounds.0 bounds.1
    then not_satisfiable
    else partial bounds.0 end file_size
        (generate_range (chunk_size + 1) chunk_size (drop bounds.0 file))

-- `if range_header:`
unfoldable pub stream_local_file : List ℕ → Option Text → Stream
unfolding generate_range generate_full parse_range
stream_local_file file none = full (generate_full (length file + 1) file)
stream_local_file file (some header) =
    if is_empty header
    then full (generate_full (length file + 1) file)
    else stream_bounds file (parse_range header (length file))
