-- ===== src/Media/Streaming.antt =====
-- That the loops over a file end, and what they send.
use facebook_clone.Prelude.{
  leb, ltb, ◌||◌, Option, ℕ, zero, suc, ◌+◌, ◌-◌, min, ◌≤◌, ◌<◌, ◌≡◌, refl, arith, true, false,
  none, some, List, [], ◌∷◌, ◌++◌, ◌==◌, take, drop, length, if◌then◌else◌, ap, ◌∙◌, sym,
  Bool-cases, inl, inr,
}
use facebook_clone.Shared.Text.{is_empty}
use facebook_clone.Shared.Table.Paging.{take_add, length-take, length-drop}
use facebook_clone.Media.Ranges.{
  chunk, generate_range, generate_full, Chunks, yielding, Stream, full, partial, not_satisfiable,
  is_unsatisfiable, stream_bounds, stream_local_file,
}

-- What is sent
abbrev pub joined : List (List ℕ) → List ℕ
joined [] = []
joined (bytes ∷ more) = bytes ++ joined more

-- What a read gives is as much of the file as it is long.
take-length : (m : ℕ) (rest : List ℕ) → take (length (take m rest)) rest ≡ take m rest
unfolding take
take-length zero rest = refl
take-length (suc m) [] = refl
take-length (suc m) (b ∷ rest) = ap (λ xs. b ∷ xs) (take-length m rest)

empty_read : (m : ℕ) (rest : List ℕ) → 0 < m → is_empty (take m rest) ≡ true → rest ≡ []
unfolding take
empty_read zero rest p e = ground arith
empty_read (suc m) [] p e = refl
empty_read (suc m) (b ∷ rest) p e = cc

take_nil : (n : ℕ) → take {A = ℕ} n [] ≡ []
unfolding take
take_nil zero = refl
take_nil (suc n) = refl

-- A read, and the rest of what was asked for
read_on :
    (m n : ℕ) (rest : List ℕ)
    → m ≤ n
    → take m rest ++ take (n - length (take m rest)) (drop (length (take m rest)) rest)
      ≡ take n rest
read_on m n rest h =
    let k = length (take m rest) in
    ap (λ xs. xs ++ take (n - k) (drop k rest)) (sym (take-length m rest))
    ∙ (take_add k (n - k) rest ∙ ap (λ i. take i rest) (ground (arith, length-take m rest)))

positive_read : (m : ℕ) (rest : List ℕ) → is_empty (take m rest) ≡ false → 0 < length (take m rest)
unfolding take
positive_read zero rest e = cc
positive_read (suc m) [] e = cc
positive_read (suc m) (b ∷ rest) e = omega arith

take_none : (n : ℕ) (rest : List ℕ) → n ≡ 0 → take n rest ≡ []
unfolding take
take_none n rest e = ap (λ i. take i rest) e

-- All that a generator sends, none where it has not ended
abbrev pub joined_chunks : Chunks → Option (List ℕ)
joined_chunks none = none
joined_chunks (some chunks) = some (joined chunks)

yielding_lem :
    (bytes xs : List ℕ) (more : Chunks)
    → joined_chunks more ≡ some xs
    → joined_chunks (yielding bytes more) ≡ some (bytes ++ xs)
yielding_lem bytes xs none e = cc
yielding_lem bytes xs (some more) e = ground arith

-- The loop of a range ends, and what it sends are the bytes that were asked for, as far as the file
-- has them.
generate_range_lem :
    (fuel remaining : ℕ) (rest : List ℕ)
    → remaining < fuel
    → joined_chunks (generate_range fuel remaining rest) ≡ some (take remaining rest)
unfolding generate_range
generate_range_lem zero remaining rest h = ground arith
generate_range_lem (suc fuel) remaining rest h = elim (Bool-cases (remaining == 0)) [
  | inl z ↦ rw z (ap some (sym (take_none remaining rest (ground arith))))
  | inr p ↦ rw p (elim (Bool-cases (is_empty (take (min chunk remaining) rest))) [
    | inl e ↦ rw e (
        let nothing : rest ≡ [] = empty_read (min chunk remaining) rest (ground arith) e in
        ap some (sym (ap (take remaining) nothing ∙ take_nil remaining)))
    | inr e ↦ rw e (
        let bytes = take (min chunk remaining) rest in
        let k = length bytes in
        let left = drop k rest in
        let some_bytes = positive_read (min chunk remaining) rest e in
        yielding_lem bytes (take (remaining - k) left) (generate_range fuel (remaining - k) left)
          (generate_range_lem fuel (remaining - k) left (ground arith))
        ∙ ap some (read_on (min chunk remaining) remaining rest (omega arith)))
  ])
]

take_and_drop : (k : ℕ) (rest : List ℕ) → take k rest ++ drop k rest ≡ rest
unfolding take drop
take_and_drop zero rest = refl
take_and_drop (suc k) [] = refl
take_and_drop (suc k) (b ∷ rest) = ap (λ xs. b ∷ xs) (take_and_drop k rest)

-- A read, and all that follows it
read_all : (m : ℕ) (rest : List ℕ) → take m rest ++ drop (length (take m rest)) rest ≡ rest
read_all m rest =
    let k = length (take m rest) in
    ap (λ xs. xs ++ drop k rest) (sym (take-length m rest)) ∙ take_and_drop k rest

-- With fuel for every byte, the loop over the whole file ends, and sends it whole.
generate_full_lem :
    (fuel : ℕ) (rest : List ℕ)
    → length rest < fuel
    → joined_chunks (generate_full fuel rest) ≡ some rest
unfolding generate_full
generate_full_lem zero rest h = ground arith
generate_full_lem (suc fuel) rest h = elim (Bool-cases (is_empty (take chunk rest))) [
  | inl e ↦ rw e (ap some (sym (empty_read chunk rest (omega arith) e)))
  | inr e ↦ rw e (
      let bytes = take chunk rest in
      let left = drop (length bytes) rest in
      let some_bytes = positive_read chunk rest e in
      yielding_lem bytes left (generate_full fuel left) (
        generate_full_lem fuel left
          (ground (arith, length-drop (length bytes) rest, length-take chunk rest, some_bytes, h)))
      ∙ ap some (read_all chunk rest))
]

-- What a stream sends, none where its loop has not ended
abbrev pub sent : Stream → Option (List ℕ)
sent (full chunks) = joined_chunks chunks
sent (partial start end size chunks) = joined_chunks chunks
sent not_satisfiable = some []

-- The loops end: without the header the loop ends and has sent the whole file; with bounds it ends
-- and has sent the bytes from the first to the last of them, or, if the first lies behind the last
-- or one of them is not in the file, none.
pub stream_bounds_lem :
    (file : List ℕ) (start end : ℕ)
    → (sent (stream_local_file file none) ≡ some file)
      × (sent (stream_bounds file (some (start, end)))
          ≡ some (
              if leb (length file) start || leb (length file) end || ltb end start
              then []
              else take (end - start + 1) (drop start file)))
unfolding stream_local_file
stream_bounds_lem file start end = (
  generate_full_lem (length file + 1) file (omega arith),
  elim (Bool-cases (is_unsatisfiable (length file) start end)) [
    | inl e ↦ rw e refl
    | inr e ↦ rw e (
        let last : min end (length file - 1) ≡ end = ground arith in
        rw last (
          generate_range_lem (end - start + 1 + 1) (end - start + 1) (drop start file)
            (omega arith)))
  ],
)
