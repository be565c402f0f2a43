-- ===== src/Store/File/Sequences/Text.antt =====
-- src/store/file_store.cpp: the sequence numbers are read back from their file.
use fix_protocol.Prelude.{ℕ, ◌^◌, ◌<◌, ◌≤◌, ◌≡◌, refl, true, some, [], ◌∷◌, ◌++◌, Bytes, arith, All}
use fix_protocol.Prelude.Decimal.{
  to_decimal, from_chars, IsDigit, starts_with_digit, to_decimal-IsDigit, to_decimal-starts,
  from_chars-to_decimal_then,
}
use fix_protocol.Store.File.Sequences.{seqs_text, parse_seqs, all_plain, skip_space, newline}

all_plain-digits : (ds rest : Bytes) → All IsDigit ds → all_plain (ds ++ rest) ≡ all_plain rest
unfolding all_plain
all_plain-digits [] rest h = refl
all_plain-digits (d ∷ ds) rest h = ground (arith, all_plain-digits ds rest h.1)

skip_space-digit : (s : Bytes) → starts_with_digit s ≡ true → skip_space s ≡ s
unfolding skip_space
skip_space-digit [] h = refl
skip_space-digit (c ∷ cs) h = ground arith

skip_space-decimal :
    (n : ℕ) (rest : Bytes) → skip_space (to_decimal n ++ rest) ≡ to_decimal n ++ rest
skip_space-decimal n rest = skip_space-digit (to_decimal n ++ rest) (to_decimal-starts n rest)

all_plain-seqs_text : (s t : ℕ) → all_plain (seqs_text (s, t)) ≡ true
unfolding seqs_text all_plain
all_plain-seqs_text s t =
    rw
      (all_plain-digits (to_decimal s) (newline ∷ (to_decimal t ++ newline ∷ []))
        (to_decimal-IsDigit s))
      (rw (all_plain-digits (to_decimal t) (newline ∷ []) (to_decimal-IsDigit t)) refl)

tail_of : ℕ → Bytes
tail_of t = newline ∷ (to_decimal t ++ newline ∷ [])

reads_first :
    (s t : ℕ)
    → s < 2 ^ 64
    → from_chars (2 ^ 64) (skip_space (seqs_text (s, t))) ≡ some (s, tail_of t)
unfolding seqs_text tail_of
reads_first s t h =
    rw (skip_space-decimal s (tail_of t)) (from_chars-to_decimal_then (2 ^ 64) s (tail_of t) h refl)

reads_second :
    (t : ℕ) → t < 2 ^ 64 → from_chars (2 ^ 64) (skip_space (tail_of t)) ≡ some (t, newline ∷ [])
unfolding tail_of skip_space
reads_second t h =
    rw (skip_space-decimal t (newline ∷ []))
      (from_chars-to_decimal_then (2 ^ 64) t (newline ∷ []) h refl)

-- Two numbers of at least 1, as the file has them, are read back.
pub parse_seqs-seqs_text :
    (s t : ℕ)
    → 1 ≤ s
    → s < 2 ^ 64
    → 1 ≤ t
    → t < 2 ^ 64
    → parse_seqs (seqs_text (s, t)) ≡ some (s, t)
unfolding parse_seqs
parse_seqs-seqs_text s t ps ls pt lt =
    rw (all_plain-seqs_text s t, reads_first s t ls)
      (unfold tail_of in rw (reads_second t lt) (unfold skip_space in ground arith))
