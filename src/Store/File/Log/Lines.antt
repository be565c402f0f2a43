-- ===== src/Store/File/Log/Lines.antt =====
-- src/store/file_store.cpp: the records of a log, line by line.
use fix_protocol.Prelude.{
  ℕ, ◌+◌, ◌^◌, ◌<◌, ◌≤◌, ◌≡◌, ◌≢◌, refl, true, false, some, List, [], ◌∷◌, ◌++◌, Bytes, equal,
  arith, if◌then◌else◌, ==_false, length, length-append, All, All-append, append_assoc, append-nil,
  ap, ◌∙◌,
}
use fix_protocol.Prelude.Decimal.{to_decimal, IsDigit, to_decimal-IsDigit, from_chars-to_decimal}
use fix_protocol.Store.SortedMap.{Entry, assign}
use fix_protocol.Store.File.Sequences.{newline}
use fix_protocol.Store.File.Log.{record_text, split_bar, Index, index_line, Scan, scan}

abbrev pub IsLine : Bytes → Type 0
IsLine = All (λ c. c ≢ newline)

-- What the log can hold under a number.
abbrev pub IsStorable : Entry → Type 0
IsStorable e = (1 ≤ e.seq) × (e.seq < 2 ^ 64) × IsLine e.value

-- A record without its newline.
abbrev pub line_of : ℕ → Bytes → Bytes
line_of n raw = to_decimal n ++ (b'|' ∷ raw)

digits-IsLine : (ds : Bytes) → All IsDigit ds → IsLine ds
digits-IsLine [] h = tt
digits-IsLine (d ∷ ds) h = (λ e. absurd (omega (arith, h.0)), digits-IsLine ds h.1)

pub line_of-IsLine : (n : ℕ) (raw : Bytes) → IsLine raw → IsLine (line_of n raw)
line_of-IsLine n raw h =
    All-append (λ c. c ≢ newline) (to_decimal n) (b'|' ∷ raw)
      (digits-IsLine (to_decimal n) (to_decimal-IsDigit n)) (λ e. absurd (omega (arith, e)), h)

split_bar-digits :
    (ds raw : Bytes) → All IsDigit ds → split_bar (ds ++ (b'|' ∷ raw)) ≡ some (ds, raw)
unfolding split_bar
split_bar-digits [] raw h = refl
split_bar-digits (d ∷ ds) raw h = ground (arith, split_bar-digits ds raw h.1)

pub split_bar-line_of : (n : ℕ) (raw : Bytes) → split_bar (line_of n raw) ≡ some (to_decimal n, raw)
split_bar-line_of n raw = split_bar-digits (to_decimal n) raw (to_decimal-IsDigit n)

index_line-line_of :
    (n : ℕ) (raw : Bytes) (pos : ℕ) (ix : Index)
    → 1 ≤ n
    → n < 2 ^ 64
    → index_line (line_of n raw) pos ix ≡ assign n pos ix
unfolding index_line
index_line-line_of n raw pos ix p l =
    rw (split_bar-line_of n raw) (rw (from_chars-to_decimal (2 ^ 64) n l) (ground arith))

-- What the loop ends with in front of a rest that has no newline.
abbrev pub stopped : Index → ℕ → Bytes → Scan
stopped ix pos torn = record {
  index = ix;
  last_good = pos;
  torn = if equal torn [] then false else true;
}

-- The loop passes a complete line.
scan-line :
    (pos : ℕ) (acc line rest : Bytes) (ix : Index)
    → IsLine line
    → scan pos acc (line ++ (newline ∷ rest)) ix
      ≡ scan (pos + length (acc ++ line) + 1) [] rest (index_line (acc ++ line) pos ix)
unfolding scan
scan-line pos acc [] rest ix h = rw append-nil refl
scan-line pos acc (c ∷ line) rest ix h =
    rw (==_false c newline h.0, scan)
      (scan-line pos (acc ++ c ∷ []) line rest ix h.1
        ∙ ap (λ l. scan (pos + length l + 1) [] rest (index_line l pos ix))
            (append_assoc acc (c ∷ []) line))

-- The loop stops before a line that is not complete.
scan_tail :
    (pos : ℕ) (acc torn : Bytes) (ix : Index)
    → IsLine torn
    → scan pos acc torn ix ≡ stopped ix pos (acc ++ torn)
unfolding scan
scan_tail pos acc [] ix h = rw append-nil refl
scan_tail pos acc (c ∷ torn) ix h =
    rw (==_false c newline h.0, scan)
      (scan_tail pos (acc ++ c ∷ []) torn ix h.1
        ∙ ap (stopped ix pos) (append_assoc acc (c ∷ []) torn))

-- A record and what follows it, as a line.
pub record_text-line_of :
    (n : ℕ) (raw rest : Bytes) → record_text n raw ++ rest ≡ line_of n raw ++ (newline ∷ rest)
unfolding record_text
record_text-line_of n raw rest = simp append_assoc

pub length-record_text :
    (n : ℕ) (raw : Bytes) → length (record_text n raw) ≡ length (line_of n raw) + 1
unfolding record_text
length-record_text n raw = omega (
  arith,
  length-append {0} (to_decimal n) (b'|' ∷ (raw ++ newline ∷ [])),
  length-append {0} raw (newline ∷ []),
  length-append {0} (to_decimal n) (b'|' ∷ raw),
)

scan-record :
    (pos n : ℕ) (raw rest : Bytes) (ix : Index)
    → IsStorable (record { seq = n; value = raw })
    → scan pos [] (record_text n raw ++ rest) ix
      ≡ scan (pos + length (record_text n raw)) [] rest (assign n pos ix)
scan-record pos n raw rest ix h = rw (record_text-line_of n raw rest) (
    scan-line pos [] (line_of n raw) rest ix (line_of-IsLine n raw h.2)
    ∙ ap (λ i. scan (pos + length (line_of n raw) + 1) [] rest i)
        (index_line-line_of n raw pos ix h.0 h.1)
    ∙ ap (λ k. scan k [] rest (assign n pos ix)) (omega (arith, length-record_text n raw)))

-- The records of a log, in the order in which they were appended.
unfoldable pub log_text : List Entry → Bytes
log_text [] = []
log_text (e ∷ es) = record_text e.seq e.value ++ log_text es

-- The index of the records from a place on.
unfoldable pub index_all : ℕ → List Entry → Index → Index
index_all pos [] ix = ix
index_all pos (e ∷ es) ix =
    index_all (pos + length (record_text e.seq e.value)) es (assign e.seq pos ix)

-- The loop of `rebuild_index` on a log, and on what a write that was cut short left behind it.
pub scan-log_text :
    (pos : ℕ) (es : List Entry) (torn : Bytes) (ix : Index)
    → All IsStorable es
    → IsLine torn
    → scan pos [] (log_text es ++ torn) ix
      ≡ stopped (index_all pos es ix) (pos + length (log_text es)) torn
unfolding log_text index_all
scan-log_text pos [] torn ix h t =
    scan_tail pos [] torn ix t ∙ ap (λ k. stopped ix k torn) (omega arith)
scan-log_text pos (e ∷ es) torn ix h t =
    rw (append_assoc (record_text e.seq e.value) (log_text es) torn) (
      scan-record pos e.seq e.value (log_text es ++ torn) ix h.0
      ∙ scan-log_text (pos + length (record_text e.seq e.value)) es torn (assign e.seq pos ix) h.1 t
      ∙ ap
          (λ k.
            stopped (index_all (pos + length (record_text e.seq e.value)) es (assign e.seq pos ix))
              k torn)
          (omega (arith, length-append {0} (record_text e.seq e.value) (log_text es))))
