-- ===== src/Store/File/Log.antt =====
-- src/store/file_store.cpp: the text of a message log, its index and what is read back from it.
pub mod Lines
pub mod Reads
use fix_protocol.Prelude.{
  ℕ, suc, ◌+◌, ◌^◌, Bool, true, false, Option, none, some, List, [], ◌∷◌, ◌++◌, Bytes, equal,
  if◌then◌else◌, ltb, ◌==◌, length, drop,
}
use fix_protocol.Prelude.Decimal.{to_decimal, from_chars, whole}
use fix_protocol.Store.SortedMap.{Slot, Entry, entry, assign}
use fix_protocol.Store.File.Sequences.{newline}

-- "<seq>|<raw>\n".
unfoldable pub record_text : ℕ → Bytes → Bytes
record_text seq raw = to_decimal seq ++ (b'|' ∷ (raw ++ newline ∷ []))

-- What is in front of the first bar and behind it.
unfoldable pub split_bar : Bytes → Option (Bytes × Bytes)
split_bar [] = none
split_bar (c ∷ cs) =
    let rest = split_bar cs in
    if c == b'|'
    then some ([], cs)
    else elim rest [ none ↦ none | some (before, after) ↦ some (c ∷ before, after) ]

-- From sequence numbers to the places of their records in the log.
abbrev pub Index : Type 0
Index = List (Slot ℕ)

abbrev pub index_number : ℕ → Index → Option ℕ → Index
index_number pos ix none = ix
index_number pos ix (some seq) = if seq == 0 then ix else assign seq pos ix

abbrev pub index_split : ℕ → Index → Option (Bytes × Bytes) → Index
index_split pos ix none = ix
index_split pos ix (some (before, _)) = index_number pos ix (whole (from_chars (2 ^ 64) before))

-- A complete line at a place of the log. One that is no record is left out.
unfoldable pub index_line : Bytes → ℕ → Index → Index
index_line line pos ix = index_split pos ix (split_bar line)

-- What the loop of `rebuild_index` ends with.
pub record Scan : Type 0 where
  pub index : Index
  pub last_good : ℕ
  pub torn : Bool

-- The loop of `rebuild_index` on the rest of the log, within the line that starts at `pos` and of
-- which `line` was read.
unfoldable pub scan : ℕ → Bytes → Bytes → Index → Scan
scan pos line [] ix = record {
  index = ix;
  last_good = pos;
  torn = if equal line [] then false else true;
}
scan pos line (c ∷ cs) ix = elim (c == newline) [
  | true ↦ scan (pos + length line + 1) [] cs (index_line line pos ix)
  | false ↦ scan pos (line ++ c ∷ []) cs ix
]

-- `std::getline`.
unfoldable pub first_line : Bytes → Bytes
first_line [] = []
first_line (c ∷ cs) = if c == newline then [] else c ∷ first_line cs

abbrev pub with_frame : ℕ → Option (Bytes × Bytes) → List Entry → List Entry
with_frame seq none rest = rest
with_frame seq (some (_, raw)) rest = entry seq raw ∷ rest

-- The calls of the callback. A place behind the end of the log puts the stream into the failed
-- state, and nothing more is read.
unfoldable pub read_frames : Bytes → Index → List Entry
read_frames log [] = []
read_frames log (e ∷ es) =
    let rest = read_frames log es in
    if ltb e.value (length log)
    then with_frame e.seq (split_bar (first_line (drop e.value log))) rest
    else []
