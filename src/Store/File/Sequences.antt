-- ===== src/Store/File/Sequences.antt =====
-- src/store/file_store.cpp: the sequence file, `load_seqs` and `persist_seqs`.
pub mod Text
pub mod Atomic
pub mod Crash
pub mod Succeeds
use fix_protocol.Prelude.{
  ℕ, suc, ◌+◌, ◌^◌, Bool, true, false, not, ◌&&◌, ◌||◌, Option, none, some, [], ◌∷◌, ◌++◌, Bytes,
  codes, if◌then◌else◌, leb, ◌==◌, length,
}
use fix_protocol.Prelude.Decimal.{to_decimal, from_chars, is_digit}
use fix_protocol.Core.Types.{ErrorCode, Result, ok, err, Done, store_error}
use fix_protocol.Store.File.Disk.{
  Os, Disk, sync, create, remove, write_all, rename, exists, read_file,
}

-- The next sender and the next target number.
abbrev pub Numbers : Type 0
Numbers = ℕ × ℕ

abbrev pub newline : ℕ
newline = 10

unfoldable pub seqs_text : Numbers → Bytes
seqs_text (sender, target) = to_decimal sender ++ (newline ∷ (to_decimal target ++ newline ∷ []))

abbrev pub is_space : ℕ → Bool
is_space c = c == b' ' || c == 9 || c == 13 || c == newline

-- Only digits and white space.
unfoldable pub all_plain : Bytes → Bool
all_plain [] = true
all_plain (c ∷ cs) = (is_digit c || is_space c) && all_plain cs

unfoldable pub skip_space : Bytes → Bytes
skip_space [] = []
skip_space (c ∷ cs) = if is_space c then skip_space cs else c ∷ cs

abbrev pub starts_with_space : Bytes → Bool
starts_with_space [] = false
starts_with_space (c ∷ _) = is_space c

abbrev pub ends_here : ℕ → ℕ → Bytes → Option Numbers
ends_here s t [] = if leb 1 s && leb 1 t then some (s, t) else none
ends_here s t (_ ∷ _) = none

abbrev pub second_number : ℕ → Option (ℕ × Bytes) → Option Numbers
second_number s none = none
second_number s (some (t, rest)) = ends_here s t (skip_space rest)

abbrev pub first_number : Option (ℕ × Bytes) → Option Numbers
first_number none = none
first_number (some (s, rest)) =
    if starts_with_space rest then second_number s (from_chars (2 ^ 64) (skip_space rest)) else none

-- The lambda `parse`.
unfoldable pub parse_seqs : Bytes → Option Numbers
parse_seqs text =
    if all_plain text then first_number (from_chars (2 ^ 64) (skip_space text)) else none

abbrev pub validated : Option Numbers → Result Numbers
validated none = err store_error
validated (some n) = ok n

abbrev pub parsed : Option Bytes → Result Numbers
parsed none = err store_error
parsed (some text) = validated (parse_seqs text)

abbrev pub numbers_of : Disk × Option Bytes → Disk × Result Numbers
numbers_of (d, text) = (d, parsed text)

abbrev pub if_there : Os → Bytes → Disk × Option Bool → Disk × Result Numbers
if_there os name (d, none) = (d, err store_error)
if_there os name (d, some false) = (d, ok (1, 1))
if_there os name (d, some true) = numbers_of (read_file os name d)

-- The numbers that `load_seqs` commits: those of the file, 1 and 1 if there is none, or an error.
unfoldable pub load_seqs : Os → Bytes → Disk → Disk × Result Numbers
load_seqs os name d = if_there os name (exists os name d)

unfoldable pub tmp_name : Bytes → Bytes
tmp_name name = name ++ codes ".tmp"

abbrev pub refused : Disk → Disk × Result Done
refused d = (d, err store_error)

-- The fsync of the directory, whose failure is passed over.
abbrev pub synced_dir : Os → Disk × Bool → Disk
synced_dir os (d, false) = d
synced_dir os (d, true) = (sync os (sync os d).0).0

abbrev pub renamed : Os → Bytes → Disk × Bool → Disk × Result Done
renamed os tmp (d, false) = refused (remove os tmp d)
renamed os tmp (d, true) = (synced_dir os (sync os d), ok tt)

abbrev pub closed_tmp : Os → Bytes → Bytes → Disk × Bool → Disk × Result Done
closed_tmp os tmp name (d, false) = refused (remove os tmp d)
closed_tmp os tmp name (d, true) = renamed os tmp (rename os tmp name d)

-- The lambda `discard_tmp`.
abbrev pub discard_tmp : Os → Bytes → Disk → Disk × Result Done
discard_tmp os tmp d = refused (remove os tmp (sync os d).0)

abbrev pub synced_tmp : Os → Bytes → Bytes → Disk × Bool → Disk × Result Done
synced_tmp os tmp name (d, false) = discard_tmp os tmp d
synced_tmp os tmp name (d, true) = closed_tmp os tmp name (sync os d)

abbrev pub written_tmp : Os → Bytes → Bytes → Disk × Bool → Disk × Result Done
written_tmp os tmp name (d, false) = discard_tmp os tmp d
written_tmp os tmp name (d, true) = synced_tmp os tmp name (sync os d)

abbrev pub created_tmp : Os → Bytes → Bytes → Bytes → Disk × Bool → Disk × Result Done
created_tmp os tmp name text (d, false) = refused d
created_tmp os tmp name text (d, true) =
    written_tmp os tmp name (write_all os tmp (suc (length text)) text d)

unfoldable pub persist_seqs : Os → Bytes → Numbers → Disk → Disk × Result Done
persist_seqs os name n d =
    created_tmp os (tmp_name name) name (seqs_text n) (create os (tmp_name name) d)
