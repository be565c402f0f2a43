-- ===== src/Store/File/Disk.antt =====
-- src/store/file_store.cpp: the files of the store directory, and the system calls on them.
pub mod Only
pub mod Written
use fix_protocol.Prelude.{
  ℕ, zero, suc, ◌+◌, Bool, true, false, not, Option, none, some, [], ◌∷◌, ◌++◌, Bytes, equal, min,
  if◌then◌else◌, length, take, drop,
}

-- What the system answers to the calls, in the order in which they are made: whether the n-th one
-- fails, and how many bytes it takes if it is a write. A process that is killed before its n-th
-- call is one for which that call and all later ones fail: a call that fails changes no file.
pub record Os : Type 0 where
  pub fails : ℕ → Bool
  pub written : ℕ → ℕ → ℕ

-- The files by their names in the directory, and the number of calls made so far.
pub record Disk : Type 0 where
  pub files : Bytes → Option Bytes
  pub calls : ℕ

unfoldable pub put_file : Bytes → Option Bytes → Disk → Disk
put_file name content d = record d { files = λ k. if equal k name then content else d.files k }

-- One more call was made.
abbrev pub called : Disk → Disk
called d = record d { calls = d.calls + 1 }

abbrev pub answers : Os → Disk → Bool
answers os d = not (os.fails d.calls)

-- A call that changes no file: fsync and close.
unfoldable pub sync : Os → Disk → Disk × Bool
sync os d = (called d, answers os d)

-- open(O_CREAT | O_TRUNC).
unfoldable pub create : Os → Bytes → Disk → Disk × Bool
create os name d =
    if answers os d then (put_file name (some []) (called d), true) else (called d, false)

unfoldable pub remove : Os → Bytes → Disk → Disk
remove os name d = if answers os d then put_file name none (called d) else called d

abbrev pub content : Option Bytes → Bytes
content none = []
content (some s) = s

-- A file with more bytes behind what it has.
unfoldable pub extend : Bytes → Bytes → Disk → Disk
extend name s d = put_file name (some (content (d.files name) ++ s)) d

-- write(2) at the end of a file: how many bytes it took, or nothing if it failed. A write that is
-- interrupted is made again, so what counts is the answer to the last one.
unfoldable pub write : Os → Bytes → Bytes → Disk → Disk × Option ℕ
write os name s d =
    let n = min (os.written d.calls (length s)) (length s) in
    if answers os d then (extend name (take n s) (called d), some n) else (called d, none)

-- A round of `write_all`, and the others on what is left.
abbrev pub wrote : (Bytes → Disk → Disk × Bool) → Bytes → Disk × Option ℕ → Disk × Bool
wrote others s (d, none) = (d, false)
wrote others s (d, some zero) = (d, false)
wrote others s (d, some (suc n)) = others (drop (suc n) s) d

-- `write_all`; `length s < fuel` is enough fuel, since a round that goes on takes a byte.
unfoldable pub write_all : Os → Bytes → ℕ → Bytes → Disk → Disk × Bool
write_all os name zero s d = (d, false)
write_all os name (suc f) [] d = (d, true)
write_all os name (suc f) (c ∷ cs) d =
    wrote (write_all os name f) (c ∷ cs) (write os name (c ∷ cs) d)

abbrev pub moved : Bytes → Bytes → Option Bytes → Disk → Disk × Bool
moved from to none d = (d, false)
moved from to (some s) d = (put_file from none (put_file to (some s) d), true)

-- rename(2), which replaces what is under the new name.
unfoldable pub rename : Os → Bytes → Bytes → Disk → Disk × Bool
rename os from to d =
    if answers os d then moved from to (d.files from) (called d) else (called d, false)

abbrev pub cut : Bytes → ℕ → Option Bytes → Disk → Disk × Bool
cut name n none d = (d, false)
cut name n (some s) d = (put_file name (some (take n s)) d, true)

-- `std::filesystem::resize_file` to a length that the file has.
unfoldable pub resize : Os → Bytes → ℕ → Disk → Disk × Bool
resize os name n d =
    if answers os d then cut name n (d.files name) (called d) else (called d, false)

abbrev pub is_there : Option Bytes → Bool
is_there none = false
is_there (some _) = true

-- `std::filesystem::exists`; nothing if it cannot be told.
unfoldable pub exists : Os → Bytes → Disk → Disk × Option Bool
exists os name d =
    if answers os d then (called d, some (is_there (d.files name))) else (called d, none)

abbrev pub opened : Bool → Option Bytes → Option Bytes
opened false s = none
opened true s = s

-- The bytes that a `std::ifstream` on the file reads; nothing if it does not open.
unfoldable pub read_file : Os → Bytes → Disk → Disk × Option Bytes
read_file os name d = (called d, opened (answers os d) (d.files name))
