-- ===== src/Store/File/Disk/Only.antt =====
-- src/store/file_store.cpp: which file a system call changes, and what is in it then.
use fix_protocol.Prelude.{
  ◌≡◌, refl, Bool, true, false, Option, none, some, [], ◌++◌, Bytes, equal, equal_refl, not, min,
  if_each, length, take, arith, sym, ◌∙◌,
}
use fix_protocol.Store.File.Disk.{
  Os, Disk, put_file, called, create, remove, content, extend, write, moved, rename,
}

-- No file but the one under `name` changed.
abbrev pub Only : Bytes → Disk → Disk → Type 0
Only name d e = (k : Bytes) → equal k name ≡ false → e.files k ≡ d.files k

pub Only-trans : (name : Bytes) (d e f : Disk) → Only name d e → Only name e f → Only name d f
Only-trans name d e f h g k ne = g k ne ∙ h k ne

pub put_file-Only : (name : Bytes) (c : Option Bytes) (d : Disk) → Only name d (put_file name c d)
unfolding put_file
put_file-Only name c d k ne = rw ne

pub files-put_file :
    (name : Bytes) (c : Option Bytes) (d : Disk) → (put_file name c d).files name ≡ c
unfolding put_file
files-put_file name c d = rw (equal_refl name)

pub create-Only : (os : Os) (name : Bytes) (d : Disk) → Only name d (create os name d).0
unfolding create
create-Only os name d k ne = ground (arith, put_file-Only name (some []) (called d) k ne)

pub create-empty :
    (os : Os) (name : Bytes) (d : Disk)
    → (create os name d).1 ≡ true
    → (create os name d).0.files name ≡ some []
unfolding create
create-empty os name d = ground (arith, files-put_file name (some []) (called d))

pub remove-Only : (os : Os) (name : Bytes) (d : Disk) → Only name d (remove os name d)
unfolding remove
remove-Only os name d k ne = ground (arith, put_file-Only name none (called d) k ne)

pub write-Only : (os : Os) (name s : Bytes) (d : Disk) → Only name d (write os name s d).0
unfolding write extend
write-Only os name s d k ne =
    let n = min (os.written d.calls (length s)) (length s) in
    ground (arith, put_file-Only name (some (content (d.files name) ++ take n s)) (called d) k ne)

-- A rename either moves the file whole or changes nothing.
pub record Renames (from to : Bytes) (d : Disk) (r : Disk × Bool) : Type 0 where
  pub done : r.1 ≡ true → r.0.files to ≡ d.files from
  pub refused : r.1 ≡ false → r.0.files ≡ d.files
  pub others : (k : Bytes) → equal k from ≡ false → equal k to ≡ false → r.0.files k ≡ d.files k

moved-Renames :
    (from to : Bytes) (o : Option Bytes) (d : Disk)
    → equal to from ≡ false
    → d.files from ≡ o
    → Renames from to d (moved from to o d)
moved-Renames from to none d ne e = record {
  done = λ h. cc;
  refused = λ h. refl;
  others = λ k a b. refl;
}
moved-Renames from to (some s) d ne e =
    let there = put_file to (some s) d in
    record {
      done = λ h. put_file-Only from none there to ne ∙ files-put_file to (some s) d ∙ sym e;
      refused = λ h. cc;
      others = λ k a b. put_file-Only from none there k a ∙ put_file-Only to (some s) d k b;
    }

pub rename-Renames :
    (os : Os) (from to : Bytes) (d : Disk)
    → equal to from ≡ false
    → Renames from to d (rename os from to d)
unfolding rename
rename-Renames os from to d ne =
    if_each (Renames from to d) (not (os.fails d.calls)) (moved from to (d.files from) (called d))
      (called d, false)
      (λ _.
        let m = moved-Renames from to (d.files from) (called d) ne refl in
        record { done = m.done; refused = m.refused; others = m.others })
      (λ _. record { done = λ h. cc; refused = λ h. refl; others = λ k a b. refl })
