-- ===== src/Store/File/Sequences/Crash.antt =====
-- src/store/file_store.cpp: what a start reads after `persist_seqs` was cut short.
use fix_protocol.Prelude.{
  ℕ, ◌+◌, ◌^◌, ◌<◌, ◌≤◌, ◌≡◌, refl, ◌⊎◌, inl, inr, false, Option, none, some, Bytes, ap, ◌∙◌, sym,
}
use fix_protocol.Core.Types.{Result, ok}
use fix_protocol.Store.{Fails}
use fix_protocol.Store.File.Disk.{Os, Disk, exists, read_file}
use fix_protocol.Store.File.Sequences.{
  Numbers, parse_seqs, validated, if_there, load_seqs, persist_seqs,
}
use fix_protocol.Store.File.Sequences.Text.{parse_seqs-seqs_text}
use fix_protocol.Store.File.Sequences.Atomic.{persist_seqs-Persists}

-- No call fails.
abbrev pub Calm : Os → Type 0
Calm os = (k : ℕ) → os.fails k ≡ false

-- The numbers that a file stands for.
abbrev pub numbers_in : Option Bytes → Result Numbers
numbers_in none = ok (1, 1)
numbers_in (some text) = validated (parse_seqs text)

if_there-numbers_in :
    (os : Os) (name : Bytes) (d e : Disk) (o : Option Bytes)
    → Calm os
    → d.files name ≡ o
    → (if_there os name (exists os name d)).1 ≡ numbers_in o
unfolding exists read_file
if_there-numbers_in os name d e none calm h = rw (calm d.calls, h) refl
if_there-numbers_in os name d e (some text) calm h =
    rw (calm d.calls, h) (rw (calm (d.calls + 1), h) refl)

pub load_seqs-numbers_in :
    (os : Os) (name : Bytes) (d : Disk)
    → Calm os
    → (load_seqs os name d).1 ≡ numbers_in (d.files name)
unfolding load_seqs
load_seqs-numbers_in os name d calm = if_there-numbers_in os name d d (d.files name) calm refl

-- Whichever calls of `persist_seqs` fail, and whenever the process is killed in it, the next start
-- whose own calls succeed reads the new numbers, which are from 1 on and below 2^64, and then success was or would have been reported,
-- or what it would have read before.
pub load_seqs-persist_seqs :
    (os next : Os) (name : Bytes) (s t : ℕ) (d : Disk)
    → Calm next
    → 1 ≤ s
    → s < 2 ^ 64
    → 1 ≤ t
    → t < 2 ^ 64
    → let r = persist_seqs os name (s, t) d in
      (r.1 ≡ ok tt) × ((load_seqs next name r.0).1 ≡ ok (s, t))
      ⊎ Fails r.1 × ((load_seqs next name r.0).1 ≡ (load_seqs next name d).1)
load_seqs-persist_seqs os next name s t d calm ps ls pt lt =
    let r = persist_seqs os name (s, t) d in
    let read = λ (e : Disk). load_seqs-numbers_in next name e calm in
    elim (persist_seqs-Persists os name (s, t) d).outcome [
      | inl (done, full) ↦ inl (
        done,
        read r.0 ∙ ap numbers_in full ∙ ap validated (parse_seqs-seqs_text s t ps ls pt lt),
      )
      | inr (failed, same) ↦ inr (failed, read r.0 ∙ ap numbers_in same ∙ sym (read d))
    ]
