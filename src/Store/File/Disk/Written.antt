-- ===== src/Store/File/Disk/Written.antt =====
-- src/store/file_store.cpp, `write_all`: what it leaves in the file.
use fix_protocol.Prelude.{
  ℕ, zero, suc, ◌+◌, ◌<◌, ◌≤◌, ◌≡◌, refl, Bool, true, false, Option, none, some, [], ◌∷◌, ◌++◌,
  Bytes, not, min, if_each, length, length-drop, take, drop, take-append-drop, take-drop, ◌⊎◌, inl,
  inr, append_assoc, append-nil, arith, sym, ap, ◌∙◌,
}
use fix_protocol.Store.File.Disk.{
  Os, Disk, put_file, called, content, extend, write, wrote, write_all,
}
use fix_protocol.Store.File.Disk.Only.{Only, Only-trans, write-Only, files-put_file}

module _ (name : Bytes) where
  -- What a write took is behind what the file had.
  Took : Bytes → Bytes → Disk × Option ℕ → Type 0
  Took old s (e, none) = e.files name ≡ some old
  Took old s (e, some n) = e.files name ≡ some (old ++ take n s)

  write-Took :
      (os : Os) (old s : Bytes) (d : Disk)
      → d.files name ≡ some old
      → Took old s (write os name s d)
  unfolding write extend Took
  write-Took os old s d e =
      let n = min (os.written d.calls (length s)) (length s) in
      let next = some (content (d.files name) ++ take n s) in
      if_each (Took old s) (not (os.fails d.calls)) (put_file name next (called d), some n)
        (called d, none)
        (λ _. files-put_file name next (called d) ∙ ap (λ c. some (content c ++ take n s)) e)
        (λ _. e)

  -- If all is reported to be written, it is behind what the file had.
  abbrev pub Complete : (Bytes → Disk → Disk × Bool) → Type 0
  Complete others =
      (old s : Bytes) (d : Disk)
      → d.files name ≡ some old
      → (others s d).1 ≡ true
      → (others s d).0.files name ≡ some (old ++ s)

  wrote-Complete :
      (others : Bytes → Disk → Disk × Bool) (old s : Bytes) (r : Disk × Option ℕ)
      → Complete others
      → Took old s r
      → (wrote others s r).1 ≡ true
      → (wrote others s r).0.files name ≡ some (old ++ s)
  unfolding Took
  wrote-Complete others old s (d, none) h took done = cc
  wrote-Complete others old s (d, some zero) h took done = cc
  wrote-Complete others old s (d, some (suc n)) h took done =
      h (old ++ take (suc n) s) (drop (suc n) s) d took done
      ∙ ap some (
          append_assoc old (take (suc n) s) (drop (suc n) s)
          ∙ ap (λ l. old ++ l) (take-append-drop (suc n) s))

  pub write_all-Complete : (os : Os) (f : ℕ) → Complete (write_all os name f)
  unfolding write_all
  write_all-Complete os zero old s d e done = cc
  write_all-Complete os (suc f) old [] d e done = e ∙ ap some (sym (append-nil old))
  write_all-Complete os (suc f) old (c ∷ cs) d e done =
      wrote-Complete (write_all os name f) old (c ∷ cs) (write os name (c ∷ cs) d)
        (write_all-Complete os f) (write-Took os old (c ∷ cs) d e) done

  wrote-Only :
      (others : Bytes → Disk → Disk × Bool) (s : Bytes) (d : Disk) (r : Disk × Option ℕ)
      → ((s : Bytes) (e : Disk) → Only name e (others s e).0)
      → Only name d r.0
      → Only name d (wrote others s r).0
  wrote-Only others s d (e, none) h o = o
  wrote-Only others s d (e, some zero) h o = o
  wrote-Only others s d (e, some (suc n)) h o =
      Only-trans name d e (others (drop (suc n) s) e).0 o (h (drop (suc n) s) e)

  pub write_all-Only :
      (os : Os) (f : ℕ) (s : Bytes) (d : Disk) → Only name d (write_all os name f s d).0
  unfolding write_all
  write_all-Only os zero s d = λ k ne. refl
  write_all-Only os (suc f) [] d = λ k ne. refl
  write_all-Only os (suc f) (c ∷ cs) d =
      wrote-Only (write_all os name f) (c ∷ cs) d (write os name (c ∷ cs) d) (write_all-Only os f)
        (write-Only os name (c ∷ cs) d)

  -- What was left: the first `count` bytes of `s`, not all of them if an error is reported.
  pub record Partial (old s : Bytes) (r : Disk × Bool) : Type 0 where
    pub count : ℕ
    pub within : count ≤ length s
    pub left : r.0.files name ≡ some (old ++ take count s)
    pub short : r.1 ≡ false → count < length s

  wrote-Partial :
      (others : Bytes → Disk → Disk × Bool) (old : Bytes) (c : ℕ) (cs : Bytes) (r : Disk × Option ℕ)
      → ((n : ℕ) (e : Disk)
          → e.files name ≡ some (old ++ take (suc n) (c ∷ cs))
          → Partial
              (old ++ take (suc n) (c ∷ cs))
              (drop (suc n) (c ∷ cs))
              (others (drop (suc n) (c ∷ cs)) e))
      → Took old (c ∷ cs) r
      → (r.1 ≡ none ⊎ ((n : ℕ) × (r.1 ≡ some n) × (n ≤ length (c ∷ cs))))
      → Partial old (c ∷ cs) (wrote others (c ∷ cs) r)
  unfolding Took
  wrote-Partial others old c cs (d, none) h took fits = record {
    count = 0;
    within = omega arith;
    left = took ∙ ap some (sym (append-nil old));
    short = λ _. omega arith;
  }
  wrote-Partial others old c cs (d, some zero) h took fits = record {
    count = 0;
    within = omega arith;
    left = took;
    short = λ _. omega arith;
  }
  wrote-Partial others old c cs (d, some (suc n)) h took (inl x) = cc
  wrote-Partial others old c cs (d, some (suc n)) h took (inr (k, e, le)) =
      let s = c ∷ cs in
      let p = h n d took in
      let same : suc n ≡ k = ground (arith, e) in
      let size = length-drop {0} (suc n) s in
      record {
        count = suc n + p.count;
        within = omega (arith, p.within, size, le, same);
        left =
            p.left
            ∙ ap some (
                append_assoc old (take (suc n) s) (take p.count (drop (suc n) s))
                ∙ ap (λ l. old ++ l) (take-drop (suc n) p.count s));
        short = λ f. let lt = p.short f in omega (arith, lt, size, le, same);
      }

  write-fits :
      (os : Os) (s : Bytes) (d : Disk)
      → let r = write os name s d in (r.1 ≡ none) ⊎ ((n : ℕ) × (r.1 ≡ some n) × (n ≤ length s))
  unfolding write
  write-fits os s d =
      let n = min (os.written d.calls (length s)) (length s) in
      if_each (λ (r : Disk × Option ℕ). (r.1 ≡ none) ⊎ ((n : ℕ) × (r.1 ≡ some n) × (n ≤ length s)))
        (not (os.fails d.calls)) (extend name (take n s) (called d), some n) (called d, none)
        (λ _. inr (n, refl, omega arith)) (λ _. inl refl)

  pub write_all-Partial :
      (os : Os) (f : ℕ) (old s : Bytes) (d : Disk)
      → length s < f
      → d.files name ≡ some old
      → Partial old s (write_all os name f s d)
  unfolding write_all
  write_all-Partial os zero old s d lt e = absurd (omega arith)
  write_all-Partial os (suc f) old [] d lt e = record {
    count = 0;
    within = omega arith;
    left = e ∙ ap some (sym (append-nil old));
    short = λ h. cc;
  }
  write_all-Partial os (suc f) old (c ∷ cs) d lt e =
      wrote-Partial (write_all os name f) old c cs (write os name (c ∷ cs) d)
        (λ n u h.
          write_all-Partial os f (old ++ take (suc n) (c ∷ cs)) (drop (suc n) (c ∷ cs)) u
            (omega (arith, length-drop {0} n cs, lt)) h)
        (write-Took os old (c ∷ cs) d e) (write-fits os (c ∷ cs) d)
