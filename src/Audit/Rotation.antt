-- ===== src/Audit/Rotation.antt =====
-- src/log/message_log.cpp: which file a rotation opens, and which files the retention removes.
use mathlib.Core.List.{Memᴰ}
use mathlib.Core.List.Memᴰ
use fix_protocol.Prelude.{
  ℕ, zero, suc, ◌+◌, ◌*◌, ◌≤◌, ◌<◌, ◌≡◌, refl, ◌⊎◌, inl, inr, Bool, true, false, ◌&&◌, Option, none,
  some, List, [], ◌∷◌, ◌++◌, Bytes, arith, ◌==◌, sym, ap, ◌∙◌, Bool-cases, if_each, ltb→lt, ℤ, pos,
  negsuc,
}
use fix_protocol.Audit.File.{
  Config, DirFile, AuditFile, Outside, Effect, removed, file_name, exists, has_file, free_name,
  max_tries, stem_of, is_current, starts_with, ends_with_log, is_stale, expires, sweep,
  apply_retention, open_file, opened, with_file, swept, for_days,
}

le_cases : (n k : ℕ) → n ≤ k → (n ≡ k) ⊎ (n < k)
le_cases n k h = elim (Bool-cases (n == k)) [
  | inl e ↦ inl (ground (arith, e))
  | inr e ↦ inr (ground (arith, e, h))
]

-- A name that is not there, or all the names tried from the n-th are taken.
Frees : Outside → List DirFile → Bytes → ℕ → ℕ → Bytes → Type 0
Frees env fs stem left n name =
    (exists env fs name ≡ false)
    ⊎ ((k : ℕ) → n ≤ k → k < n + left → exists env fs (file_name stem k) ≡ true)

Frees-step :
    (env : Outside) (fs : List DirFile) (stem : Bytes) (left n : ℕ) (rest : Bytes) (b : Bool)
    → exists env fs (file_name stem n) ≡ b
    → Frees env fs stem left (n + 1) rest
    → Frees env fs stem (suc left) n (elim b [ true ↦ rest | false ↦ file_name stem n ])
unfolding Frees
Frees-step env fs stem left n rest false e h = inl e
Frees-step env fs stem left n rest true e (inl free) = inl free
Frees-step env fs stem left n rest true e (inr taken) = inr (λ k a b. elim (le_cases n k a) [
  | inl same ↦ ap (λ j. exists env fs (file_name stem j)) (sym same) ∙ e
  | inr less ↦ taken k (omega (arith, less)) (omega (arith, b))
])

free_name-Frees :
    (env : Outside) (fs : List DirFile) (stem : Bytes) (left n : ℕ)
    → Frees env fs stem left n (free_name env fs stem left n)
unfolding free_name Frees
free_name-Frees env fs stem zero n = inr (λ k a b. absurd (omega (arith, a, b)))
free_name-Frees env fs stem (suc left) n =
    Frees-step env fs stem left n (free_name env fs stem left (n + 1))
      (exists env fs (file_name stem n)) refl (free_name-Frees env fs stem left (n + 1))

-- A name that the test does not find is not in the directory, or hidden.
not_exists :
    (env : Outside) (fs : List DirFile) (name : Bytes) {A : Type 0}
    → exists env fs name ≡ false
    → (has_file name fs ≡ false) ⊎ (env.is_hidden name ≡ true) ⊎ A
not_exists env fs name h = elim (Bool-cases (env.is_hidden name)) [
  | inl hidden ↦ inr (inl hidden)
  | inr seen ↦ inl (ground (arith, h, seen))
]

-- A file that is opened was not in the directory before, unless the system could not tell whether it
-- is there, in which case the file may be one that is found and goes on, or each of the names with
-- the stamp, without a number and with the numbers from 1 to 1000000, was taken.
pub open_file-new :
    (env : Outside) (when : ℕ) (s : AuditFile) (path : Bytes)
    → (open_file env when s).current_path ≡ some path
    → (has_file path s.directory ≡ false)
      ⊎ (env.is_hidden path ≡ true)
      ⊎ ((k : ℕ)
          → k ≤ 1000000
          → has_file (file_name (stem_of env s.config when) k) s.directory ≡ true)
unfolding open_file Frees
open_file-new env when s path =
    let stem = stem_of env s.config when in
    let name = free_name env s.directory stem max_tries 0 in
    if_each
      (λ (t : AuditFile).
        t.current_path ≡ some path
        → (has_file path s.directory ≡ false)
          ⊎ (env.is_hidden path ≡ true)
          ⊎ ((k : ℕ) → k ≤ 1000000 → has_file (file_name stem k) s.directory ≡ true))
      env.opens
      (record s {
        is_open = true;
        current_path = some name;
        current_size = 0;
        directory = with_file env name s.directory;
        trace = opened name ∷ s.trace;
      })
      (record s { is_open = false; current_path = none; current_size = 0 })
      (λ _ h. elim (free_name-Frees env s.directory stem max_tries 0) [
        | inl free ↦
            not_exists env s.directory path
              (ap (exists env s.directory) (let x : path ≡ name = cc in x) ∙ free)
        | inr taken ↦ inr (
            inr (λ k b.
              let there = taken k (omega arith) (omega (arith, b)) in ground (arith, there)))
      ])
      (λ _ h. absurd (let x : ⊥ = cc in x))

-- A file that the retention may remove: a log of this name, last written more than `days` days ago,
-- and not the current one.
pub record IsExpired (c : Config) (current : Option Bytes) (time days : ℕ) (f : DirFile)
    : Type 0 where
  pub regular : f.is_regular ≡ true
  pub other : is_current current f.name ≡ false
  pub ours : starts_with (c.base_name ++ b'_' ∷ []) f.name ≡ true
  pub log : ends_with_log f.name ≡ true
  pub stale : (m : ℕ) × (f.written_at ≡ some m) × (m + 86400000 * days < time)

is_stale-stale :
    (time days : ℕ) (o : Option ℕ)
    → is_stale time days o ≡ true
    → (m : ℕ) × (o ≡ some m) × (m + 86400000 * days < time)
is_stale-stale time days none h = cc
is_stale-stale time days (some m) h = (m, refl, ltb→lt (m + 86400000 * days) time h)

expires-IsExpired :
    (c : Config) (current : Option Bytes) (time days : ℕ) (f : DirFile)
    → expires c current time days f ≡ true
    → IsExpired c current time days f
unfolding expires
expires-IsExpired c current time days f h = record {
  regular = ground (arith, h);
  other = ground (arith, h);
  ours = ground (arith, h);
  log = ground (arith, h);
  stale = is_stale-stale time days f.written_at (ground (arith, h));
}

sweep-keeps :
    (old : DirFile → Bool) (n : ℕ) (fs : List DirFile) (t : List Effect) (f : DirFile)
    → Memᴰ f fs
    → Memᴰ f (sweep old n fs t).0 ⊎ (old f ≡ true)
unfolding sweep
sweep-keeps old zero fs t f m = inl m
sweep-keeps old (suc n) [] t f m = inl m
sweep-keeps old (suc n) (g ∷ fs) t f m = elim (Bool-cases (old g && g.is_removable)) [
  | inl e ↦ elim (Memᴰ.cases_cons m) [
    | inl same ↦ inr (ap old same ∙ ground (arith, e))
    | inr rest ↦ rw (e, sweep) (sweep-keeps old n fs (removed g.name ∷ t) f rest)
  ]
  | inr e ↦ elim (Memᴰ.cases_cons m) [
    | inl same ↦ rw (e, sweep) (inl (Memᴰ.head same))
    | inr rest ↦
        rw (e, sweep)
          (elim (sweep-keeps old n fs t f rest) [
            | inl there ↦ inl (Memᴰ.tail there)
            | inr gone ↦ inr gone
          ])
  ]
]

-- A file that the retention was right to remove, by the configuration.
abbrev pub MayGo : Outside → AuditFile → DirFile → Type 0
MayGo env s f =
    (n : ℕ) × (1 ≤ n)
    × (s.config.retain_days ≡ pos n)
    × IsExpired s.config s.current_path env.file_time n f

swept-keeps :
    (env : Outside) (days : ℕ) (o : Option ℕ) (s : AuditFile) (f : DirFile)
    → Memᴰ f s.directory
    → Memᴰ f (swept env days o s).directory ⊎ IsExpired s.config s.current_path env.file_time days f
swept-keeps env days none s f m = inl m
swept-keeps env days (some n) s f m =
    elim (sweep-keeps (expires s.config s.current_path env.file_time days) n s.directory s.trace f
      m) [
        | inl there ↦ inl there
        | inr old ↦ inr (expires-IsExpired s.config s.current_path env.file_time days f old)
      ]

for_days-keeps :
    (env : Outside) (z : ℤ) (s : AuditFile) (f : DirFile)
    → s.config.retain_days ≡ z
    → Memᴰ f s.directory
    → Memᴰ f (for_days env z s).directory ⊎ MayGo env s f
for_days-keeps env (pos zero) s f e m = inl m
for_days-keeps env (negsuc n) s f e m = inl m
for_days-keeps env (pos (suc n)) s f e m = elim (swept-keeps env (suc n) env.steps s f m) [
  | inl there ↦ inl there
  | inr expired ↦ inr (suc n, omega arith, e, expired)
]

-- The retention removes a file only if it is a regular one, is not the current one, has the base name
-- and an underscore in front and the extension of a log, and was last written more than the configured
-- number of days ago, a number that is at least 1; every other file stays.
pub apply_retention-keeps :
    (env : Outside) (s : AuditFile) (f : DirFile)
    → Memᴰ f s.directory
    → Memᴰ f (apply_retention env s).directory ⊎ MayGo env s f
unfolding apply_retention
apply_retention-keeps env s f m = for_days-keeps env s.config.retain_days s f refl m
