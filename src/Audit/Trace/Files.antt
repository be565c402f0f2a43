-- ===== src/Audit/Trace/Files.antt =====
-- src/log/message_log.cpp: what the operations on the files of the audit log do to its entries.
use fix_protocol.Prelude.{
  ℕ, zero, suc, ◌≡◌, refl, Bool, true, false, not, ◌&&◌, Option, none, some, List, [], ◌∷◌, ◌++◌,
  Bytes, arith, if◌then◌else◌, if_each, if_both, Bool-cases, ◌+◌, leb, length, inl, inr, sym, ◌∙◌,
  append_assoc, append-nil, ℤ, pos, negsuc,
}
use fix_protocol.Audit.File.{
  Config, AuditEntry, Outside, DirFile, AuditFile, Effect, opened, removed, appended, rejected,
  unopened, flushed, closed, open_file, sweep, swept, for_days, apply_retention, close_current,
  rotate_locked, grown, write_entry, count, line_of, expires, free_name, stem_of, max_tries,
  with_file,
}
use fix_protocol.Audit.Writer.{flush_file, closed_file}
use fix_protocol.Audit.Trace.{handled, unflushed, Does, Does-nothing, Does-then}

-- Only removals were put on top.
Sweeps : List Effect → List Effect → Type 0
Sweeps t u =
    ((more : List Effect) × (u ≡ more ++ t)) × (handled u ≡ handled t) × (unflushed u ≡ unflushed t)

Sweeps-removed : (name : Bytes) (t u : List Effect) → Sweeps (removed name ∷ t) u → Sweeps t u
unfolding Sweeps handled unflushed
Sweeps-removed name t u ((more, e), h, k) =
    ((more ++ removed name ∷ [], e ∙ sym (append_assoc more (removed name ∷ []) t)), h, k)

sweep-Sweeps :
    (old : DirFile → Bool) (n : ℕ) (fs : List DirFile) (t : List Effect)
    → Sweeps t (sweep old n fs t).1
unfolding sweep Sweeps
sweep-Sweeps old zero fs t = (([], refl), refl, refl)
sweep-Sweeps old (suc n) [] t = (([], refl), refl, refl)
sweep-Sweeps old (suc n) (f ∷ fs) t = elim (Bool-cases (old f && f.is_removable)) [
  | inl e ↦
      rw (e, sweep)
        (Sweeps-removed f.name t (sweep old n fs (removed f.name ∷ t)).1
          (sweep-Sweeps old n fs (removed f.name ∷ t)))
  | inr e ↦ rw (e, sweep) (sweep-Sweeps old n fs t)
]

swept-Does :
    (env : Outside) (days : ℕ) (o : Option ℕ) (s : AuditFile) → Does [] s (swept env days o s)
unfolding Sweeps
swept-Does env days none s = Does-nothing s
swept-Does env days (some n) s =
    let ((more, e), h, k) =
      sweep-Sweeps (expires s.config s.current_path env.file_time days) n s.directory s.trace in
    record {
      more = more;
      grows = e;
      handles = h ∙ sym (append-nil (handled s.trace));
      shut = λ g x. k ∙ g x;
    }

for_days-Does : (env : Outside) (z : ℤ) (s : AuditFile) → Does [] s (for_days env z s)
for_days-Does env (pos zero) s = Does-nothing s
for_days-Does env (pos (suc n)) s = swept-Does env (suc n) env.steps s
for_days-Does env (negsuc n) s = Does-nothing s

close_current-Does : (s : AuditFile) → Does [] s (close_current s)
unfolding close_current handled unflushed
close_current-Does s =
    if_both (Does [] s) s.is_open (record s { is_open = false; trace = closed ∷ s.trace }) s
      (record {
        more = closed ∷ [];
        grows = refl;
        handles = sym (append-nil (handled s.trace));
        shut = λ _ _. refl;
      })
      (Does-nothing s)

-- A file is opened only where none was open.
open_file-Does :
    (env : Outside) (when : ℕ) (s : AuditFile)
    → s.is_open ≡ false
    → Does [] s (open_file env when s)
unfolding open_file handled unflushed
open_file-Does env when s shut =
    let path = free_name env s.directory (stem_of env s.config when) max_tries 0 in
    if_both (Does [] s) env.opens
      (record s {
        is_open = true;
        current_path = some path;
        current_size = 0;
        directory = with_file env path s.directory;
        trace = opened path ∷ s.trace;
      })
      (record s { is_open = false; current_path = none; current_size = 0 })
      (record {
        more = opened path ∷ [];
        grows = refl;
        handles = sym (append-nil (handled s.trace));
        shut = λ _ e. cc;
      })
      (record {
        more = [];
        grows = refl;
        handles = sym (append-nil (handled s.trace));
        shut = λ h _. h shut;
      })

close_current-shut : (s : AuditFile) → (close_current s).is_open ≡ false
unfolding close_current
close_current-shut s =
    if_each (λ (t : AuditFile). t.is_open ≡ false) s.is_open
      (record s { is_open = false; trace = closed ∷ s.trace }) s (λ _. refl) (λ h. h)

swept-open :
    (env : Outside) (days : ℕ) (o : Option ℕ) (s : AuditFile)
    → (swept env days o s).is_open ≡ s.is_open
swept-open env days none s = refl
swept-open env days (some n) s = refl

for_days-open : (env : Outside) (z : ℤ) (s : AuditFile) → (for_days env z s).is_open ≡ s.is_open
for_days-open env (pos zero) s = refl
for_days-open env (pos (suc n)) s = swept-open env (suc n) env.steps s
for_days-open env (negsuc n) s = refl

pub rotate_locked-Does :
    (env : Outside) (when : ℕ) (s : AuditFile) → Does [] s (rotate_locked env when s)
unfolding rotate_locked apply_retention
rotate_locked-Does env when s =
    let c = close_current s in
    let t : AuditFile = record c { current_path = none } in
    let u = for_days env t.config.retain_days t in
    let shut : u.is_open ≡ false =
      for_days-open env t.config.retain_days t ∙ close_current-shut s in
    let first : Does [] s t =
      let d = close_current-Does s in
      record { more = d.more; grows = d.grows; handles = d.handles; shut = d.shut } in
    Does-then [] [] s t (open_file env when u) first (
      Does-then [] [] t u (open_file env when u) (for_days-Does env t.config.retain_days t)
        (open_file-Does env when u shut))

grown-Does : (env : Outside) (size : ℕ) (s : AuditFile) → Does [] s (grown env size s)
grown-Does env size s =
    let t : AuditFile = record s { current_size = size } in
    let same : Does [] s t =
      let d = Does-nothing s in
      record { more = d.more; grows = d.grows; handles = d.handles; shut = d.shut } in
    if_both (Does [] s) (leb t.config.max_size size) (rotate_locked env env.now t) t
      (Does-then [] [] s t (rotate_locked env env.now t) same (rotate_locked-Does env env.now t))
      same

-- Each entry is written, refused or without a file, and then it was handled.
pub write_entry-Does :
    (env : Outside) (e : AuditEntry) (s : AuditFile) → Does (e ∷ []) s (write_entry env e s)
unfolding write_entry handled unflushed
write_entry-Does env e s =
    let lost : AuditFile = record s { dropped = count s.dropped; trace = unopened e ∷ s.trace } in
    let took : AuditFile = record s { trace = appended s.current_path e ∷ s.trace } in
    let size = s.current_size + length (line_of env e) in
    let failed : AuditFile = record s {
      write_errors = count s.write_errors;
      trace = rejected e ∷ s.trace;
    } in
    let P = Does (e ∷ []) s in
    if_each P (not s.is_open) lost (if env.takes then grown env size took else failed)
      (λ _. record { more = unopened e ∷ []; grows = refl; handles = refl; shut = λ h. h })
      λ is_open.
        if_both P env.takes (grown env size took) failed
          (Does-then (e ∷ []) [] s took (grown env size took)
            (record {
              more = appended s.current_path e ∷ [];
              grows = refl;
              handles = refl;
              shut = λ _ h. absurd (let x : ⊥ = ground (arith, is_open, h) in x);
            })
            (grown-Does env size took))
          (record { more = rejected e ∷ []; grows = refl; handles = refl; shut = λ h. h })

pub flush_file-Does : (s : AuditFile) → Does [] s (flush_file s)
unfolding flush_file handled unflushed
flush_file-Does s =
    if_both (Does [] s) s.is_open (record s { trace = flushed ∷ s.trace }) s
      (record {
        more = flushed ∷ [];
        grows = refl;
        handles = sym (append-nil (handled s.trace));
        shut = λ _ _. refl;
      })
      (Does-nothing s)

pub flush_file-clean :
    (s : AuditFile)
    → (s.is_open ≡ false → unflushed s.trace ≡ [])
    → unflushed (flush_file s).trace ≡ []
unfolding flush_file unflushed
flush_file-clean s shut =
    if_each (λ (t : AuditFile). unflushed t.trace ≡ []) s.is_open
      (record s { trace = flushed ∷ s.trace }) s (λ _. refl) shut

pub start-Does :
    (env : Outside) (c : Config) (fs : List DirFile)
    → Does [] (closed_file c fs) (open_file env env.now (apply_retention env (closed_file c fs)))
unfolding apply_retention
start-Does env c fs =
    let s = closed_file c fs in
    let t = for_days env c.retain_days s in
    Does-then [] [] s t (open_file env env.now t) (for_days-Does env c.retain_days s)
      (open_file-Does env env.now t (for_days-open env c.retain_days s))
