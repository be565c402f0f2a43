-- ===== src/Audit/File.antt =====
-- src/log/message_log.cpp: the lines of the audit log, its rotation and its retention.
use fix_protocol.Prelude.{
  ℕ, zero, suc, ◌+◌, ◌*◌, ◌%◌, ◌^◌, Bool, true, false, not, ◌&&◌, Option, none, some, List, [], ◌∷◌,
  ◌++◌, Bytes, codes, equal, if◌then◌else◌, ltb, leb, ◌==◌, length, ℤ, pos, negsuc, map,
}
use fix_protocol.Prelude.Decimal.{to_decimal}
use fix_protocol.Core.Message.{soh}

-- Times are in milliseconds.
pub record AuditEntry : Type 0 where
  pub timestamp : ℕ
  pub session_id : Bytes
  pub outbound : Bool
  pub raw : Bytes

pub record Config : Type 0 where
  pub base_name : Bytes
  pub max_size : ℕ
  pub retain_days : ℤ
  pub max_queue : ℕ

-- A file of the log directory: whether it is seen to be a regular one, when it was last written, if
-- that can be told, and whether it can be removed.
pub record DirFile : Type 0 where
  pub name : Bytes
  pub is_regular : Bool
  pub written_at : Option ℕ
  pub is_removable : Bool

-- What the system answers while an operation runs: the time, the texts of times, whether the stream
-- takes a line, whether a file opens, for which files it cannot be told whether they are there, and
-- how many steps the walk through the directory makes, if it starts.
pub record Outside : Type 0 where
  pub now : ℕ
  pub file_time : ℕ
  pub stamp : ℕ → Bytes
  pub utc_text : ℕ → Bytes
  pub takes : Bool
  pub opens : Bool
  pub is_hidden : Bytes → Bool
  pub steps : Option ℕ

-- What was done to the files, the last one first.
pub data Effect : Type 0 where
  opened removed : Bytes → Effect
  appended : Option Bytes → AuditEntry → Effect
  rejected unopened : AuditEntry → Effect
  flushed closed : Effect

-- What `file_mutex_` guards, and the counters.
pub record AuditFile : Type 0 where
  pub config : Config
  pub is_open : Bool
  pub current_path : Option Bytes
  pub current_size : ℕ
  pub directory : List DirFile
  pub dropped : ℕ
  pub write_errors : ℕ
  pub trace : List Effect

abbrev pub count : ℕ → ℕ
count n = (n + 1) % 2 ^ 64

-- SOH is shown as a bar.
abbrev pub shown : ℕ → ℕ
shown c = if c == soh then b'|' else c

unfoldable pub line_of : Outside → AuditEntry → Bytes
line_of env e =
    env.utc_text e.timestamp
    ++ (b' '
        ∷ ((if e.outbound then codes "OUT " else codes "IN  ")
            ++ (e.session_id ++ (b' ' ∷ (map shown e.raw ++ 10 ∷ [])))))

-- The name of the n-th try.
abbrev pub file_name : Bytes → ℕ → Bytes
file_name stem zero = stem ++ codes ".log"
file_name stem (suc n) = stem ++ (b'_' ∷ (to_decimal (suc n) ++ codes ".log"))

unfoldable pub has_file : Bytes → List DirFile → Bool
has_file name [] = false
has_file name (f ∷ fs) = if equal f.name name then true else has_file name fs

-- The test of the loop over names: `std::filesystem::exists` with an error code, so false both for a
-- file that is not there and for one of which it cannot be told.
abbrev pub exists : Outside → List DirFile → Bytes → Bool
exists env fs name = not (env.is_hidden name) && has_file name fs

-- The loop over the names that are taken; after `left` more tries it is given up.
unfoldable pub free_name : Outside → List DirFile → Bytes → ℕ → ℕ → Bytes
free_name env fs stem zero n = file_name stem n
free_name env fs stem (suc left) n = elim (exists env fs (file_name stem n)) [
  | true ↦ free_name env fs stem left (n + 1)
  | false ↦ file_name stem n
]

-- A file that was opened is there from now on.
abbrev pub with_file : Outside → Bytes → List DirFile → List DirFile
with_file env name fs =
    if has_file name fs
    then fs
    else record {
      name = name;
      is_regular = true;
      written_at = some env.file_time;
      is_removable = true;
    }
      ∷ fs

abbrev pub max_tries : ℕ
max_tries = 1000001

abbrev pub stem_of : Outside → Config → ℕ → Bytes
stem_of env c when = c.base_name ++ (b'_' ∷ env.stamp when)

unfoldable pub open_file : Outside → ℕ → AuditFile → AuditFile
open_file env when s =
    let path = free_name env s.directory (stem_of env s.config when) max_tries 0 in
    if env.opens
    then record s {
      is_open = true;
      current_path = some path;
      current_size = 0;
      directory = with_file env path s.directory;
      trace = opened path ∷ s.trace;
    }
    else record s { is_open = false; current_path = none; current_size = 0 }

unfoldable pub starts_with : Bytes → Bytes → Bool
starts_with [] name = true
starts_with (c ∷ cs) [] = false
starts_with (c ∷ cs) (d ∷ name) = c == d && starts_with cs name

-- The extension of a name that does not start with a dot.
unfoldable pub ends_with_log : Bytes → Bool
ends_with_log [] = false
ends_with_log (c ∷ cs) = if equal (c ∷ cs) (codes ".log") then true else ends_with_log cs

abbrev pub is_current : Option Bytes → Bytes → Bool
is_current none name = false
is_current (some path) name = equal path name

-- Last written before the cutoff.
abbrev pub is_stale : ℕ → ℕ → Option ℕ → Bool
is_stale time days none = false
is_stale time days (some m) = ltb (m + 86400000 * days) time

-- What the loop goes on to remove.
unfoldable pub expires : Config → Option Bytes → ℕ → ℕ → DirFile → Bool
expires c current time days f =
    f.is_regular
    && not (is_current current f.name)
    && starts_with (c.base_name ++ b'_' ∷ []) f.name
    && ends_with_log f.name
    && is_stale time days f.written_at

-- The loop over the directory: the files that stay and what was removed. A step of the iterator that
-- fails ends it.
unfoldable pub sweep :
    (DirFile → Bool) → ℕ → List DirFile → List Effect → List DirFile × List Effect
sweep old zero fs t = (fs, t)
sweep old (suc n) [] t = ([], t)
sweep old (suc n) (f ∷ fs) t = elim (old f && f.is_removable) [
  | true ↦ sweep old n fs (removed f.name ∷ t)
  | false ↦ let (rest, u) = sweep old n fs t in (f ∷ rest, u)
]

abbrev pub swept : Outside → ℕ → Option ℕ → AuditFile → AuditFile
swept env days none s = s
swept env days (some n) s =
    let (fs, t) =
      sweep (expires s.config s.current_path env.file_time days) n s.directory s.trace in
    record s { directory = fs; trace = t }

abbrev pub for_days : Outside → ℤ → AuditFile → AuditFile
for_days env (pos zero) s = s
for_days env (pos (suc n)) s = swept env (suc n) env.steps s
for_days env (negsuc _) s = s

unfoldable pub apply_retention : Outside → AuditFile → AuditFile
apply_retention env s = for_days env s.config.retain_days s

unfoldable pub close_current : AuditFile → AuditFile
close_current s = if s.is_open then record s { is_open = false; trace = closed ∷ s.trace } else s

unfoldable pub rotate_locked : Outside → ℕ → AuditFile → AuditFile
rotate_locked env when s =
    open_file env when (apply_retention env (record (close_current s) { current_path = none }))

-- The file behind a line that the stream took.
abbrev pub grown : Outside → ℕ → AuditFile → AuditFile
grown env size s =
    let t = record s { current_size = size } in
    if leb t.config.max_size size then rotate_locked env env.now t else t

unfoldable pub write_entry : Outside → AuditEntry → AuditFile → AuditFile
write_entry env e s =
    if not s.is_open
    then record s { dropped = count s.dropped; trace = unopened e ∷ s.trace }
    else if env.takes
    then grown env (s.current_size + length (line_of env e))
        (record s { trace = appended s.current_path e ∷ s.trace })
    else record s { write_errors = count s.write_errors; trace = rejected e ∷ s.trace }
