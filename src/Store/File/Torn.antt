-- ===== src/Store/File/Torn.antt =====
-- src/store/file_store.cpp, `store_outbound`: what it leaves in the log, also if it is cut short.
use fix_protocol.Prelude.{
  ℕ, suc, ◌<◌, ◌≡◌, refl, ◌⊎◌, inl, inr, Bool, true, false, not, ◌||◌, Option, some, List, [], ◌∷◌,
  ◌++◌, Bytes, arith, if◌then◌else◌, if_each, ◌≢◌, Bool-cases, ltb, length, take, take_all,
  take-append_le, All, All-append, All-take, sym, ap, ◌∙◌, subst, append-nil,
}
use fix_protocol.Core.Types.{Result, ok, Done}
use fix_protocol.Store.SortedMap.{Entry, entry}
use fix_protocol.Store.File.Disk.{Os, Disk, write_all}
use fix_protocol.Store.File.Disk.Written.{Partial, write_all-Partial}
use fix_protocol.Store.File.Sequences.{newline}
use fix_protocol.Store.File.Log.{record_text}
use fix_protocol.Store.File.Log.Lines.{
  IsLine, IsStorable, line_of, line_of-IsLine, record_text-line_of, length-record_text, log_text,
}
use fix_protocol.Store.File.State.{FileStore, out_file, fails}
use fix_protocol.Store.File.Frames.{maybe_fsync, append, appended, indexed, store_outbound}
use fix_protocol.Store.File.Mirror.{maybe_fsync-Synced, log_text-concat}

-- A log file with records, and behind them what a write that was cut short left.
pub record Leaves (file : Option Bytes) (es : List Entry) : Type 0 where
  pub storable : All IsStorable es
  pub torn : Bytes
  pub short : IsLine torn
  pub there : file ≡ some (log_text es ++ torn)

-- One more record or not.
abbrev pub LeavesOne : Option Bytes → List Entry → Entry → Type 0
LeavesOne file es e = Leaves file es ⊎ Leaves file (es ++ e ∷ [])

module _ (n : ℕ) (raw : Bytes) (storable : IsStorable (entry n raw)) (es : List Entry)
    (all : All IsStorable es) where
  take-record_text : (k : ℕ) → k < length (record_text n raw) → IsLine (take k (record_text n raw))
  take-record_text k lt =
      let line = line_of n raw in
      let whole : record_text n raw ≡ line ++ newline ∷ [] =
        sym (append-nil (record_text n raw)) ∙ record_text-line_of n raw [] in
      subst (λ t. IsLine (take k t)) (sym whole)
        (subst IsLine
          (sym (take-append_le k line (newline ∷ []) (omega (arith, length-record_text n raw, lt))))
          (All-take (λ c. c ≢ newline) k line (line_of-IsLine n raw storable.2)))

  full-Leaves :
      (file : Option Bytes)
      → file ≡ some (log_text es ++ record_text n raw)
      → Leaves file (es ++ entry n raw ∷ [])
  full-Leaves file e = record {
    storable = All-append IsStorable es (entry n raw ∷ []) all (storable, tt);
    torn = [];
    short = tt;
    there =
        e
        ∙ ap some (
            sym (log_text-concat es (entry n raw))
            ∙ sym (append-nil (log_text (es ++ entry n raw ∷ []))));
  }

  Partial-Leaves :
      (name : Bytes) (r : Disk × Bool)
      → Partial name (log_text es) (record_text n raw) r
      → LeavesOne (r.0.files name) es (entry n raw)
  Partial-Leaves name r p =
      let text = record_text n raw in
      elim (Bool-cases (ltb p.count (length text))) [
        | inl part ↦ inl (record {
          storable = all;
          torn = take p.count text;
          short = take-record_text p.count (ground (arith, part));
          there = p.left;
        })
        | inr whole ↦ inr (
            full-Leaves (r.0.files name) (
              p.left
              ∙ ap (λ t. some (log_text es ++ t)) (take_all p.count text (ground (arith, whole)))))
      ]

  -- The operation leaves such a log.
  abbrev pub After : FileStore → FileStore × Result Done → Type 0
  After s r =
      (r.0.prefix ≡ s.prefix) × LeavesOne (r.0.disk.files (out_file s.prefix)) es (entry n raw)

  indexed-After :
      (s : FileStore) (pos : ℕ) (r : FileStore × Bool)
      → After s (r.0, ok tt)
      → After s (indexed n pos r)
  indexed-After s pos (t, true) h = h
  indexed-After s pos (t, false) h = h

  pub store_outbound-After :
      (os : Os) (s : FileStore)
      → s.disk.files (out_file s.prefix) ≡ some (log_text es)
      → After s (store_outbound os n raw s)
  unfolding store_outbound append
  store_outbound-After os s there =
      let name = out_file s.prefix in
      let text = record_text n raw in
      let w = write_all os name (suc (length text)) text s.disk in
      let st = appended name s.out_stream w in
      let t = record s { disk = w.0; out_stream = st } in
      let kept = indexed n s.out_stream.place (maybe_fsync os t) in
      let synced = maybe_fsync-Synced os t in
      let left = Partial-Leaves name w (
        write_all-Partial name os (suc (length text)) (log_text es) text s.disk (omega arith)
          there) in
      if_each (After s) (s.closed || not s.out_stream.is_open || not s.out_stream.good) (fails s)
        (if not st.good then fails t else kept)
        (λ _. (
          refl,
          inl (record {
            storable = all;
            torn = [];
            short = tt;
            there = there ∙ ap some (sym (append-nil (log_text es)));
          }),
        ))
        λ _.
          if_each (After s) (not st.good) (fails t) kept (λ _. (refl, left))
            λ _. indexed-After s s.out_stream.place (maybe_fsync os t) (
              synced.same_prefix,
              subst (λ f. LeavesOne (f name) es (entry n raw)) (sym synced.same_files) left,
            )
