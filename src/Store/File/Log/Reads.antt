-- ===== src/Store/File/Log/Reads.antt =====
-- src/store/file_store.cpp: an index into a log, as the map from numbers to frames it stands for.
use fix_protocol.Prelude.{
  ℕ, ◌+◌, ◌<◌, ◌≡◌, refl, List, [], ◌∷◌, ◌++◌, Bytes, arith, if◌then◌else◌, ltb, lt→ltb, leb,
  if_pair, All, ◌==◌, ==_false, length, length-append, length-drop, drop, drop_append,
  drop-append_le, append_assoc, append-nil, sym, ap, ◌∙◌, subst,
}
use fix_protocol.Store.SortedMap.{slot, Entry, assign, lower_bound, up_to, last_key}
use fix_protocol.Store.File.Sequences.{newline}
use fix_protocol.Store.File.Log.{record_text, Index, first_line, read_frames}
use fix_protocol.Store.File.Log.Lines.{
  IsLine, line_of, line_of-IsLine, split_bar-line_of, record_text-line_of, length-record_text,
  log_text, index_all,
}

-- The record of a frame stands at a place of the log.
pub record At (log : Bytes) (pos n : ℕ) (raw : Bytes) : Type 0 where
  pub line : IsLine raw
  pub rest : Bytes
  pub there : drop pos log ≡ record_text n raw ++ rest

At-within : (log : Bytes) (pos n : ℕ) (raw : Bytes) → At log pos n raw → pos < length log
At-within log pos n raw a = omega (
  arith,
  length-drop {0} pos log,
  ap length a.there,
  length-append {0} (record_text n raw) a.rest,
  length-record_text n raw,
)

At-append :
    (log more : Bytes) (pos n : ℕ) (raw : Bytes) → At log pos n raw → At (log ++ more) pos n raw
At-append log more pos n raw a = record {
  line = a.line;
  rest = a.rest ++ more;
  there =
      drop-append_le pos log more (omega (arith, At-within log pos n raw a))
      ∙ ap (λ l. l ++ more) a.there
      ∙ append_assoc (record_text n raw) a.rest more;
}

pub At-end :
    (log : Bytes) (n : ℕ) (raw : Bytes)
    → IsLine raw
    → At (log ++ record_text n raw) (length log) n raw
At-end log n raw h = record {
  line = h;
  rest = [];
  there =
      drop_append (length log) log (record_text n raw) refl ∙ sym (append-nil (record_text n raw));
}

first_line_lem : (line rest : Bytes) → IsLine line → first_line (line ++ (newline ∷ rest)) ≡ line
unfolding first_line
first_line_lem [] rest h = refl
first_line_lem (c ∷ line) rest h =
    rw (==_false c newline h.0) (ap (◌∷◌ c) (first_line_lem line rest h.1))

first_line-At :
    (log : Bytes) (pos n : ℕ) (raw : Bytes)
    → At log pos n raw
    → first_line (drop pos log) ≡ line_of n raw
first_line-At log pos n raw a =
    ap first_line (a.there ∙ record_text-line_of n raw a.rest)
    ∙ first_line_lem (line_of n raw) a.rest (line_of-IsLine n raw a.line)

-- The index leads to the frames of the map.
abbrev pub Reads : Bytes → Index → List Entry → Type 0
Reads log [] [] = Unit {0}
Reads log [] (e ∷ m) = ⊥
Reads log (i ∷ ix) [] = ⊥
Reads log (i ∷ ix) (e ∷ m) = (i.seq ≡ e.seq) × At log i.value e.seq e.value × Reads log ix m

pub Reads-append :
    (log more : Bytes) (ix : Index) (m : List Entry) → Reads log ix m → Reads (log ++ more) ix m
Reads-append log more [] [] h = tt
Reads-append log more [] (e ∷ m) h = absurd h
Reads-append log more (i ∷ ix) [] h = absurd h
Reads-append log more (i ∷ ix) (e ∷ m) h =
    (h.0, At-append log more i.value e.seq e.value h.1, Reads-append log more ix m h.2)

pub Reads-read_frames :
    (log : Bytes) (ix : Index) (m : List Entry) → Reads log ix m → read_frames log ix ≡ m
unfolding read_frames
Reads-read_frames log [] [] h = refl
Reads-read_frames log [] (e ∷ m) h = absurd h
Reads-read_frames log (i ∷ ix) [] h = absurd h
Reads-read_frames log (i ∷ ix) (e ∷ m) h =
    rw (lt→ltb i.value (length log) (At-within log i.value e.seq e.value h.1)) (
      rw (first_line-At log i.value e.seq e.value h.1) (
        rw (split_bar-line_of e.seq e.value)
          (rw h.0 (ap (◌∷◌ e) (Reads-read_frames log ix m h.2)))))

pub Reads-assign :
    (log : Bytes) (n pos : ℕ) (raw : Bytes) (ix : Index) (m : List Entry)
    → Reads log ix m
    → At log pos n raw
    → Reads log (assign n pos ix) (assign n raw m)
unfolding assign
Reads-assign log n pos raw [] [] h a = (refl, a, tt)
Reads-assign log n pos raw [] (e ∷ m) h a = absurd h
Reads-assign log n pos raw (i ∷ ix) [] h a = absurd h
Reads-assign log n pos raw (i ∷ ix) (e ∷ m) h a =
    let others = Reads-assign log n pos raw ix m h.2 a in
    rw h.0 (
      if_pair (Reads log) (ltb n e.seq) (slot n pos ∷ slot e.seq i.value ∷ ix)
        (if n == e.seq then slot n pos ∷ ix else slot e.seq i.value ∷ assign n pos ix)
        (slot n raw ∷ e ∷ m) (if n == e.seq then slot n raw ∷ m else e ∷ assign n raw m)
        (refl, a, (refl, h.1, h.2))
        (if_pair (Reads log) (n == e.seq) (slot n pos ∷ ix) (slot e.seq i.value ∷ assign n pos ix)
          (slot n raw ∷ m) (e ∷ assign n raw m) (refl, a, h.2) (refl, h.1, others)))

pub Reads-lower_bound :
    (log : Bytes) (n : ℕ) (ix : Index) (m : List Entry)
    → Reads log ix m
    → Reads log (lower_bound n ix) (lower_bound n m)
unfolding lower_bound
Reads-lower_bound log n [] [] h = tt
Reads-lower_bound log n [] (e ∷ m) h = absurd h
Reads-lower_bound log n (i ∷ ix) [] h = absurd h
Reads-lower_bound log n (i ∷ ix) (e ∷ m) h = rw h.0 (
    if_pair (Reads log) (ltb e.seq n) (lower_bound n ix) (slot e.seq i.value ∷ ix) (lower_bound n m)
      (e ∷ m) (Reads-lower_bound log n ix m h.2) (refl, h.1, h.2))

pub Reads-up_to :
    (log : Bytes) (n : ℕ) (ix : Index) (m : List Entry)
    → Reads log ix m
    → Reads log (up_to n ix) (up_to n m)
unfolding up_to
Reads-up_to log n [] [] h = tt
Reads-up_to log n [] (e ∷ m) h = absurd h
Reads-up_to log n (i ∷ ix) [] h = absurd h
Reads-up_to log n (i ∷ ix) (e ∷ m) h = rw h.0 (
    if_pair (Reads log) (leb e.seq n) (slot e.seq i.value ∷ up_to n ix) [] (e ∷ up_to n m) []
      (refl, h.1, Reads-up_to log n ix m h.2) tt)

pub Reads-last_key :
    (log : Bytes) (ix : Index) (m : List Entry) → Reads log ix m → last_key ix ≡ last_key m
unfolding last_key
Reads-last_key log [] [] h = refl
Reads-last_key log [] (e ∷ m) h = absurd h
Reads-last_key log (i ∷ ix) [] h = absurd h
Reads-last_key log (i ∷ []) (e ∷ []) h = h.0
Reads-last_key log (i ∷ []) (e ∷ f ∷ m) h = absurd h.2
Reads-last_key log (i ∷ j ∷ ix) (e ∷ []) h = absurd h.2
Reads-last_key log (i ∷ j ∷ ix) (e ∷ f ∷ m) h = Reads-last_key log (j ∷ ix) (f ∷ m) h.2

-- The map after frames were kept, one after another.
unfoldable pub assign_all : List Entry → List Entry → List Entry
assign_all [] m = m
assign_all (e ∷ es) m = assign_all es (assign e.seq e.value m)

-- The index of appended records leads to the frames that were kept.
pub Reads-index_all :
    (log : Bytes) (ix : Index) (m es : List Entry)
    → Reads log ix m
    → All (λ (e : Entry). IsLine e.value) es
    → Reads (log ++ log_text es) (index_all (length log) es ix) (assign_all es m)
unfolding log_text index_all assign_all
Reads-index_all log ix m [] h lines = Reads-append log [] ix m h
Reads-index_all log ix m (e ∷ es) h (line, lines) =
    let text = record_text e.seq e.value in
    let longer = log ++ text in
    let next =
      Reads-assign longer e.seq (length log) e.value ix m (Reads-append log text ix m h)
        (At-end log e.seq e.value line) in
    subst
      (λ l.
        Reads l (index_all (length log + length text) es (assign e.seq (length log) ix))
          (assign_all es (assign e.seq e.value m)))
      (append_assoc log text (log_text es))
      (subst
        (λ k.
          Reads (longer ++ log_text es) (index_all k es (assign e.seq (length log) ix))
            (assign_all es (assign e.seq e.value m)))
        (length-append log text)
        (Reads-index_all longer (assign e.seq (length log) ix) (assign e.seq e.value m) es next
          lines))
