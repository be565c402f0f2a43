-- ===== src/Serializer/Batch.antt =====
-- `feed` of a batch of frames: an idle parser takes all of it, and every message comes out.
use fix_protocol.Prelude.{
  ℕ, suc, ◌+◌, ◌*◌, ◌≤◌, ◌<◌, ◌≡◌, refl, true, false, ◌⊎◌, inl, inr, List, [], ◌∷◌, Bytes, arith,
  ◌==◌, length, length-append, length-drop, take, drop, All, ap, sym, Bool-cases, subst, min,
  take_all, ◌∙◌,
}
use fix_protocol.Parser.Field.{size_limit}
use fix_protocol.Parser.Stream.{
  StreamParser, buffered, base, compact, append_bytes, drain, room, feed_loop, feed,
}
use fix_protocol.Serializer.Delivery.{
  Frame, wire, IsDeliverable, wires, length-wires, Delivered, drain_loop-idle, idle-Delivered,
  empty-buffered, drain_loop-wires,
}

-- `n` bytes fit an empty buffer.
abbrev pub HasRoom : StreamParser → ℕ → Type 0
HasRoom p n = (n < size_limit) × ((p.buf_cap ≡ 0) ⊎ (n ≤ p.buf_cap))

drain-empty : (p : StreamParser) → base p ≡ [] → drain p ≡ p
unfolding drain
drain-empty p e = drain_loop-idle (suc (buffered p)) p (omega (arith, empty-buffered p e))

compacted : StreamParser → StreamParser
compacted p = record p { buf = []; read_pos = 0 }

compact-empty : (p : StreamParser) → base p ≡ [] → compact p ≡ compacted p
unfolding compact compacted
compact-empty p e = elim (Bool-cases (p.read_pos == 0)) [
  | inl front ↦ ground (arith, e)
  | inr moved ↦ ground (arith, e)
]

feed_loop-step :
    (fuel : ℕ) (p q : StreamParser) (c : ℕ) (cs : Bytes)
    → compact (drain p) ≡ q
    → (room q (length (c ∷ cs)) == 0) ≡ false
    → let n = min (length (c ∷ cs)) (room q (length (c ∷ cs))) in
      feed_loop (suc fuel) p (c ∷ cs)
      ≡ feed_loop fuel (append_bytes q (take n (c ∷ cs))) (drop n (c ∷ cs))
unfolding feed_loop
feed_loop-step fuel p q c cs e h = rw (feed_loop, e, h) refl

length-zero : (s : Bytes) → length s ≡ 0 → s ≡ []
length-zero [] h = refl
length-zero (c ∷ s) h = absurd (omega arith)

drop_all : (n : ℕ) (s : Bytes) → length s ≤ n → drop n s ≡ []
drop_all n s h = length-zero (drop n s) (omega (arith, length-drop n s))

feed_loop-nil : (fuel : ℕ) (p : StreamParser) → feed_loop (suc fuel) p [] ≡ drain p
unfolding feed_loop
feed_loop-nil fuel p = refl

-- With room for all the bytes, one round of the loop appends them and drains.
feed_loop-room :
    (fuel : ℕ) (p : StreamParser) (c : ℕ) (cs : Bytes)
    → base p ≡ []
    → HasRoom p (length (c ∷ cs))
    → feed_loop (suc (suc fuel)) p (c ∷ cs) ≡ drain (append_bytes (compacted p) (c ∷ cs))
unfolding compacted
feed_loop-room fuel p c cs e h =
    let n = min (length (c ∷ cs)) (room (compacted p) (length (c ∷ cs))) in
    feed_loop-step (suc fuel) p (compacted p) c cs
      (ap compact (drain-empty p e) ∙ compact-empty p e) (ground (arith, h))
    ∙ rw (take_all n (c ∷ cs) (ground (arith, h)), drop_all n (c ∷ cs) (ground (arith, h)))
        (feed_loop-nil fuel (append_bytes (compacted p) (c ∷ cs)))

appended : StreamParser → Bytes → StreamParser
appended p bytes = record p { buf = bytes; read_pos = 0 }

append_bytes-compacted :
    (p : StreamParser) (bytes : Bytes)
    → length bytes < size_limit
    → append_bytes (compacted p) bytes ≡ appended p bytes
unfolding append_bytes compacted appended
append_bytes-compacted p bytes h = ground arith

feed-room :
    (p : StreamParser) (bytes : Bytes)
    → p.healthy ≡ true
    → base p ≡ []
    → 0 < length bytes
    → HasRoom p (length bytes)
    → feed p bytes ≡ drain (appended p bytes)
unfolding feed
feed-room p [] well e pos h = absurd (omega arith)
feed-room p (c ∷ cs) well e pos h =
    ground (arith, well)
    ∙ feed_loop-room (2 * length cs + 2) p c cs e h
    ∙ ap drain (append_bytes-compacted p (c ∷ cs) h.0)

appended-Delivered :
    (p q : StreamParser) (fs : List Frame) (bytes : Bytes)
    → Delivered (appended p bytes) fs q
    → Delivered p fs q
unfolding appended
appended-Delivered p q fs bytes d = record {
  delivered = d.delivered;
  empty = d.empty;
  healthy = d.healthy;
  same_opts = d.same_opts;
  same_cap = d.same_cap;
}

appended-wires :
    (p : StreamParser) (fs : List Frame)
    → All (IsDeliverable p.opts) fs
    → Delivered p fs (drain (appended p (wires fs)))
unfolding appended drain
appended-wires p fs h = appended-Delivered p _ fs (wires fs) (
    drain_loop-wires fs (suc (buffered (appended p (wires fs)))) (appended p (wires fs)) h refl
      (omega (arith, length-wires p.opts fs h)))

-- A batch of deliverable frames, fed in one piece to a healthy parser with nothing buffered, and
-- with room for them, makes their messages pending in order behind those that are, and leaves a
-- healthy parser with nothing buffered.
pub feed-wires :
    (p : StreamParser) (fs : List Frame)
    → p.healthy ≡ true
    → base p ≡ []
    → All (IsDeliverable p.opts) fs
    → HasRoom p (length (wires fs))
    → Delivered p fs (feed p (wires fs))
unfolding feed wires
feed-wires p [] well e h r = idle-Delivered p e
feed-wires p (f ∷ fs) well e h r =
    subst (Delivered p (f ∷ fs))
      (sym (
        feed-room p (wires (f ∷ fs)) well e
          (omega (
            arith,
            length-wires p.opts (f ∷ fs) h,
            h.0.not_tiny,
            length-append (wire f) (wires fs),
          ))
          r))
      (appended-wires p (f ∷ fs) h)
