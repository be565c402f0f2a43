-- ===== src/Serializer/Delivery.antt =====
-- A stream of serialized frames is delivered frame by frame, in order.
use fix_protocol.Prelude.{
  ℕ, zero, suc, ◌+◌, ◌^◌, ◌≤◌, ◌<◌, ◌≡◌, refl, true, false, List, [], ◌∷◌, ◌++◌, Bytes, arith,
  length, length-append, length-drop, drop, take_append, drop_append, drop-drop, take_all, All,
  append-nil, append_assoc, ◌∙◌, ap, sym, subst, map,
}
use fix_protocol.Core.Message.{Field, Message, has_invalid_wire_chars}
use fix_protocol.Parser.Frame.{Options, accept, verdict, finish_message, parse_frame, min_msg_len}
use fix_protocol.Parser.Stream.{
  StreamParser, buffered, base, message, deliver, apply_verdict, starts_frame, try_parse_one,
  drain_loop,
}
use fix_protocol.Serializer.{unsigned_frame, build}
use fix_protocol.Serializer.Fields.{IsSendable, collect}
use fix_protocol.Serializer.Render.{render}
use fix_protocol.Serializer.RoundTrip.{seeded, IsWithin, parse_frame-build}

-- A frame to send: its version and its fields.
pub record Frame : Type 0 where
  pub version : Bytes
  pub fields : List Field

unfoldable pub wire : Frame → Bytes
wire f = build f.version (render f.fields)

-- What a parser with these options can take.
pub record IsDeliverable (opts : Options) (f : Frame) : Type 0 where
  pub clean : has_invalid_wire_chars f.version ≡ false
  pub short : length f.version ≤ 61
  pub sendable : All IsSendable f.fields
  pub within : IsWithin opts (length (wire f))
  pub sized : length (wire f) < 2 ^ 63
  pub not_tiny : min_msg_len ≤ length (wire f)

-- The message that comes out: the version, the body length, and the fields, collected.
unfoldable pub received : Frame → Message
received f =
    finish_message (wire f) (length (wire f))
      (collect (seeded f.version (length (render f.fields))) f.fields)

module _ (p : StreamParser) (f : Frame) (rest : Bytes) (h : IsDeliverable p.opts f)
    (e : base p ≡ wire f ++ rest) where
  verdict-accept :
      verdict (parse_frame p.opts p.buf_cap (base p)) ≡ accept (length (wire f)) (received f)
  unfolding wire received finish_message
  verdict-accept =
      ap (λ t. verdict (parse_frame p.opts p.buf_cap t)) e
      ∙ ap verdict (
          parse_frame-build p.opts p.buf_cap f.version rest f.fields h.clean h.short h.sendable
            h.within h.sized)
      ∙ rw (
        take_append (length (wire f)) (wire f) rest refl,
        take_all (length (wire f)) (wire f) (omega arith),
      )

  buffered_all : buffered p ≡ length (wire f) + length rest
  buffered_all =
      omega (arith, length-drop p.read_pos p.buf, ap length e, length-append (wire f) rest)

  wire-starts_frame : starts_frame (base p) ≡ true
  unfolding wire build unsigned_frame
  wire-starts_frame = ap starts_frame e

  -- One step delivers the frame in front.
  step-deliver : try_parse_one p ≡ (deliver p (length (wire f)) (received f), message)
  unfolding try_parse_one apply_verdict
  step-deliver = ground (arith, buffered_all, wire-starts_frame, verdict-accept, h.not_tiny)

  base-deliver : base (deliver p (length (wire f)) (received f)) ≡ rest
  unfolding deliver
  base-deliver =
      sym (drop-drop p.read_pos (length (wire f)) p.buf)
      ∙ ap (drop (length (wire f))) e
      ∙ drop_append (length (wire f)) (wire f) rest refl

unfoldable pub wires : List Frame → Bytes
wires [] = []
wires (f ∷ fs) = wire f ++ wires fs

pub length-wires :
    (opts : Options) (fs : List Frame) → All (IsDeliverable opts) fs → length fs ≤ length (wires fs)
unfolding wires
length-wires opts [] h = omega arith
length-wires opts (f ∷ fs) h =
    omega (arith, h.0.not_tiny, length-append (wire f) (wires fs), length-wires opts fs h.1)

-- What a delivery of `fs` makes of `p`: the messages are pending, in order, and nothing is left.
pub record Delivered (p : StreamParser) (fs : List Frame) (q : StreamParser) : Type 0 where
  pub delivered : q.pending ≡ p.pending ++ map received fs
  pub empty : base q ≡ []
  pub healthy : q.healthy ≡ p.healthy
  pub same_opts : q.opts ≡ p.opts
  pub same_cap : q.buf_cap ≡ p.buf_cap

opts-deliver : (p : StreamParser) (n : ℕ) (m : Message) → (deliver p n m).opts ≡ p.opts
unfolding deliver
opts-deliver p n m = refl

deliver-Delivered :
    (p q : StreamParser) (f : Frame) (fs : List Frame) (n : ℕ)
    → Delivered (deliver p n (received f)) fs q
    → Delivered p (f ∷ fs) q
unfolding deliver
deliver-Delivered p q f fs n d = record {
  delivered = d.delivered ∙ append_assoc p.pending _ _;
  empty = d.empty;
  healthy = d.healthy;
  same_opts = d.same_opts;
  same_cap = d.same_cap;
}

drain_loop-message :
    (fuel : ℕ) (p q : StreamParser)
    → try_parse_one p ≡ (q, message)
    → drain_loop (suc fuel) p ≡ drain_loop fuel q
unfolding drain_loop
drain_loop-message fuel p q e = rw (drain_loop, ap (λ r. r.1) e) (ap (λ r. drain_loop fuel r.0) e)

pub drain_loop-idle : (fuel : ℕ) (p : StreamParser) → buffered p < 2 → drain_loop fuel p ≡ p
unfolding drain_loop try_parse_one
drain_loop-idle zero p h = refl
drain_loop-idle (suc fuel) p h = ground arith

pub idle-Delivered : (p : StreamParser) → base p ≡ [] → Delivered p [] p
idle-Delivered p e = record {
  delivered = sym (append-nil p.pending);
  empty = e;
  healthy = refl;
  same_opts = refl;
  same_cap = refl;
}

pub empty-buffered : (p : StreamParser) → base p ≡ [] → buffered p ≡ 0
empty-buffered p e = omega (arith, ap length e, length-drop p.read_pos p.buf)

-- Draining a backlog of deliverable frames, with fuel for one more round than there are frames,
-- makes their messages pending in order and leaves nothing buffered.
pub drain_loop-wires :
    (fs : List Frame) (fuel : ℕ) (p : StreamParser)
    → All (IsDeliverable p.opts) fs
    → base p ≡ wires fs
    → length fs < fuel
    → Delivered p fs (drain_loop fuel p)
unfolding wires
drain_loop-wires [] fuel p h e lt =
    subst (Delivered p []) (sym (drain_loop-idle fuel p (omega (arith, empty-buffered p e))))
      (idle-Delivered p e)
drain_loop-wires (f ∷ fs) zero p h e lt = absurd (omega arith)
drain_loop-wires (f ∷ fs) (suc fuel) p h e lt =
    let q = deliver p (length (wire f)) (received f) in
    subst (Delivered p (f ∷ fs))
      (sym (drain_loop-message fuel p q (step-deliver p f (wires fs) h.0 e)))
      (deliver-Delivered p _ f fs (length (wire f)) (
        drain_loop-wires fs fuel q
          (subst (λ o. All (IsDeliverable o) fs)
            (sym (opts-deliver p (length (wire f)) (received f))) h.1)
          (base-deliver p f (wires fs) h.0 e) (omega arith)))
