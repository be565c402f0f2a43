-- ===== src/Session/Resend/Coverage.antt =====
-- src/session/session.cpp, `handle_resend_request`: the frames of a replay cover the range.
use mathlib.Core.List.{Memᴰ}
use mathlib.Core.List.Memᴰ
use fix_protocol.Prelude.{
  inl, leb, ℕ, ◌+◌, ◌≤◌, ◌<◌, ◌≡◌, refl, Option, none, some, List, [], ◌∷◌, ◌++◌, Bytes, arith, ltb,
  if◌then◌else◌, append-nil, append_assoc, sym, ap, if_each, ◌∙◌, subst,
}
use fix_protocol.Core.Types.{ErrorCode, Result, ok, err}
use fix_protocol.Core.Message.{Message, msg_type}
use fix_protocol.Serializer.{Builder, try_serialize}
use fix_protocol.Store.SortedMap.{Entry, entry, Above, Ascending}
use fix_protocol.Session.{Session, Env}
use fix_protocol.Session.Sending.{envelope, emit_wire_locked}
use fix_protocol.Session.Sending.Wire.{wire_out, emit_wire_locked-Out}
use fix_protocol.Session.Resend.{
  gap_fill, Replay, is_admin_msg, filled, flush_gap, stored_message, retag, count_corrupt, resent,
  resend_app, replay_frame, replay_frames, replay_snapshot,
}
use fix_protocol.Session.Resend.Duplicate.{filler_to, gap_fill-fields, retag-IsDuplicate}
use fix_protocol.Session.Resend.GapFill.{Succeeds}
use fix_protocol.Session.Resend.Spec.{
  Original, corrupt, admin, unserializable, Gone, Covers, nothing, fills, resends, Replayed, Seen,
  Above-from, Above-Ascending, Seen-Gone, from_head, Seen-Lost, Seen-past,
}

module _ {S : Type 0} (env : Env S) (source : List Entry) (origin : Session S) where
  -- A replay from `a` that has reached the cursor of `r`.
  pub record Reached (a : ℕ) (r : Replay S) : Type 0 where
    pub frames : List Bytes
    pub out : wire_out r.1.effects ≡ wire_out origin.effects ++ frames
    pub covers : Covers env source origin a r.0 frames
    pub same_cfg : r.1.cfg ≡ origin.cfg

  envelope-origin :
      (n : ℕ) (s : Session S) → s.cfg ≡ origin.cfg → envelope env n s ≡ envelope env n origin
  envelope-origin n s e = ap (λ c. envelope env n (record origin { cfg = c })) e

  -- One more frame behind those that are out.
  emitted :
      (s : Session S) (ws : List Bytes) (w : Bytes)
      → wire_out s.effects ≡ wire_out origin.effects ++ ws
      → s.cfg ≡ origin.cfg
      → (wire_out (emit_wire_locked env w s).effects ≡ wire_out origin.effects ++ (ws ++ w ∷ []))
        × ((emit_wire_locked env w s).cfg ≡ origin.cfg)
  emitted s ws w e c =
      let o = emit_wire_locked-Out env w s in
      (o.0 ∙ ap (λ l. l ++ w ∷ []) e ∙ append_assoc (wire_out origin.effects) ws (w ∷ []), o.4 ∙ c)

  module _
      (fillable : (n c : ℕ) (p : Builder)
        → Succeeds (try_serialize (filler_to n) (envelope env c origin) p).1) where
    filled-Reached :
        (a n c : ℕ) (s : Session S) (x : Builder × Result Bytes)
        → Reached a (c, s)
        → c < n
        → Gone env source origin c n
        → (try_serialize (gap_fill n) (envelope env c origin) s.builder).1 ≡ x.1
        → Reached a (filled env n x (c, s)) × ((filled env n x (c, s)).0 ≡ n)
    filled-Reached a n c s (b, ok w) r lt gone made =
        let t = record s { builder = b } in
        let (out, cfg) = emitted t r.frames w r.out r.same_cfg in
        (
          record {
            frames = r.frames ++ w ∷ [];
            out = out;
            covers = fills n w s.builder r.covers lt gone (
                ap (λ m. (try_serialize m (envelope env c origin) s.builder).1)
                  (sym (gap_fill-fields n))
                ∙ made);
            same_cfg = cfg;
          },
          refl,
        )
    filled-Reached a n c s (b, err e) r lt gone made = absurd (
        subst Succeeds
          (ap (λ m. (try_serialize m (envelope env c origin) s.builder).1) (sym (gap_fill-fields n))
            ∙ made)
          (fillable n c s.builder))

    Cursor : ℕ → ℕ → Replay S → Type 0
    Cursor a n r = Reached a r × (r.0 ≡ n)

    flush_gap-Cursor :
        (a n : ℕ) (r : Replay S)
        → Reached a r
        → r.0 ≤ n
        → Gone env source origin r.0 n
        → Cursor a n (flush_gap env n r)
    unfolding flush_gap Cursor
    flush_gap-Cursor a n (c, s) r le gone =
        let x = try_serialize (gap_fill n) (envelope env c s) s.builder in
        if_each (λ (q : Replay S). Reached a q × (q.0 ≡ n)) (leb n c) (c, s) (filled env n x (c, s))
          (λ there. (r, ground (arith, there, le)))
          λ ahead. filled-Reached a n c s x r (ground (arith, ahead)) gone (
            ap (λ e. (try_serialize (gap_fill n) e s.builder).1)
              (sym (envelope-origin c s r.same_cfg)))

    -- Counting a corrupt frame, or another builder, changes nothing here.
    counted :
        (a c : ℕ) (s : Session S) (b : Builder)
        → Reached a (c, s)
        → Reached a (c, count_corrupt (record s { builder = b }))
    counted a c s b r = record {
      frames = r.frames;
      out = r.out;
      covers = r.covers;
      same_cfg = r.same_cfg;
    }

    resent-Cursor :
        (a n c : ℕ) (m : Message) (s : Session S) (x : Builder × Result Bytes)
        → Reached a (c, s)
        → c ≡ n
        → Original env source origin n m
        → ((e : ErrorCode)
            → (try_serialize (retag m) (envelope env n origin) s.builder).1 ≡ err e
            → Gone env source origin c (n + 1))
        → (try_serialize (retag m) (envelope env n origin) s.builder).1 ≡ x.1
        → Cursor a (n + 1) (resent env n x (c, s))
    unfolding Cursor
    resent-Cursor a n c m s (b, ok w) r e o gone made =
        let t = record s { builder = b } in
        let (out, cfg) = emitted t r.frames w r.out r.same_cfg in
        (
          record {
            frames = r.frames ++ w ∷ [];
            out = out;
            covers =
                subst (λ k. Covers env source origin a (k + 1) (r.frames ++ w ∷ [])) e
                  (resends m (retag m) w s.builder r.covers
                    (subst (λ k. Original env source origin k m) (sym e) o) (retag-IsDuplicate m)
                    (ap (λ k. (try_serialize (retag m) (envelope env k origin) s.builder).1) e
                      ∙ made));
            same_cfg = cfg;
          },
          refl,
        )
    resent-Cursor a n c m s (b, err f) r e o gone made =
        flush_gap-Cursor a (n + 1) (c, count_corrupt (record s { builder = b })) (counted a c s b r)
          (omega arith) (gone f made)

    resend_app-Cursor :
        (a n : ℕ) (m : Message) (r : Replay S)
        → Cursor a n r
        → Original env source origin n m
        → ((p : Builder) (e : ErrorCode)
            → (try_serialize (retag m) (envelope env n origin) p).1 ≡ err e
            → Gone env source origin n (n + 1))
        → Cursor a (n + 1) (resend_app env n m r)
    unfolding Cursor
    resend_app-Cursor a n m (c, s) (r, e) o gone =
        resent-Cursor a n c m s (try_serialize (retag m) (envelope env n s) s.builder) r e o
          (λ f h. subst (λ k. Gone env source origin k (n + 1)) (sym e) (gone s.builder f h))
          (ap (λ v. (try_serialize (retag m) v s.builder).1) (sym (envelope-origin n s r.same_cfg)))

    -- The cursor is at most at `n`, and the frames `rest` are left.
    Onto : ℕ → ℕ → List Entry → Replay S → Type 0
    Onto a n rest r = Reached a r × (r.0 ≤ n) × Seen env source origin r.0 rest

    replay_frame-Onto :
        (a n : ℕ) (wire : Bytes) (o : Option Message) (fs : List Entry) (r : Replay S)
        → Memᴰ (entry n wire) source
        → stored_message wire ≡ o
        → Above n fs
        → Onto a n (entry n wire ∷ fs) r
        → Onto a (n + 1) fs (replay_frame env n o r)
    unfolding replay_frame Onto Cursor
    replay_frame-Onto a n wire none fs (c, s) kept e above (r, le, seen) = (
      counted a c s s.builder r,
      omega arith,
      Seen-Lost env source origin c n wire fs (corrupt e) seen,
    )
    replay_frame-Onto a n wire (some m) fs (c, s) kept e above (r, le, seen) =
        let q = flush_gap env n (c, s) in
        if_each (λ (t : Replay S). Reached a t × (t.0 ≤ n + 1) × Seen env source origin t.0 fs)
          (is_admin_msg (msg_type m)) (c, s) (resend_app env n m q)
          (λ own. (r, omega arith, Seen-Lost env source origin c n wire fs (admin m e own) seen))
          λ application.
            let refused =
              λ (p : Builder) (f : ErrorCode)
                  (h : (try_serialize (retag m) (envelope env n origin) p).1 ≡ err f) (k : ℕ)
                  (v : Bytes) (member : Memᴰ (entry k v) source) (ge : n ≤ k) (lt : k < n + 1).
                Seen-Gone env source origin c (n + 1) fs
                  (Seen-Lost env source origin c n wire fs
                    (unserializable m (retag m) p f e (retag-IsDuplicate m) h) seen)
                  (Above-from env source origin n fs above) k v member (omega arith) lt in
            let (reached, there) =
              resend_app-Cursor a n m q
                (flush_gap-Cursor a n (c, s) r le
                  (Seen-Gone env source origin c n (entry n wire ∷ fs) seen
                    (from_head env source origin (entry n wire) fs above)))
                (record { wire = wire; kept = kept; parsed = e; application = application })
                refused in
            (
              reached,
              omega arith,
              Seen-past env source origin c (resend_app env n m q).0 (entry n wire) fs (omega arith)
                  (omega arith) seen,
            )

    -- The cursor is within the range, and nothing behind it can be sent again.
    Ends : ℕ → ℕ → Replay S → Type 0
    Ends a last r = Reached a r × (r.0 ≤ last + 1) × Gone env source origin r.0 (last + 1)

    replay_frames-Ends :
        (a last : ℕ) (fs : List Entry) (q : Replay S)
        → ((f : Entry) → Memᴰ f fs → Memᴰ f source)
        → Ascending fs
        → Onto a (last + 1) fs q
        → Ends a last (replay_frames env last fs q)
    unfolding replay_frames Ends Onto
    replay_frames-Ends a last [] q among asc (r, le, seen) =
        (r, le, Seen-Gone env source origin q.0 (last + 1) [] seen (λ f m. absurd (Memᴰ.not-nil m)))
    replay_frames-Ends a last (f ∷ fs) q among asc (r, le, seen) =
        let played = replay_frame env f.seq (stored_message f.value) q in
        let skip = replay_frames env last fs q in
        let play = replay_frames env last fs played in
        let beyond = ltb last f.seq in
        let rest = λ (g : Entry) (m : Memᴰ g fs). among g (Memᴰ.tail m) in
        let later = Above-Ascending env source origin f.seq fs asc in
        let P = λ (t : Replay S).
          Reached a t × (t.0 ≤ last + 1) × Gone env source origin t.0 (last + 1) in
        if_each P (ltb f.seq q.0) skip (if beyond then q else play)
          (λ behind. replay_frames-Ends a last fs q rest later (
            r,
            le,
            Seen-past env source origin q.0 q.0 f fs (ground (arith, behind)) (omega arith) seen,
          ))
          λ ahead.
            if_each P beyond q play
              (λ over. (
                r,
                le,
                Seen-Gone env source origin q.0 (last + 1) (f ∷ fs) seen (λ g m.
                    let x = from_head env source origin f fs asc g m in
                    let y : last < f.seq = ground (arith, over) in omega arith),
              ))
              λ inside.
                let (reached, below, left) =
                  replay_frame-Onto a f.seq f.value (stored_message f.value) fs q
                    (among f (Memᴰ.head refl)) refl asc (r, ground (arith, ahead), seen) in
                replay_frames-Ends a last fs played rest later
                  (reached, ground (arith, inside, below), left)

    start : (a : ℕ) → Reached a (a, origin)
    start a = record {
      frames = [];
      out = sym (append-nil (wire_out origin.effects));
      covers = nothing a;
      same_cfg = refl;
    }

    replayed-Cursor :
        (a last : ℕ)
        → Ascending source
        → a ≤ last + 1
        → Cursor a (last + 1) (flush_gap env (last + 1) (replay_frames env last source (a, origin)))
    unfolding Ends Onto
    replayed-Cursor a last asc le =
        let (reached, below, gone) =
          replay_frames-Ends a last source (a, origin) (λ f m. m) asc
            (start a, le, λ k wire m. inl m) in
        flush_gap-Cursor a (last + 1) (replay_frames env last source (a, origin)) reached below gone

  pub replay_snapshot-fillable :
      (fillable : (n c : ℕ) (p : Builder)
        → Succeeds (try_serialize (filler_to n) (envelope env c origin) p).1)
      (first last : ℕ)
      → Ascending source
      → first ≤ last
      → Replayed env source origin first last (replay_snapshot env first last (ok source) origin)
  unfolding Cursor
  replay_snapshot-fillable fillable first last asc le =
      let t = (flush_gap env (last + 1) (replay_frames env last source (first, origin))).1 in
      let (r, e) = replayed-Cursor fillable first last asc (omega arith) in
      if_each (Replayed env source origin first last) (ltb last first) origin t
        (λ h. absurd (let x : last < first = ground (arith, h) in omega arith))
        λ _. record {
          frames = r.frames;
          out = r.out;
          covers = subst (λ c. Covers env source origin first c r.frames) e r.covers;
        }
