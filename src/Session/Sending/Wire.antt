-- ===== src/Session/Sending/Wire.antt =====
-- src/session/session.cpp: what goes to the transport, and what an audit entry and a report leave.
use fix_protocol.Prelude.{
  ℕ, ◌≡◌, refl, Bool, true, Option, none, some, List, [], ◌∷◌, ◌++◌, Bytes, codes, arith,
  append-nil, ap, if_each, ◌∙◌,
}
use fix_protocol.Session.{
  Session, Env, Effect, sent, audited, closed, logon, heartbeat_timeout, logout, sequence_gap,
  resend_request, delivered, peer_reject, reported, emit, report, report_thrown, audit_frame,
}
use fix_protocol.Session.Sending.{emit_wire_locked}

-- The bytes handed to the transport, in order.
unfoldable pub wire_out : List Effect → List Bytes
wire_out [] = []
wire_out (sent w ∷ es) = w ∷ wire_out es
wire_out (closed ∷ es) = wire_out es
wire_out (logon ∷ es) = wire_out es
wire_out (heartbeat_timeout ∷ es) = wire_out es
wire_out (audited _ _ ∷ es) = wire_out es
wire_out (logout _ ∷ es) = wire_out es
wire_out (sequence_gap _ _ ∷ es) = wire_out es
wire_out (resend_request _ _ ∷ es) = wire_out es
wire_out (delivered _ ∷ es) = wire_out es
wire_out (peer_reject _ _ ∷ es) = wire_out es
wire_out (reported _ ∷ es) = wire_out es

pub wire_out-append : (es ds : List Effect) → wire_out (es ++ ds) ≡ wire_out es ++ wire_out ds
unfolding wire_out
wire_out-append [] ds = refl
wire_out-append (sent w ∷ es) ds = ap (λ t. w ∷ t) (wire_out-append es ds)
wire_out-append (closed ∷ es) ds = wire_out-append es ds
wire_out-append (logon ∷ es) ds = wire_out-append es ds
wire_out-append (heartbeat_timeout ∷ es) ds = wire_out-append es ds
wire_out-append (audited _ _ ∷ es) ds = wire_out-append es ds
wire_out-append (logout _ ∷ es) ds = wire_out-append es ds
wire_out-append (sequence_gap _ _ ∷ es) ds = wire_out-append es ds
wire_out-append (resend_request _ _ ∷ es) ds = wire_out-append es ds
wire_out-append (delivered _ ∷ es) ds = wire_out-append es ds
wire_out-append (peer_reject _ _ ∷ es) ds = wire_out-append es ds
wire_out-append (reported _ ∷ es) ds = wire_out-append es ds

wire_out-sent :
    (es : List Effect) (w : Bytes) → wire_out (es ++ sent w ∷ []) ≡ wire_out es ++ w ∷ []
unfolding wire_out
wire_out-sent es w = wire_out-append es (sent w ∷ [])

wire_out-audited :
    (es : List Effect) (b : Bool) (w : Bytes) → wire_out (es ++ audited b w ∷ []) ≡ wire_out es
unfolding wire_out
wire_out-audited es b w = wire_out-append es (audited b w ∷ []) ∙ append-nil (wire_out es)

pub wire_out-reported :
    (es : List Effect) (w : Bytes) → wire_out (es ++ reported w ∷ []) ≡ wire_out es
unfolding wire_out
wire_out-reported es w = wire_out-append es (reported w ∷ []) ∙ append-nil (wire_out es)

-- An open gap, and the retries it has had.
abbrev pub gap : {S : Type 0} → Session S → Bool × ℕ × ℕ
gap s = (s.gap_open, s.gap_rr_attempts, s.gap_rr_last)

module _ {S : Type 0} where
  -- What an audit entry, and a report, leave as it was.
  abbrev pub Silent : Session S → Session S → Type 0
  Silent s t =
      (wire_out t.effects ≡ wire_out s.effects)
      × (t.store ≡ s.store)
      × (t.state ≡ s.state)
      × (gap t ≡ gap s)
      × (t.cfg ≡ s.cfg)

  pub report-Silent : (what : Bytes) (s : Session S) → Silent s (report what s)
  unfolding report
  report-Silent what s = (wire_out-reported s.effects what, refl, refl, refl, refl)

  report_thrown-Silent :
      (name : Bytes) (o : Option Bytes) (s : Session S) → Silent s (report_thrown name o s)
  report_thrown-Silent name none s = (refl, refl, refl, refl, refl)
  report_thrown-Silent name (some what) s = report-Silent (name ++ what) s

  Silent-trans : (s t u : Session S) → Silent s t → Silent t u → Silent s u
  Silent-trans s t u a b = ground (arith, a, b)

  -- One frame went out, and nothing else of these changed.
  abbrev pub Out : Bytes → Session S → Session S → Type 0
  Out w s t =
      (wire_out t.effects ≡ wire_out s.effects ++ w ∷ [])
      × (t.store ≡ s.store)
      × (t.state ≡ s.state)
      × (gap t ≡ gap s)
      × (t.cfg ≡ s.cfg)

module _ {S : Type 0} (env : Env S) where
  audit_frame-Silent : (b : Bool) (w : Bytes) (s : Session S) → Silent s (audit_frame env b w s)
  unfolding audit_frame
  audit_frame-Silent b w s =
      let t = emit (audited b w) s in
      let u = report_thrown (codes "audit log: entry dropped: ") (env.throws (audited b w)) t in
      if_each (Silent s) env.has_audit_log u s
        (λ _.
          Silent-trans s t u (wire_out-audited s.effects b w, refl, refl, refl, refl)
            (report_thrown-Silent (codes "audit log: entry dropped: ") (env.throws (audited b w))
              t))
        (λ _. (refl, refl, refl, refl, refl))

  pub emit_wire_locked-Out : (w : Bytes) (s : Session S) → Out w s (emit_wire_locked env w s)
  unfolding emit_wire_locked
  emit_wire_locked-Out w s =
      let a = audit_frame-Silent true w (emit (sent w) s) in
      (a.0 ∙ wire_out-sent s.effects w, a.1, a.2, a.3, a.4)
