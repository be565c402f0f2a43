-- ===== src/Session/Resend/Request.antt =====
-- src/session/session.cpp, `handle_resend_request`: the range that a request asks for.
use fix_protocol.Prelude.{
  ℕ, ◌≤◌, ◌<◌, ◌≡◌, refl, false, Option, none, some, List, [], Bytes, arith, pos, codes, ltb, leb,
  min, ◌-◌, ◌==◌, if◌then◌else◌, if_each, subst, sym, ap, ◌∙◌,
}
use fix_protocol.Core.Types.{ok}
use fix_protocol.Core.Tags
use fix_protocol.Core.Message.{Message, get_int, has_invalid_wire_chars}
use fix_protocol.Store.SortedMap.{Entry, Ascending}
use fix_protocol.Session.{
  Session, SessionConfig, Env, Effect, resend_request, guarded, report_thrown, report, emit,
}
use fix_protocol.Session.Resend.{
  end_or_zero, range_end, replay_snapshot, bad_request, resend_from, resend_with,
  handle_resend_request,
}
use fix_protocol.Session.Resend.Spec.{Replayed}
use fix_protocol.Session.Resend.Range.{replay_snapshot-Replayed}

report_thrown-cfg :
    {S : Type 0} (name : Bytes) (o : Option Bytes) (s : Session S)
    → (report_thrown name o s).cfg ≡ s.cfg
unfolding report
report_thrown-cfg name none s = refl
report_thrown-cfg name (some w) s = refl

guarded-cfg :
    {S : Type 0} (env : Env S) (e : Effect) (s : Session S) → (guarded env e s).cfg ≡ s.cfg
unfolding guarded
guarded-cfg env e s = report_thrown-cfg [] (env.throws e) (emit e s)

-- Up to what is asked for, if anything, and at most up to the last number sent.
abbrev pub answered_to : ℕ → ℕ → ℕ
answered_to last next = if last == 0 then next - 1 else min last (next - 1)

range_end-answered_to : (last next : ℕ) → range_end last next ≡ answered_to last next
range_end-answered_to last next = ground arith

answered_to-below : (last next : ℕ) → answered_to last next ≤ next
answered_to-below last next = ground arith

-- EndSeqNo, 0 if there is none.
abbrev pub asked_to : Message → ℕ
asked_to msg = end_or_zero (get_int msg Tags.end_seq_no)

-- The session once the application heard of the request.
abbrev pub heard : {S : Type 0} → Env S → Message → ℕ → Session S → Session S
heard env msg first s = guarded env (resend_request first (asked_to msg)) s

-- The last number that is answered for.
abbrev pub last_asked : {S : Type 0} → Env S → Message → ℕ → Session S → ℕ
last_asked env msg first s =
    answered_to (asked_to msg) (env.stores.next_sender_seq_num (heard env msg first s).store)

module _ {S : Type 0} (env : Env S) where
  resend_from-Replayed :
      (msg : Message) (first : ℕ) (frames : List Entry) (s : Session S)
      → has_invalid_wire_chars s.cfg.id.sender_comp_id ≡ false
      → has_invalid_wire_chars s.cfg.id.target_comp_id ≡ false
      → has_invalid_wire_chars env.timestamp ≡ false
      → Ascending frames
      → first ≤ last_asked env msg first s
      → env.stores.get_messages first (asked_to msg) (heard env msg first s).store ≡ ok frames
      → Replayed env frames
          (heard env msg first s)
          first
          (last_asked env msg first s)
          (resend_from env msg first (asked_to msg) s)
  resend_from-Replayed msg first frames s sender target time asc le read =
      let last = asked_to msg in
      let t = heard env msg first s in
      let next = env.stores.next_sender_seq_num t.store in
      let end = last_asked env msg first s in
      let same = guarded-cfg env (resend_request first last) s in
      let clean = λ (f : SessionConfig → Bytes) (h : has_invalid_wire_chars (f s.cfg) ≡ false).
        ap (λ c. has_invalid_wire_chars (f c)) same ∙ h in
      if_each (Replayed env frames t first end) (ltb next first)
        (bad_request env msg (codes "BeginSeqNo > NextSenderMsgSeqNum") t)
        (replay_snapshot env first (range_end last next)
          (env.stores.get_messages first last t.store) t)
        (λ beyond. absurd (
          let x : next < first = ground (arith, beyond) in
          let y = answered_to-below last next in omega arith))
        λ _.
          subst
            (λ n.
              Replayed env frames t first end
                (replay_snapshot env first n (env.stores.get_messages first last t.store) t))
            (sym (range_end-answered_to last next))
            (subst (λ r. Replayed env frames t first end (replay_snapshot env first end r t))
              (sym read)
              (replay_snapshot-Replayed env t first end frames
                (clean (λ c. c.id.sender_comp_id) sender) (clean (λ c. c.id.target_comp_id) target)
                time asc le))

  -- A request to send again from a number of at least 1 on is answered, when the store reads the
  -- range in the order of its numbers and there is a number in it, and the CompIDs of the session and
  -- the timestamp hold no NUL or SOH, with frames that cover exactly once and in order every number
  -- from that one up to EndSeqNo, or up to the last number sent if EndSeqNo is 0, missing or past it:
  -- what the store has read that can be sent again is sent again under its number, marked as a
  -- possible duplicate with the time it was first sent, where it has one without NUL and SOH, and its
  -- other fields, and the numbers in between are filled by SequenceResets whose NewSeqNo is the number
  -- behind them.
  pub handle_resend_request-Replayed :
      (msg : Message) (first : ℕ) (frames : List Entry) (s : Session S)
      → has_invalid_wire_chars s.cfg.id.sender_comp_id ≡ false
      → has_invalid_wire_chars s.cfg.id.target_comp_id ≡ false
      → has_invalid_wire_chars env.timestamp ≡ false
      → Ascending frames
      → get_int msg Tags.begin_seq_no ≡ some (pos first)
      → 1 ≤ first
      → first ≤ last_asked env msg first s
      → env.stores.get_messages first (asked_to msg) (heard env msg first s).store ≡ ok frames
      → Replayed env frames
          (heard env msg first s)
          first
          (last_asked env msg first s)
          (handle_resend_request env msg s)
  unfolding handle_resend_request
  handle_resend_request-Replayed msg first frames s sender target time asc begin least le read =
      let t = heard env msg first s in
      let end = last_asked env msg first s in
      subst (λ o. Replayed env frames t first end (resend_with env msg o s)) (sym begin)
        (if_each (Replayed env frames t first end) (leb first 0)
          (bad_request env msg (codes "BeginSeqNo must be >= 1") s)
          (resend_from env msg first (asked_to msg) s)
          (λ h. absurd (let x : first ≤ 0 = ground (arith, h) in omega arith))
          λ _. resend_from-Replayed msg first frames s sender target time asc le read)
