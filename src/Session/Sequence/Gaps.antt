-- ===== src/Session/Sequence/Gaps.antt =====
-- src/session/session.cpp: the expected number never goes back, and a gap is asked for once.
use fix_protocol.Prelude.{
  ℕ, ◌+◌, if_each, not, ◌&&◌, List, ◌∷◌, ◌++◌, append-nil, append_assoc, sym, inr, ◌≡◌, ◌≢◌, refl,
  ◌⊎◌, inl, Bool, true, false, Option, none, some, [], Bytes, codes, arith, max, ap, ◌∙◌,
}
use fix_protocol.Core.Types.{Result, ok, err, Done}
use fix_protocol.Core.RejectReason.{SessionRejectReason, required_tag_missing}
use fix_protocol.Core.Tags
use fix_protocol.Core.Message.{Message, seq_num, poss_dup, msg_type}
use fix_protocol.Store.{Contract, Fails, wrap_seq}
use fix_protocol.Session.{
  Session, Env, Effect, reported, emit, report, report_thrown, guarded, disconnect,
}
use fix_protocol.Session.Sending.{
  send_message_locked, send_message, send_logout, send_reject, reject_message, send_resend_request,
  resend_request_message,
}
use fix_protocol.Session.Sending.Wire.{gap}
use fix_protocol.Session.Sending.Rollback.{Sends, send_message_locked-Sends}
use fix_protocol.Session.Sequence.{
  checked, advance_target, keep_inbound, consume_inbound, request_gap, validate_seq_num, refuse,
}

Sends-gap :
    {S : Type 0} (env : Env S) (lawful : Contract env.stores) (m : Message) (s : Session S)
    (r : Session S × Result Done)
    → Sends env lawful m s r
    → (gap r.0 ≡ gap s)
      × (env.stores.next_target_seq_num r.0.store ≡ env.stores.next_target_seq_num s.store)
Sends-gap env lawful m s (t, ok _) h = (h.1.2, h.1.0)
Sends-gap env lawful m s (t, err _) h = (h.1.2, h.1.0)

module _ {S : Type 0} (env : Env S) (lawful : Contract env.stores) where
  abbrev pub target : Session S → ℕ
  target s = env.stores.next_target_seq_num s.store

  pub send_message-gap : (m : Message) (s : Session S) → gap (send_message env m s) ≡ gap s
  unfolding send_message
  send_message-gap m s =
      (Sends-gap env lawful m s (send_message_locked env m s)
        (send_message_locked-Sends env lawful m s)).0

  send_message-target : (m : Message) (s : Session S) → target (send_message env m s) ≡ target s
  unfolding send_message
  send_message-target m s =
      (Sends-gap env lawful m s (send_message_locked env m s)
        (send_message_locked-Sends env lawful m s)).1

  opens : (n : ℕ) (s : Session S) → (request_gap env n s).gap_open ≡ true
  unfolding request_gap send_resend_request
  opens n s = ground (
    arith,
    ap (λ g. g.0)
        (send_message-gap (resend_request_message n 0)
          (record s { gap_rr_attempts = 1; gap_rr_last = env.now; gap_open = true })),
  )

  still_open :
      (other : Env S) (n : ℕ) (s : Session S) → s.gap_open ≡ true → request_gap other n s ≡ s
  unfolding request_gap
  still_open other n s h = ground (arith, h)

  -- Asking for a gap leaves it open, and while it is open, asking again, whenever and for whatever
  -- number, changes nothing: no second ResendRequest is sent.
  pub request_gap-once :
      (other : Env S) (m n : ℕ) (s : Session S)
      → ((request_gap env n s).gap_open ≡ true)
        × (request_gap other m (request_gap env n s) ≡ request_gap env n s)
  request_gap-once other m n s = (opens n s, still_open other m (request_gap env n s) (opens n s))

  checked-target :
      (what : Bytes) (r : S × Result Done) (s : Session S)
      → target (checked what r s) ≡ env.stores.next_target_seq_num r.0
  unfolding report
  checked-target what (st, ok _) s = refl
  checked-target what (st, err _) s = refl

  -- The report of a failed advance.
  abbrev pub advance_failed : Effect
  advance_failed = reported (codes "consume: NextTargetMsgSeqNum advance failed")

  -- The expected number advances to `n` at least, or it stays, and the first thing that is done is to
  -- report the store's failure.
  abbrev pub Advances : ℕ → Session S → Session S → Type 0
  Advances n s t =
      (target t ≡ max (target s) n)
      ⊎ (target t ≡ target s)
        × ((more : List Effect) × (t.effects ≡ s.effects ++ advance_failed ∷ more))

  checked_advance-Advances :
      (n : ℕ) (r : S × Result Done) (s : Session S)
      → ((r.1 ≡ ok tt) × (env.stores.next_target_seq_num r.0 ≡ max (target s) n)
          ⊎ Fails r.1 × (env.stores.next_target_seq_num r.0 ≡ target s))
      → Advances n s (checked (codes "consume: NextTargetMsgSeqNum advance failed") r s)
  unfolding report
  checked_advance-Advances n (st, ok _) s (inl (_, e)) = inl e
  checked_advance-Advances n (st, ok _) s (inr (f, _)) = absurd f
  checked_advance-Advances n (st, err e) s (inl (h, _)) = absurd (let x : ⊥ = cc in x)
  checked_advance-Advances n (st, err e) s (inr (_, same)) = inr (same, ([], refl))

  keep_inbound-target : (m : Message) (s : Session S) → target (keep_inbound env m s) ≡ target s
  keep_inbound-target m s =
      checked-target (codes "consume: inbound audit persist failed")
        (env.stores.store_inbound (seq_num m) m.raw s.store) s
      ∙ (lawful.keep_inbound (seq_num m) m.raw s.store).1

  checked-effects :
      (what : Bytes) (r : S × Result Done) (s : Session S)
      → (more : List Effect) × ((checked what r s).effects ≡ s.effects ++ more)
  unfolding report
  checked-effects what (st, ok _) s = ([], sym (append-nil s.effects))
  checked-effects what (st, err _) s = (reported what ∷ [], refl)

  keep_inbound-Advances :
      (n : ℕ) (m : Message) (s t : Session S) → Advances n s t → Advances n s (keep_inbound env m t)
  keep_inbound-Advances n m s t (inl e) = inl (keep_inbound-target m t ∙ e)
  keep_inbound-Advances n m s t (inr (e, (more, told))) =
      let (later, grows) =
        checked-effects (codes "consume: inbound audit persist failed")
          (env.stores.store_inbound (seq_num m) m.raw t.store) t in
      inr (
        keep_inbound-target m t ∙ e,
        (
          more ++ later,
          grows ∙ ap (λ l. l ++ later) told ∙ append_assoc s.effects (advance_failed ∷ more) later,
        ),
      )

  -- Consuming an inbound message takes the expected number to the one behind the message's, unless it
  -- is past that already, and never back; only if the store fails to advance does the number stay, and
  -- then the first effect is the report of that. A possible duplicate whose number was not validated
  -- changes nothing at all.
  pub consume_inbound-target :
      (m : Message) (validated : Bool) (s : Session S)
      → ((validated ≡ true) ⊎ (poss_dup m ≡ false)
          → Advances (wrap_seq (seq_num m + 1)) s (consume_inbound env m validated s))
        × (validated ≡ false → poss_dup m ≡ true → consume_inbound env m validated s ≡ s)
  unfolding consume_inbound
  consume_inbound-target m validated s =
      let n = wrap_seq (seq_num m + 1) in
      let t = advance_target env m s in
      (
        λ taken.
            if_each (Advances n s) (not validated && poss_dup m) s (keep_inbound env m t)
              (λ passed. absurd (let x : ⊥ = ground (arith, taken, passed) in x))
              (λ _. keep_inbound-Advances n m s t (
                checked_advance-Advances n (env.stores.advance_next_target_seq_num n s.store) s
                  (lawful.advance n s.store).1)),
        λ v d. ground (arith, v, d),
      )

  pub refuse-target : (why : Bytes) (s : Session S) → target (refuse env why s) ≡ target s
  unfolding disconnect send_logout
  refuse-target why s = send_message-target _ s

  pub request_gap-target : (n : ℕ) (s : Session S) → target (request_gap env n s) ≡ target s
  unfolding request_gap send_resend_request
  request_gap-target n s = ground (
    arith,
    send_message-target (resend_request_message n 0)
        (record s { gap_rr_attempts = 1; gap_rr_last = env.now; gap_open = true }),
  )

  report_thrown-target :
      (name : Bytes) (o : Option Bytes) (s : Session S) → target (report_thrown name o s) ≡ target s
  unfolding report
  report_thrown-target name none s = refl
  report_thrown-target name (some w) s = refl

  guarded-target : (e : Effect) (s : Session S) → target (guarded env e s) ≡ target s
  unfolding guarded
  guarded-target e s = report_thrown-target [] (env.throws e) (emit e s)

  send_reject-target :
      (n : ℕ) (r : SessionRejectReason) (mt : Bytes) (tag : ℕ) (why : Bytes) (s : Session S)
      → target (send_reject env n r mt tag why s) ≡ target s
  unfolding send_reject
  send_reject-target n r mt tag why s = send_message-target (reject_message n r mt tag why) s

  -- A message passes the validation just if its number is the expected one and not 0, and then the
  -- session is as it was; whether it passes or not, the expected number stays.
  pub validate_seq_num-expected :
      (m : Message) (s : Session S)
      → let r = validate_seq_num env m s in
        (r.1 ≡ true → (seq_num m ≡ target s) × (seq_num m ≢ 0) × (r.0 ≡ s))
        × (seq_num m ≡ target s → seq_num m ≢ 0 → r.1 ≡ true)
        × (target r.0 ≡ target s)
  unfolding validate_seq_num
  validate_seq_num-expected m s =
      let expected = target s in
      let t = guarded env (Effect.sequence_gap expected (seq_num m)) s in
      (
        λ h. ground (arith, h),
        λ e n. ground (arith, e, n),
        ground (
          arith,
          send_reject-target 0 required_tag_missing (msg_type m) Tags.msg_seq_num [] s,
          request_gap-target expected t,
          guarded-target (Effect.sequence_gap expected (seq_num m)) s,
          refuse-target (codes "MsgSeqNum too low") s,
        ),
      )
