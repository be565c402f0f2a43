-- ===== src/Session/States/Logon.antt =====
-- src/session/session.cpp, `handle_logon` and `send_logon`: how they move the state machine.
use fix_protocol.Prelude.{
  ◌≡◌, refl, Bool, true, false, ◌||◌, Option, none, some, Bytes, codes, arith, if◌then◌else◌, ℤ,
  sym, ap, if_each, if_both, ◌∙◌, subst,
}
use fix_protocol.Core.Types.{Result, ok, err, Done}
use fix_protocol.Core.Message.{Message}
use fix_protocol.Store.{Contract}
use fix_protocol.Session.{
  Session, Env, Effect, SessionState, not_connected, waiting_logon, logon_sent, active, logout_sent,
  disconnected, same_state, report, clear_gap, transition,
}
use fix_protocol.Session.Sending.{
  send_message_locked, send_logon, send_logon_as, logon_message, logon_result, logon_reset,
}
use fix_protocol.Session.Admin.{
  became_active, answered, baseline, adopt, wants_baseline, accept_logon, logon_with,
  logon_in_state,
}
use fix_protocol.Session.States.{
  Moves, answers, confirms, send_message_locked-state, refuse-state, Refuses, same, dropped,
  guarded-state, checked-state,
}

module _ {S : Type 0} (env : Env S) (lawful : Contract env.stores) where
  logon_result-state :
      (d p : SessionState) (r : Session S × Result Done)
      → (logon_result false d p r).0.state ≡ r.0.state
  logon_result-state d p (s, ok _) = refl
  logon_result-state d p (s, err _) = refl

  logon_reset-state :
      (m : Message) (d p : SessionState) (r : S × Result Done) (s : Session S)
      → (logon_reset env m false d p r s).0.state ≡ s.state
  unfolding clear_gap report
  logon_reset-state m d p (st, ok _) s =
      let t = clear_gap (record s { store = st }) in
      logon_result-state d p (send_message_locked env m t)
      ∙ send_message_locked-state env lawful m t
  logon_reset-state m d p (st, err _) s = refl

  send_logon_as-state :
      (m : Message) (d p : SessionState) (s : Session S)
      → (send_logon_as env m false d p s).0.state ≡ s.state
  unfolding send_logon_as
  send_logon_as-state m d p s = ground (
    arith,
    logon_reset-state m d p (env.stores.reset s.store) s,
    logon_result-state d p (send_message_locked env m s),
    send_message_locked-state env lawful m s,
  )

  send_logon-waiting :
      (s : Session S) → s.state ≡ waiting_logon → (send_logon env s).0.state ≡ waiting_logon
  unfolding send_logon
  send_logon-waiting s e =
      let desired = if s.cfg.initiator then logon_sent else waiting_logon in
      let Waiting : Session S × Result Done → Type 0 = λ r. r.0.state ≡ waiting_logon in
      if_both Waiting (same_state s.state desired) _ _
        (if_both Waiting s.cfg.initiator _ _ e (
          send_logon_as-state (logon_message s) desired s.state
            (record s { logon_sent_time = env.now })
          ∙ e))
        (if_each Waiting (same_state s.state not_connected || same_state s.state disconnected) _ _
          (λ h. absurd (
            let x : true ≡ false =
              sym h ∙ ap (λ a. same_state a not_connected || same_state a disconnected) e in
            cc))
          (λ _. e))

  became_active-state :
      (raced : Bytes) (r : Session S × Bool) → (became_active env raced r).state ≡ r.0.state
  unfolding report
  became_active-state raced (s, true) =
      guarded-state env Effect.logon (record s { logout_notified = false })
  became_active-state raced (s, false) = refl

  transition-from :
      (a b : SessionState) (s : Session S)
      → same_state s.state a ≡ true
      → (transition a b s).0.state ≡ b
  unfolding transition
  transition-from a b s e = rw e refl

  answered-Moves :
      (r : Session S × Result Done)
      → r.0.state ≡ waiting_logon
      → Moves waiting_logon (answered env r).state
  unfolding report
  answered-Moves (s, ok _) e =
      subst (Moves waiting_logon)
        (sym (
          became_active-state _ (transition waiting_logon active s)
          ∙ transition-from waiting_logon active s (ap (λ a. same_state a waiting_logon) e)))
        answers
  answered-Moves (s, err _) e = same e

  logon_in_state-Moves :
      (a : SessionState) (s : Session S) → s.state ≡ a → Moves a (logon_in_state env a s).state
  unfolding logon_in_state
  logon_in_state-Moves not_connected s e = same e
  logon_in_state-Moves waiting_logon s e =
      answered-Moves (send_logon env s) (send_logon-waiting s e)
  logon_in_state-Moves logon_sent s e =
      subst (Moves logon_sent)
        (sym (
          became_active-state _ (transition logon_sent active s)
          ∙ transition-from logon_sent active s (ap (λ a. same_state a logon_sent) e)))
        confirms
  logon_in_state-Moves active s e = dropped (refuse-state env lawful (codes "Duplicate Logon") s)
  logon_in_state-Moves logout_sent s e = same e
  logon_in_state-Moves disconnected s e = same e

  baseline-state : (b : Bool) (s : Session S) → (baseline env b s).state ≡ s.state
  baseline-state b s = ground (
    arith,
    checked-state (codes "logon: ResetSeqNumFlag baseline persist failed")
        (env.stores.set_next_target_seq_num 1 s.store) s,
  )

  accept_logon-Moves :
      (msg : Message) (hb : ℤ) (s : Session S) → Moves s.state (accept_logon env msg hb s).state
  unfolding clear_gap
  accept_logon-Moves msg hb s =
      let t = baseline env (wants_baseline msg s.state) (adopt hb s) in
      logon_in_state-Moves s.state (clear_gap t)
        (baseline-state (wants_baseline msg s.state) (adopt hb s))

  pub logon_with-Moves :
      (msg : Message) (o : Option ℤ) (s : Session S) → Moves s.state (logon_with env msg o s).state
  logon_with-Moves msg none s = Refuses env lawful (codes "HeartBtInt required") s s.state
  logon_with-Moves msg (some hb) s = ground (
    arith,
    Refuses env lawful (codes "HeartBtInt required") s s.state,
    Refuses env lawful (codes "HeartBtInt mismatch") s s.state,
    accept_logon-Moves msg hb s,
  )
