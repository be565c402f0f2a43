-- ===== src/Session/Sending/Rollback.antt =====
-- src/session/session.cpp, `send_message_locked`: one frame out for one sequence number, or none.
use fix_protocol.Prelude.{
  ℕ, ◌+◌, ◌≡◌, refl, ◌⊎◌, inl, inr, [], ◌∷◌, ◌++◌, Bytes, arith, subst, sym, ap, ◌∙◌,
}
use fix_protocol.Core.Types.{ErrorCode, Result, ok, err, Done}
use fix_protocol.Core.Message.{Message}
use fix_protocol.Serializer.{Builder, try_serialize}
use fix_protocol.Store.{Contract, Fails, wrap_seq}
use fix_protocol.Session.{Session, Env, report, wrap_count}
use fix_protocol.Session.Sending.{
  envelope, after_rollback, abort_with, stored, serialized, send_claimed, claimed,
  send_message_locked,
}
use fix_protocol.Session.Sending.Wire.{wire_out, wire_out-reported, gap, emit_wire_locked-Out}

number : ℕ → Result ℕ → ℕ
number other (ok n) = n
number other (err e) = other

module _ {S : Type 0} (env : Env S) (lawful : Contract env.stores) where
  abbrev next_sender : Session S → ℕ
  next_sender s = env.stores.next_sender_seq_num s.store

  abbrev next_target : Session S → ℕ
  next_target s = env.stores.next_target_seq_num s.store

  -- What stays as it was, whether a message goes out or not.
  abbrev pub Undisturbed : Session S → Session S → Type 0
  Undisturbed s t =
      (next_target t ≡ next_target s) × (t.state ≡ s.state) × (gap t ≡ gap s) × (t.cfg ≡ s.cfg)

  -- One frame went out, with the next sequence number, which is used up.
  pub record SendsOne (m : Message) (s t : Session S) : Type 0 where
    pub frame : Bytes
    pub made : (try_serialize m (envelope env (next_sender s) s) s.builder).1 ≡ ok frame
    pub one : wire_out t.effects ≡ wire_out s.effects ++ frame ∷ []
    pub advanced : next_sender t ≡ wrap_seq (next_sender s + 1)

  -- Nothing went out, and the sequence number is still the next one, or the failure of the store to
  -- take it back was reported.
  pub record SendsNone (s t : Session S) : Type 0 where
    pub quiet : wire_out t.effects ≡ wire_out s.effects
    pub kept : (next_sender t ≡ next_sender s) ⊎ (t.errors ≡ wrap_count (s.errors + 1))

  abbrev pub Sends : Message → Session S → Session S × Result Done → Type 0
  Sends m s (t, ok _) = SendsOne m s t × Undisturbed s t
  Sends m s (t, err _) = SendsNone s t × Undisturbed s t

  abbrev Aborted : ℕ → Session S → Session S → Type 0
  Aborted seq s t =
      (wire_out t.effects ≡ wire_out s.effects)
      × ((next_sender t ≡ seq) ⊎ (t.errors ≡ wrap_count (s.errors + 1)))
      × Undisturbed s t

  after_rollback-Aborted :
      (seq : ℕ) (r : S × Result Done) (s : Session S)
      → env.stores.next_target_seq_num r.0 ≡ next_target s
      → ((r.1 ≡ ok tt) × (env.stores.next_sender_seq_num r.0 ≡ seq) ⊎ Fails r.1 × Unit {0})
      → Aborted seq s (after_rollback r s)
  unfolding report
  after_rollback-Aborted seq (st, ok u) s same (inl (_, e)) =
      (refl, inl e, (same, refl, refl, refl))
  after_rollback-Aborted seq (st, ok u) s same (inr (f, _)) = absurd f
  after_rollback-Aborted seq (st, err e) s same h =
      (wire_out-reported s.effects _, inr refl, (same, refl, refl, refl))

  -- `t` is what a send has made of `s` before anything went out.
  record Underway (s t : Session S) : Type 0 where
    quiet : wire_out t.effects ≡ wire_out s.effects
    same_errors : t.errors ≡ s.errors
    same_target : next_target t ≡ next_target s
    same_rest : (t.state ≡ s.state) × (gap t ≡ gap s) × (t.cfg ≡ s.cfg)

  rollback_outcome :
      (n : ℕ) (st : S)
      → let r = env.stores.set_next_sender_seq_num n st in
        (r.1 ≡ ok tt) × (env.stores.next_sender_seq_num r.0 ≡ n) ⊎ Fails r.1 × Unit {0}
  rollback_outcome n st = elim (lawful.set_sender n st).1 [
    | inl set ↦ inl set
    | inr (failed, _) ↦ inr (failed, tt)
  ]

  abort_with-Sends :
      (m : Message) (s t : Session S) (e : ErrorCode)
      → Underway s t
      → Sends m s (abort_with env (next_sender s) e t)
  unfolding abort_with
  abort_with-Sends m s t e u =
      let seq = next_sender s in
      let (quiet, kept, (target, state, gap_same, cfg)) =
        after_rollback-Aborted seq (env.stores.set_next_sender_seq_num seq t.store) t
          (lawful.set_sender seq t.store).0 (rollback_outcome seq t.store) in
      (
        record { quiet = quiet ∙ u.quiet; kept = ground (arith, kept, u.same_errors) },
        (
          target ∙ u.same_target,
          state ∙ u.same_rest.0,
          gap_same ∙ u.same_rest.1,
          cfg ∙ u.same_rest.2,
        ),
      )

  stored-Sends :
      (m : Message) (s t : Session S) (w : Bytes) (r : S × Result Done)
      → Underway s t
      → (try_serialize m (envelope env (next_sender s) s) s.builder).1 ≡ ok w
      → env.stores.next_sender_seq_num r.0 ≡ wrap_seq (next_sender s + 1)
      → env.stores.next_target_seq_num r.0 ≡ next_target s
      → Sends m s (stored env (next_sender s) w r t)
  stored-Sends m s t w (st, ok _) u made next same =
      let (out, store, state, gap_same, cfg) =
        emit_wire_locked-Out env w (record t { store = st }) in
      (
        record {
          frame = w;
          made = made;
          one = out ∙ ap (λ l. l ++ w ∷ []) u.quiet;
          advanced = ap env.stores.next_sender_seq_num store ∙ next;
        },
        (
          ap env.stores.next_target_seq_num store ∙ same,
          state ∙ u.same_rest.0,
          gap_same ∙ u.same_rest.1,
          cfg ∙ u.same_rest.2,
        ),
      )
  stored-Sends m s t w (st, err e) u made next same =
      abort_with-Sends m s (record t { store = st }) e
        (record {
          quiet = u.quiet;
          same_errors = u.same_errors;
          same_target = same;
          same_rest = u.same_rest;
        })

  serialized-Sends :
      (m : Message) (s t : Session S) (r : Builder × Result Bytes)
      → Underway s t
      → (try_serialize m (envelope env (next_sender s) s) s.builder).1 ≡ r.1
      → next_sender t ≡ wrap_seq (next_sender s + 1)
      → Sends m s (serialized env (next_sender s) r t)
  serialized-Sends m s t (b, ok w) u made next =
      let seq = next_sender s in
      let (sender, target) = lawful.keep_outbound seq w t.store in
      stored-Sends m s (record t { builder = b }) w (env.stores.store_outbound seq w t.store)
        (record {
          quiet = u.quiet;
          same_errors = u.same_errors;
          same_target = u.same_target;
          same_rest = u.same_rest;
        })
        made (sender ∙ next) (target ∙ u.same_target)
  serialized-Sends m s t (b, err e) u made next =
      abort_with-Sends m s (record t { builder = b }) e
        (record {
          quiet = u.quiet;
          same_errors = u.same_errors;
          same_target = u.same_target;
          same_rest = u.same_rest;
        })

  claimed-Sends :
      (m : Message) (s : Session S) (r : S × Result ℕ)
      → env.stores.next_target_seq_num r.0 ≡ next_target s
      → ((r.1 ≡ ok (next_sender s))
            × (env.stores.next_sender_seq_num r.0 ≡ wrap_seq (next_sender s + 1))
          ⊎ Fails r.1 × (env.stores.next_sender_seq_num r.0 ≡ next_sender s))
      → Sends m s (claimed env m r s)
  unfolding send_claimed number
  claimed-Sends m s (st, ok seq) same (inl (e, next)) =
      let t = record s { store = st } in
      subst (λ k. Sends m s (send_claimed env m k t)) (sym (ap (number seq) e))
        (serialized-Sends m s t (try_serialize m (envelope env (next_sender s) s) s.builder)
          (record {
            quiet = refl;
            same_errors = refl;
            same_target = same;
            same_rest = (refl, refl, refl);
          })
          refl next)
  claimed-Sends m s (st, ok seq) same (inr (f, _)) = absurd f
  claimed-Sends m s (st, err e) same (inl (e', _)) = absurd (let x : ⊥ = cc in x)
  claimed-Sends m s (st, err e) same (inr (_, kept)) =
      (record { quiet = refl; kept = inl kept }, (same, refl, refl, refl))

  -- On any store that keeps the contract, sending a message either puts exactly one frame on the
  -- wire, serialized with the next sender sequence number, which is then used up; or it fails, puts
  -- nothing on the wire, and the next sender sequence number is what it was, but for a store that
  -- failed to take it back, which is reported. Neither changes the next target sequence number, the
  -- state of the session, an open gap and its retries, or the configuration.
  pub send_message_locked-Sends :
      (m : Message) (s : Session S) → Sends m s (send_message_locked env m s)
  unfolding send_message_locked
  send_message_locked-Sends m s =
      claimed-Sends m s (env.stores.next_sender_seq_num_incr s.store) (lawful.claim s.store).0
        (lawful.claim s.store).1
