-- ===== src/Session/Timer/Budget.antt =====
-- src/session/session.cpp, `on_timer`: how often an open gap is asked for again.
use fix_protocol.Prelude.{ℕ, ◌<◌, ◌⊎◌, [], ◌∷◌, codes, to_int64, ◌+◌, ◌≤◌, ◌≡◌, true, false, ℤ}
use fix_protocol.Prelude.Decimal.{int_to_decimal}
use fix_protocol.Core.Types.{Result, Done}
use fix_protocol.Core.Tags
use fix_protocol.Core.MsgTypes
use fix_protocol.Core.Message.{Message}
use fix_protocol.Serializer.Render.{field}
use fix_protocol.Store.{Contract}
use fix_protocol.Session.{Session, Env, disconnected}
use fix_protocol.Session.Sending.Rollback.{Sends}
use fix_protocol.Session.Sending.Wire.{gap}
use fix_protocol.Session.Timer.{due, with_grace}

module _ {S : Type 0} (env : Env S) (lawful : Contract env.stores) (hb : ℤ) (s : Session S) where
  -- Everything from the number `first` on is asked for.
  abbrev pub everything_from : ℕ → Message
  everything_from first = record {
    fields =
        field 35 (codes "2")
        ∷ field 7 (int_to_decimal (to_int64 first))
        ∷ field 16 (codes "0")
        ∷ [];
    raw = [];
    duplicate_header = false;
  }

  -- The gap was asked for, and 1.2 heartbeat intervals have passed since.
  abbrev pub IsDue : Type 0
  IsDue =
      (s.gap_open ≡ true)
      × (1 ≤ s.gap_rr_attempts)
      × (due env.now s.gap_rr_last (with_grace hb) ≡ true)

  -- One tick of an open gap: nothing, one more request within a budget of five, or the end.
  pub data Retry : Session S → Type 0 where
    rests :
        (s.gap_open ≡ false)
          ⊎ (s.gap_rr_attempts ≡ 0)
          ⊎ (due env.now s.gap_rr_last (with_grace hb) ≡ false)
        → Retry s
    asks :
        (t : Session S) (r : Result Done)
        → IsDue
        → s.gap_rr_attempts < 5
        → gap t ≡ (s.gap_open, s.gap_rr_attempts + 1, env.now)
        → Sends env lawful
            (everything_from (env.stores.next_target_seq_num s.store))
            (record s { gap_rr_attempts = s.gap_rr_attempts + 1; gap_rr_last = env.now })
            (t, r)
        → Retry t
    gives_up :
        (t : Session S)
        → IsDue
        → 5 ≤ s.gap_rr_attempts
        → (t.state ≡ disconnected) × (gap t ≡ (false, 0, 0))
        → Retry t
