-- ===== src/Parser/Stream/Progress.antt =====
-- Every step of the parser that delivers a message or reports an error takes bytes; so `drain` ends.
use fix_protocol.Prelude.{
  ℕ, ◌+◌, ◌%◌, ◌^◌, ◌≤◌, ◌<◌, ◌≡◌, ◌≢◌, refl, Option, none, some, [], ◌∷◌, Bytes, arith, length,
  length-drop, length-take, take, inl, inr, ◌⊎◌, min, max,
}
use fix_protocol.Core.Types.{ErrorCode, parse_error}
use fix_protocol.Core.Message.{Message}
use fix_protocol.Parser.Frame.Bounds.{IsRefusal, Ends, Fits, parse_frame-Ends}
use fix_protocol.Parser.Frame.{
  Verdict, wait, wait_oversized, skip, accept, abort, Outcome, stop, next, verdict, parse_frame,
}
use fix_protocol.Parser.Stream.{
  StreamParser, write_pos, buffered, base, find_start, discard, window, resync_scan, skip_frame,
  ParseStatus, need_more, aborted, deliver, apply_verdict, resynced, try_parse_one,
}

-- The read position stays within the bytes written.
abbrev pub InBuffer : StreamParser → Type 0
InBuffer p = p.read_pos ≤ write_pos p

-- `q` comes from `p` by taking bytes off the front: the bytes, the cap, the options and the health
-- are the same, and the bytes taken are on the ledger of `consumed_`, a 64-bit counter.
pub record Takes (p q : StreamParser) : Type 0 where
  pub same_bytes : q.buf ≡ p.buf
  pub same_cap : q.buf_cap ≡ p.buf_cap
  pub same_opts : q.opts ≡ p.opts
  pub same_health : q.healthy ≡ p.healthy
  pub forward : p.read_pos ≤ q.read_pos
  pub within : q.read_pos ≤ write_pos p
  pub ledger : (q.consumed + p.read_pos) % 2 ^ 64 ≡ (p.consumed + q.read_pos) % 2 ^ 64

pub Takes-refl : (p : StreamParser) → InBuffer p → Takes p p
Takes-refl p h = record {
  same_bytes = refl;
  same_cap = refl;
  same_opts = refl;
  same_health = refl;
  forward = omega arith;
  within = h;
  ledger = refl;
}

pub Takes-trans : {p q r : StreamParser} → Takes p q → Takes q r → Takes p r
Takes-trans {p} {q} {r} a b = record {
  same_bytes = cc;
  same_cap = cc;
  same_opts = cc;
  same_health = cc;
  forward = omega arith;
  within = ground arith;
  ledger = omega arith;
}

abbrev Below : ℕ → Option ℕ → Type 0
Below k none = Unit
Below k (some n) = n < k

find_start-Below : (s : Bytes) → Below (length s) (find_start s)
unfolding find_start
find_start-Below [] = tt
find_start-Below (a ∷ []) = tt
find_start-Below (a ∷ b ∷ cs) = ground (arith, find_start-Below (b ∷ cs))

discard-le :
    (avail k : ℕ) (found : Option ℕ) → Below k found → k ≤ avail → discard avail found ≤ avail
unfolding discard
discard-le avail k none h le = omega arith
discard-le avail k (some n) h le = omega arith

window-le : (p : StreamParser) → length (take (window p) (base p)) ≤ buffered p
window-le p = omega (arith, length-take (window p) (base p), length-drop p.read_pos p.buf)

resync_discard-le :
    (p : StreamParser) → discard (buffered p) (find_start (take (window p) (base p))) ≤ buffered p
resync_discard-le p =
    discard-le (buffered p) _ _ (find_start-Below (take (window p) (base p))) (window-le p)

-- A scan takes as many bytes as it reports.
pub resync_scan-Takes :
    (p : StreamParser) (e : ErrorCode)
    → InBuffer p
    → Takes p (resync_scan p e).0
      × ((resync_scan p e).0.read_pos ≡ p.read_pos + (resync_scan p e).1)
unfolding resync_scan
resync_scan-Takes p e h = ground (arith, resync_discard-le p)

-- A skip takes at least one byte.
skip_frame-Takes :
    (p : StreamParser) (n : ℕ) (e : ErrorCode)
    → InBuffer p
    → 0 < buffered p
    → Takes p (skip_frame p n e) × (p.read_pos < (skip_frame p n e).read_pos)
unfolding skip_frame
skip_frame-Takes p n e h some_left =
    let k = min (max n 1) (buffered p) in
    let q = record p {
      read_pos = p.read_pos + k;
      consumed = (p.consumed + k) % 2 ^ 64;
      last_error = some e;
    } in
    let skipped : Takes p q = ground arith in
    let (t, n') = resync_scan-Takes q e (omega arith) in (Takes-trans skipped t, omega arith)

deliver-Takes :
    (p : StreamParser) (n : ℕ) (m : Message)
    → InBuffer p
    → n ≤ buffered p
    → Takes p (deliver p n m) × ((deliver p n m).read_pos ≡ p.read_pos + n)
unfolding deliver
deliver-Takes p n m h fits = ground arith

-- What one step does: it takes bytes, at least one unless more are needed, and never aborts.
pub record Steps (p : StreamParser) (r : StreamParser × ParseStatus) : Type 0 where
  pub takes : Takes p r.0
  pub moves : r.1 ≢ need_more → p.read_pos < r.0.read_pos
  pub alive : r.1 ≢ aborted

need_more-Steps : (p : StreamParser) → InBuffer p → Steps p (p, need_more)
need_more-Steps p h = record {
  takes = Takes-refl p h;
  moves = λ e. absurd (e refl);
  alive = λ e. cc;
}

apply_verdict-Steps :
    (p : StreamParser) (v : Verdict)
    → InBuffer p
    → 0 < buffered p
    → (IsRefusal v) ⊎ (Fits (base p) v)
    → Steps p (apply_verdict p v)
unfolding apply_verdict
apply_verdict-Steps p wait h left k = need_more-Steps p h
apply_verdict-Steps p wait_oversized h left k = ground (arith, Takes-refl p h)
apply_verdict-Steps p (skip n e) h left k =
    let (t, m) = skip_frame-Takes p n e h left in
    record { takes = t; moves = λ _. m; alive = λ e'. cc }
apply_verdict-Steps p (accept n m) h left (inl bad) = absurd bad
apply_verdict-Steps p (accept n m) h left (inr fits) =
    let (t, e) = deliver-Takes p n m h (omega (arith, length-drop p.read_pos p.buf)) in
    record { takes = t; moves = λ _. omega arith; alive = λ e'. cc }
apply_verdict-Steps p abort h left (inl bad) = absurd bad
apply_verdict-Steps p abort h left (inr bad) = absurd bad

verdict-Ends :
    (b : Bytes) (o : Outcome Verdict)
    → Ends (Fits b) o
    → (IsRefusal (verdict o)) ⊎ (Fits b (verdict o))
verdict-Ends b (stop v) h = inl h
verdict-Ends b (next v) h = inr h

resynced-Steps :
    (p : StreamParser) (r : StreamParser × ℕ)
    → Takes p r.0
    → r.0.read_pos ≡ p.read_pos + r.1
    → Steps p (resynced r)
resynced-Steps p r t e = record { takes = t; moves = ground arith; alive = ground arith }

-- Each call of `try_parse_one` only takes bytes off the front, and accounts for them; if it
-- delivers a message or reports an error it takes at least one; and it never aborts.
pub try_parse_one-Steps : (p : StreamParser) → InBuffer p → Steps p (try_parse_one p)
unfolding try_parse_one
try_parse_one-Steps p h = ground (
  arith,
  need_more-Steps p h,
  resynced-Steps p (resync_scan p parse_error) (resync_scan-Takes p parse_error h).0
      (resync_scan-Takes p parse_error h).1,
  apply_verdict-Steps p (verdict (parse_frame p.opts p.buf_cap (base p))) h,
  verdict-Ends (base p) _ (parse_frame-Ends p.opts p.buf_cap (base p)),
)
