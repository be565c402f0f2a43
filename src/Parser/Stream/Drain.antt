-- ===== src/Parser/Stream/Drain.antt =====
-- `drain` stops only where more bytes are needed.
use fix_protocol.Prelude.{ℕ, zero, suc, ◌<◌, ◌≡◌, refl, Option, arith, ◌∙◌, ap}
use fix_protocol.Core.Types.{ErrorCode, parse_error}
use fix_protocol.Parser.Frame.{Verdict, verdict, parse_frame}
use fix_protocol.Parser.Stream.Progress.{InBuffer, Takes, Takes-trans, Steps, try_parse_one-Steps}
use fix_protocol.Parser.Stream.{
  StreamParser, buffered, base, resync_scan, ParseStatus, message, error, need_more, aborted,
  apply_verdict, try_parse_one, drain_loop, drain,
}

-- Nothing can be done without more bytes.
abbrev pub Drained : StreamParser → Type 0
Drained p = (try_parse_one p).1 ≡ need_more

abbrev with_error : StreamParser → Option ErrorCode → StreamParser
with_error p e = record p { last_error = e }

apply_verdict-with_error :
    (p : StreamParser) (e : Option ErrorCode) (v : Verdict)
    → (apply_verdict (with_error p e) v).1 ≡ (apply_verdict p v).1
unfolding apply_verdict
apply_verdict-with_error p e v = ground arith

resync_scan-with_error :
    (p : StreamParser) (e : Option ErrorCode) (c : ErrorCode)
    → (resync_scan (with_error p e) c).1 ≡ (resync_scan p c).1
unfolding resync_scan
resync_scan-with_error p e c = ground arith

status-with_error :
    (p : StreamParser) (e : Option ErrorCode)
    → (try_parse_one (with_error p e)).1 ≡ (try_parse_one p).1
unfolding try_parse_one
status-with_error p e = ground (
  arith,
  resync_scan-with_error p e parse_error,
  apply_verdict-with_error p e (verdict (parse_frame p.opts p.buf_cap (base p))),
)

apply_verdict_need_more :
    (p : StreamParser) (v : Verdict)
    → (apply_verdict p v).1 ≡ need_more
    → (apply_verdict p v).0 ≡ with_error p (apply_verdict p v).0.last_error
unfolding apply_verdict
apply_verdict_need_more p v h = ground arith

resync_scan_none :
    (p : StreamParser) (c : ErrorCode) → (resync_scan p c).1 ≡ 0 → (resync_scan p c).0 ≡ p
unfolding resync_scan
resync_scan_none p c h = ground arith

-- A step that needs more bytes changes the last error at most.
try_parse_one_need_more :
    (p : StreamParser)
    → Drained p
    → (try_parse_one p).0 ≡ with_error p (try_parse_one p).0.last_error
unfolding try_parse_one
try_parse_one_need_more p h = ground (
  arith,
  resync_scan_none p parse_error,
  apply_verdict_need_more p (verdict (parse_frame p.opts p.buf_cap (base p))),
)

still-Drained : (p : StreamParser) → Drained p → Drained (try_parse_one p).0
still-Drained p h =
    ap (λ q. (try_parse_one q).1) (try_parse_one_need_more p h)
    ∙ status-with_error p (try_parse_one p).0.last_error
    ∙ h

abbrev pub DrainsTo : StreamParser → StreamParser → Type 0
DrainsTo p q = Takes p q × Drained q

drain_step :
    (p : StreamParser) (s : ParseStatus) (fuel : ℕ)
    → (try_parse_one p).1 ≡ s
    → Steps p (try_parse_one p)
    → buffered p < suc fuel
    → (InBuffer (try_parse_one p).0
        → buffered (try_parse_one p).0 < fuel
        → DrainsTo (try_parse_one p).0 (drain_loop fuel (try_parse_one p).0))
    → DrainsTo p (drain_loop (suc fuel) p)
unfolding drain_loop
drain_step p need_more fuel e h lt again = rw (drain_loop, e) (h.takes, still-Drained p e)
drain_step p aborted fuel e h lt again = absurd (h.alive e)
drain_step p message fuel e h lt again =
    let (t, d) = again (ground (arith, h.takes)) (ground (arith, h.takes, h.moves, e)) in
    rw (drain_loop, e) (Takes-trans h.takes t, d)
drain_step p error fuel e h lt again =
    let (t, d) = again (ground (arith, h.takes)) (ground (arith, h.takes, h.moves, e)) in
    rw (drain_loop, e) (Takes-trans h.takes t, d)

drain_loop-DrainsTo :
    (fuel : ℕ) (p : StreamParser) → InBuffer p → buffered p < fuel → DrainsTo p (drain_loop fuel p)
drain_loop-DrainsTo zero p h lt = elim lt [ ]
drain_loop-DrainsTo (suc fuel) p h lt =
    drain_step p (try_parse_one p).1 fuel refl (try_parse_one-Steps p h) lt
      (drain_loop-DrainsTo fuel (try_parse_one p).0)

-- `drain` ends, and where it ends the next step needs more bytes; until then it has only taken
-- bytes off the front, each of them on the ledger of `consumed_`.
pub drain-DrainsTo : (p : StreamParser) → InBuffer p → DrainsTo p (drain p)
unfolding drain
drain-DrainsTo p h = drain_loop-DrainsTo (suc (buffered p)) p h (omega arith)
