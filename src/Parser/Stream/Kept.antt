-- ===== src/Parser/Stream/Kept.antt =====
-- src/parser/parser.cpp: what `drain`, `compact` and `enforce_cap` keep of the parser.
use fix_protocol.Prelude.{◌+◌, ◌%◌, ◌^◌, ◌≤◌, ◌<◌, ◌≡◌, false, ◌⊎◌, arith, length-drop}
use fix_protocol.Core.Types.{parse_error}
use fix_protocol.Parser.Stream.Progress.{InBuffer, Takes, resync_scan-Takes}
use fix_protocol.Parser.Stream.Drain.{drain-DrainsTo}
use fix_protocol.Parser.Stream.{
  StreamParser, write_pos, buffered, resync_scan, compact, drain, enforce_cap,
}

-- What `drain` and `compact` keep: the total of the bytes taken and those buffered.
pub record Keeps (p q : StreamParser) : Type 0 where
  pub same_cap : q.buf_cap ≡ p.buf_cap
  pub same_health : q.healthy ≡ p.healthy
  pub in_buffer : InBuffer q
  pub shorter : write_pos q ≤ write_pos p
  pub total : (q.consumed + buffered q) % 2 ^ 64 ≡ (p.consumed + buffered p) % 2 ^ 64

Keeps-trans : {p q r : StreamParser} → Keeps p q → Keeps q r → Keeps p r
Keeps-trans {p} {q} {r} a b = ground (arith, a, b)

pub Takes-Keeps : {p q : StreamParser} → InBuffer p → Takes p q → Keeps p q
Takes-Keeps {p} {q} h t = ground (arith, t)

compact-Keeps : (p : StreamParser) → InBuffer p → Keeps p (compact p) × ((compact p).read_pos ≡ 0)
unfolding compact
compact-Keeps p h = ground (arith, length-drop p.read_pos p.buf)

unfoldable pub drained : StreamParser → StreamParser
drained p = compact (drain p)

pub drained-Keeps :
    (p : StreamParser) → InBuffer p → Keeps p (drained p) × ((drained p).read_pos ≡ 0)
unfolding drained
drained-Keeps p h =
    let k = Takes-Keeps h (drain-DrainsTo p h).0 in
    let (c, z) = compact-Keeps (drain p) k.in_buffer in (Keeps-trans k c, z)

-- What `enforce_cap` looks at to see whether room was made.
reclaimed-Keeps :
    (p : StreamParser)
    → InBuffer p
    → let q = drained (compact (resync_scan p parse_error).0) in Keeps p q × (q.read_pos ≡ 0)
reclaimed-Keeps p h =
    let k = Takes-Keeps h (resync_scan-Takes p parse_error h).0 in
    let (c, _) = compact-Keeps (resync_scan p parse_error).0 k.in_buffer in
    let (d, z) = drained-Keeps (compact (resync_scan p parse_error).0) c.in_buffer in
    (Keeps-trans (Keeps-trans k c) d, z)

-- At the cap, room is made or the parser gives its backlog up.
pub enforce_cap-Keeps :
    (p : StreamParser)
    → InBuffer p
    → p.buf_cap ≤ write_pos p
    → 0 < p.buf_cap
    → ((enforce_cap p).healthy ≡ false)
        × ((enforce_cap p).buf_cap ≡ p.buf_cap)
        × (write_pos (enforce_cap p) ≡ 0)
      ⊎ Keeps p (enforce_cap p)
        × (buffered (enforce_cap p) < buffered p)
        × ((enforce_cap p).read_pos ≡ 0)
unfolding enforce_cap drained
enforce_cap-Keeps p h full pos = ground (arith, reclaimed-Keeps p h)
