-- ===== src/Tests/OfParser.antt =====
-- src/parser/parser.cpp: the theorems of the parser at concrete inputs.
use fix_protocol.Prelude.{refl, inr, Bytes, codes, arith, length, map, ◌==◌, if◌then◌else◌}
use fix_protocol.Core.Message.{soh}
use fix_protocol.Parser.Frame.{default_options, parse_frame}
use fix_protocol.Parser.Frame.Bounds.{Ends, Fits, parse_frame-Ends}
use fix_protocol.Parser.Stream.{StreamParser, init, try_parse_one, drain, feed}
use fix_protocol.Parser.Stream.Progress.{Steps, try_parse_one-Steps}
use fix_protocol.Parser.Stream.Drain.{DrainsTo, drain-DrainsTo}
use fix_protocol.Parser.Stream.Feed.{Fed, feed-Fed}

-- Bars for SOH.
abbrev frame : Bytes → Bytes
frame s = map (λ c. if c == b'|' then soh else c) s

-- A heartbeat, behind two bytes of noise, and the start of another frame.
abbrev arrived : Bytes
arrived = frame (codes "xx8=FIX.4.2|9=5|35=0|10=161|8=FIX")

abbrev idle : StreamParser
idle = init default_options

abbrev loaded : StreamParser
loaded = record idle { buf = arrived }

parse_frame-Ends_example : Ends (Fits arrived) (parse_frame default_options 0 arrived)
parse_frame-Ends_example = parse_frame-Ends default_options 0 arrived

try_parse_one-Steps_example : Steps loaded (try_parse_one loaded)
unfolding init
try_parse_one-Steps_example = try_parse_one-Steps loaded (omega arith)

drain-DrainsTo_example : DrainsTo loaded (drain loaded)
unfolding init
drain-DrainsTo_example = drain-DrainsTo loaded (omega arith)

feed-Fed_example : Fed idle (length arrived) (feed idle arrived)
unfolding init try_parse_one
feed-Fed_example = feed-Fed idle arrived (omega arith) (inr (omega arith)) refl
