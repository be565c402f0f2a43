-- ===== src/Parser/Stream/Feed.antt =====
-- `feed`: the backlog stays within the cap, and every byte is parsed, skipped or kept.
use fix_protocol.Prelude.{
  ℕ, zero, suc, ◌+◌, ◌-◌, ◌*◌, ◌%◌, ◌^◌, ◌≤◌, ◌<◌, ◌≡◌, refl, Bool, true, false, ◌⊎◌, inl, inr, [],
  ◌∷◌, Bytes, arith, leb, ◌==◌, if◌then◌else◌, not, ◌&&◌, length, length-append, length-drop,
  length-take, take, drop, min, Bool-cases, subst, sym,
}
use fix_protocol.Parser.Stream.Progress.{InBuffer}
use fix_protocol.Parser.Stream.Drain.{Drained, drain-DrainsTo}
use fix_protocol.Parser.Stream.{
  StreamParser, write_pos, buffered, append_bytes, drain, enforce_cap, room, latch, feed_loop, feed,
}
use fix_protocol.Parser.Stream.Kept.{Keeps, Takes-Keeps, drained, drained-Keeps, enforce_cap-Keeps}

-- The backlog never passes the cap; a cap of 0 is no cap.
abbrev pub Capped : StreamParser → Type 0
Capped p = (p.buf_cap ≡ 0) ⊎ (write_pos p ≤ p.buf_cap)

-- What feeding `n` bytes to `p` ends in. The backlog is within the cap. If the parser is healthy it
-- was so before, no more can be parsed of what it holds, and the bytes that it had and was fed are
-- those taken and those buffered, as 64-bit counters add up.
pub record Fed (p : StreamParser) (n : ℕ) (q : StreamParser) : Type 0 where
  pub same_cap : q.buf_cap ≡ p.buf_cap
  pub capped : Capped q
  pub was_healthy : q.healthy ≡ true → p.healthy ≡ true
  pub in_buffer : q.healthy ≡ true → InBuffer q
  pub drained_out : q.healthy ≡ true → Drained q
  pub total :
      q.healthy ≡ true → (q.consumed + buffered q) % 2 ^ 64 ≡ (p.consumed + buffered p + n) % 2 ^ 64

drain-Fed : (p : StreamParser) → InBuffer p → Capped p → Fed p 0 (drain p)
drain-Fed p h c =
    let (t, d) = drain-DrainsTo p h in
    let k = Takes-Keeps h t in
    record {
      same_cap = k.same_cap;
      capped = ground (arith, k, c);
      was_healthy = λ e. ground (arith, k);
      in_buffer = λ _. k.in_buffer;
      drained_out = λ _. d;
      total = λ _. ground (arith, k);
    }

-- Appending `xs`, within the cap, and then feeding the rest.
append_bytes-Fed :
    (p q r : StreamParser) (xs : Bytes) (n : ℕ)
    → Keeps p q
    → Fed (append_bytes q xs) n r
    → Fed p (length xs + n) r
unfolding append_bytes
append_bytes-Fed p q r xs n k f =
    ground (arith, f.was_healthy, f.drained_out, f.total, length-append q.buf xs)

Keeps-Fed : (p q r : StreamParser) (n : ℕ) → Keeps p q → Fed q n r → Fed p n r
Keeps-Fed p q r n k f = ground (arith, k, f.was_healthy, f.drained_out, f.total, f.in_buffer)

unhealthy-Fed :
    (p q : StreamParser) (n : ℕ) → q.healthy ≡ false → q.buf_cap ≡ p.buf_cap → Capped q → Fed p n q
unhealthy-Fed p q n e s c = record {
  same_cap = s;
  capped = c;
  was_healthy = λ e'. cc;
  in_buffer = λ e'. cc;
  drained_out = λ e'. cc;
  total = λ e'. cc;
}

abbrev Roomy : StreamParser → Type 0
Roomy p = (p.buf_cap ≡ 0) ⊎ (write_pos p < p.buf_cap)

idle-Fed : (p : StreamParser) → InBuffer p → Capped p → Drained p → Fed p 0 p
idle-Fed p h c d = record {
  same_cap = refl;
  capped = c;
  was_healthy = λ e. e;
  in_buffer = λ _. h;
  drained_out = λ _. d;
  total = λ _. omega arith;
}

append_bytes-Capped :
    (q : StreamParser) (len : ℕ) (bytes : Bytes)
    → length bytes ≡ len
    → Capped q
    → InBuffer q
    → let xs = take (min len (room q len)) bytes in
      Capped (append_bytes q xs) × InBuffer (append_bytes q xs)
unfolding append_bytes
append_bytes-Capped q len bytes e c h = ground (
  arith,
  length-append q.buf (take (min len (room q len)) bytes),
  length-take (min len (room q len)) bytes,
)

abbrev Feeds : ℕ → Type 0
Feeds fuel =
    (p : StreamParser) (bytes : Bytes)
    → InBuffer p
    → Capped p
    → 2 * length bytes + 1 ≤ fuel
    → Roomy p ⊎ (2 * length bytes + 2 ≤ fuel)
    → Fed p (length bytes) (feed_loop fuel p bytes)

feed_append :
    (fuel : ℕ) (p : StreamParser) (c : ℕ) (cs : Bytes)
    → Feeds fuel
    → InBuffer p
    → Capped p
    → 2 * length (c ∷ cs) ≤ fuel
    → (room (drained p) (length (c ∷ cs)) == 0) ≡ false
    → Fed p (length (c ∷ cs)) (feed_loop (suc fuel) p (c ∷ cs))
unfolding feed_loop drained
feed_append fuel p c cs again h cap enough e =
    rw (feed_loop, e)
      (let bytes = c ∷ cs in
        let q = drained p in
        let len = length bytes in
        let n = min len (room q len) in
        let k = (drained-Keeps p h).0 in
        let (capped, in_buffer) =
          append_bytes-Capped q len bytes refl (ground (arith, k, cap)) k.in_buffer in
        let positive : 0 < n = ground (arith, e) in
        let taken : length (take n bytes) ≡ n = omega (arith, length-take n bytes) in
        let left : length (drop n bytes) ≡ len - n = omega (arith, length-drop n bytes) in
        let f = append_bytes-Fed p q _ (take n bytes) _ k (
          again (append_bytes q (take n bytes)) (drop n bytes) in_buffer capped (omega arith)
            (inr (omega arith))) in
        subst (λ t. Fed p t (feed_loop fuel (append_bytes q (take n bytes)) (drop n bytes)))
          (omega arith) f)

pick_sick : (b : Bool) (r x : StreamParser) → b ≡ false → (if not b then r else x) ≡ r
pick_sick b r x e = ground arith

pick_last :
    (b c : Bool) (r l x : StreamParser)
    → b ≡ true
    → c ≡ false
    → (if not b then r else if c then l else x) ≡ x
pick_last b c r l x e e' = ground arith

sick-Fed :
    (q r x : StreamParser) (n : ℕ)
    → r.healthy ≡ false
    → r.buf_cap ≡ q.buf_cap
    → Capped r
    → Fed q n (if not r.healthy then r else x)
sick-Fed q r x n sick same fits =
    subst (Fed q n) (sym (pick_sick r.healthy r x sick)) (unhealthy-Fed q r n sick same fits)

well-Fed :
    (q r l x : StreamParser) (stuck : Bool) (n : ℕ)
    → r.healthy ≡ true
    → stuck ≡ false
    → Fed q n x
    → Fed q n (if not r.healthy then r else if stuck then l else x)
well-Fed q r l x stuck n well free f =
    subst (Fed q n) (sym (pick_last r.healthy stuck r l x well free)) f

-- Where room was made, the loop goes on; where it was not, the parser is unhealthy.
after_enforce_cap-Fed :
    (fuel : ℕ) (q : StreamParser) (c : ℕ) (cs : Bytes)
    → Feeds fuel
    → InBuffer q
    → Capped q
    → 2 * length (c ∷ cs) + 1 ≤ fuel
    → (room q (length (c ∷ cs)) == 0) ≡ true
    → let r = enforce_cap q in
      Fed q (length (c ∷ cs)) (
        if not r.healthy
        then r
        else if leb (buffered q) (buffered r) && leb r.buf_cap (write_pos r)
        then latch r
        else feed_loop fuel r (c ∷ cs))
after_enforce_cap-Fed fuel q c cs again h within enough e =
    elim (enforce_cap-Keeps q h (ground (arith, e)) (ground (arith, e))) [
      | inl (gone, same, empty) ↦
          sick-Fed q (enforce_cap q) _ (length (c ∷ cs)) gone same (ground arith)
      | inr (k, less, front) ↦ elim (Bool-cases (enforce_cap q).healthy) [
        | inl well ↦
            well-Fed q (enforce_cap q) _ _
              (leb (buffered q) (buffered (enforce_cap q))
                && leb (enforce_cap q).buf_cap (write_pos (enforce_cap q)))
              (length (c ∷ cs)) well (ground arith)
              (Keeps-Fed q (enforce_cap q) _ (length (c ∷ cs)) k (
                again (enforce_cap q) (c ∷ cs) k.in_buffer (ground (arith, k)) enough
                  (inl (ground (arith, k)))))
        | inr gone ↦
            sick-Fed q (enforce_cap q) _ (length (c ∷ cs)) gone k.same_cap (ground (arith, k))
      ]
    ]

feed_reclaim :
    (fuel : ℕ) (p : StreamParser) (c : ℕ) (cs : Bytes)
    → Feeds fuel
    → InBuffer p
    → Capped p
    → 2 * length (c ∷ cs) + 1 ≤ fuel
    → (room (drained p) (length (c ∷ cs)) == 0) ≡ true
    → Fed p (length (c ∷ cs)) (feed_loop (suc fuel) p (c ∷ cs))
unfolding feed_loop drained
feed_reclaim fuel p c cs again h cap enough e =
    rw (feed_loop, e)
      (Keeps-Fed p (drained p) _ (length (c ∷ cs)) (drained-Keeps p h).0 (
        after_enforce_cap-Fed fuel (drained p) c cs again (drained-Keeps p h).0.in_buffer
          (ground (arith, (drained-Keeps p h).0, cap)) enough e))

Roomy-room :
    (p : StreamParser) (n : ℕ) → InBuffer p → Roomy p → 0 < n → (room (drained p) n == 0) ≡ false
Roomy-room p n h r pos = ground (arith, drained-Keeps p h)

feed_loop-Fed : (fuel : ℕ) → Feeds fuel
feed_loop-Fed zero p bytes h c enough r = absurd (omega arith)
feed_loop-Fed (suc fuel) p [] h c enough r = unfold feed_loop in drain-Fed p h c
feed_loop-Fed (suc fuel) p (b ∷ bs) h c enough r =
    elim (Bool-cases (room (drained p) (length (b ∷ bs)) == 0)) [
      | inl full ↦
          feed_reclaim fuel p b bs (feed_loop-Fed fuel) h c
            (ground (arith, Roomy-room p (length (b ∷ bs)) h)) full
      | inr free ↦ feed_append fuel p b bs (feed_loop-Fed fuel) h c (omega arith) free
    ]

-- Feeding bytes to a parser that is healthy and within its cap, reads inside its buffer and has
-- parsed all that it can of what it holds, leaves the backlog within the cap.
-- Unless the parser has given its backlog up, no more can be parsed of what it holds, and every
-- byte that it held or was fed has been taken off (parsed or discarded, and counted by
-- `consumed_`) or is still buffered.
pub feed-Fed :
    (p : StreamParser) (bytes : Bytes)
    → InBuffer p
    → Capped p
    → Drained p
    → Fed p (length bytes) (feed p bytes)
unfolding feed
feed-Fed p bytes h c d = elim (Bool-cases p.healthy) [
  | inl well ↦ elim (Bool-cases (length bytes == 0)) [
    | inl nothing ↦ ground (arith, idle-Fed p h c d)
    | inr some_bytes ↦
        ground (
          arith,
          feed_loop-Fed (2 * length bytes + 2) p bytes h c (omega arith) (inr (omega arith)),
        )
  ]
  | inr sick ↦ ground (arith, unhealthy-Fed p p (length bytes) sick refl c)
]
