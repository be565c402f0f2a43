-- ===== src/Store/File/Closing.antt =====
-- src/store/file_store.cpp, `close`: which errors it reports.
use fix_protocol.Prelude.{
  ◌≡◌, refl, sym, subst, ap, ◌∙◌, Bool, true, false, ◌||◌, arith, if◌then◌else◌,
}
use fix_protocol.Core.Types.{Result, ok, err, Done, store_error}
use fix_protocol.Store.File.Disk.{Os, Disk}
use fix_protocol.Store.File.State.{Stream, FileStore, persist}
use fix_protocol.Store.File.Frames.{fsync_path}
use fix_protocol.Store.File.Lifecycle.{
  latched, also, has_value, close_log, close_with, shut_log, close,
}

-- An error if there was one before or if the stream is in the failed state.
abbrev stays_or : Bool → Result Done → Result Done
stays_or failed first = if failed then err store_error else first

-- The errors of the store are of one kind.
Plain : Result Done → Type 0
Plain (ok _) = Unit {0}
Plain (err e) = e ≡ store_error

also-stays : (done : Bool) (first : Result Done) → Plain first → also done first ≡ first
unfolding also Plain
also-stays true (ok _) h = refl
also-stays false (ok _) h = refl
also-stays true (err e) h = refl
also-stays false (err e) h = ground (arith, h)

close_log-stays :
    (os : Os) (st : Stream) (r : Disk × Result Done)
    → Plain r.1
    → (close_log os st r).1 ≡ stays_or (latched st) r.1
unfolding close_log
close_log-stays os st (d, first) h = ground (arith, also-stays (fsync_path os d).1 first h)

stays_or-Plain : (b : Bool) (first : Result Done) → Plain first → Plain (stays_or b first)
unfolding Plain
stays_or-Plain true first h = refl
stays_or-Plain false first h = h

close_with-stays :
    (r : FileStore × Result Done) (first : Result Done)
    → Plain first
    → (close_with r first).1 ≡ first
close_with-stays (s, r) first h = also-stays (has_value r) first h

ok-Plain : Plain (ok tt)
unfolding Plain
ok-Plain = tt

either :
    (a b : Bool) → stays_or b (stays_or a (ok tt)) ≡ (if a || b then err store_error else ok tt)
either true true = refl
either true false = refl
either false true = refl
either false false = refl

-- `close` of a store that is not closed reports an error exactly if one of its log streams is open
-- and in the failed state. So an fsync of a log that fails and a last write of the sequence numbers
-- that fails go unreported.
pub close-reports :
    (os : Os) (s : FileStore)
    → s.closed ≡ false
    → (close os s).1
      ≡ (if latched s.out_stream || latched s.in_stream then err store_error else ok tt)
unfolding close persist
close-reports os s running =
    let out = close_log os s.out_stream (s.disk, ok tt) in
    let inn = close_log os s.in_stream out in
    let first = close_log-stays os s.out_stream (s.disk, ok tt) ok-Plain in
    let out_plain =
      subst Plain (sym first) (stays_or-Plain (latched s.out_stream) (ok tt) ok-Plain) in
    let both = close_log-stays os s.in_stream out out_plain in
    let in_plain = subst Plain (sym both) (stays_or-Plain (latched s.in_stream) out.1 out_plain) in
    let t = record s {
      disk = inn.0;
      out_stream = shut_log s.out_stream;
      in_stream = shut_log s.in_stream;
    } in
    rw running (
      close_with-stays (persist os t) inn.1 in_plain
      ∙ both
      ∙ ap (stays_or (latched s.in_stream)) first
      ∙ either (latched s.out_stream) (latched s.in_stream))
