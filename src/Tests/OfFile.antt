-- ===== src/Tests/OfFile.antt =====
-- src/store/file_store.cpp: the theorems of the file store at concrete inputs.
use fix_protocol.Prelude.{
  ℕ, ◌≡◌, refl, ◌⊎◌, true, false, none, some, List, [], ◌∷◌, ◌++◌, ◌||◌, Bytes, codes, arith, equal,
  if◌then◌else◌, leb, take, min,
}
use fix_protocol.Prelude.Decimal.{to_decimal, from_chars}
use fix_protocol.Core.Types.{ok, err, store_error, SessionId, fix_4_2, fix_4_4}
use fix_protocol.Store.{Contract, Fails}
use fix_protocol.Store.SortedMap.{Entry, entry, assign}
use fix_protocol.Store.Memory.{MemoryStore, new_store}
use fix_protocol.Store.Memory as Memory
use fix_protocol.Store.File.Disk.{Os, sync, write, write_all, extend, put_file, read_file, resize}
use fix_protocol.Store.File.Sequences.{
  newline, parse_seqs, all_plain, skip_space, persist_seqs, load_seqs,
}
use fix_protocol.Store.File.Sequences.Crash.{load_seqs-persist_seqs}
use fix_protocol.Store.File.Sequences.Succeeds.{persist_seqs-done}
use fix_protocol.Store.File.Log.{record_text, scan}
use fix_protocol.Store.File.Log.Reads.{assign_all}
use fix_protocol.Store.File.Log.Lines.{IsStorable, log_text}
use fix_protocol.Store.File.Name.{fingerprint, make_prefix}
use fix_protocol.Store.File.Name.Distinct.{IsShortId, make_prefix-distinct}
use fix_protocol.Store.File.Name.Collision.{make_prefix-collides}
use fix_protocol.Store.File.State.{FileStore}
use fix_protocol.Store.File.Frames.{fsync_path, maybe_fsync, append, store_outbound, get_messages}
use fix_protocol.Store.File.Lifecycle.{rebuild_index, latched, close, index_and_open}
use fix_protocol.Store.File.Lawful.{file_store, file_store-Contract}
use fix_protocol.Store.File.Mirror.{Mirrors, store_outbound-Mirrors, get_messages-Mirrors}
use fix_protocol.Store.File.Recovery.{restart-Mirrors}
use fix_protocol.Store.File.Closing.{close-reports}
use fix_protocol.Store.File.Durable.{IsDurable}
use fix_protocol.Store.File.Durable.Run.{
  Op, AllComplete, refreshes, claim, advance, set_sender, keep_outbound, run_all, run_all-IsDurable,
}

-- Every call succeeds, and a write takes three bytes at most.
abbrev calm : Os
calm = record { fails = λ _. false; written = λ _ n. min n 3 }

-- The process is killed before its call number `k`.
abbrev killed : ℕ → Os
killed k = record { fails = λ n. leb k n; written = λ _ n. min n 3 }

abbrev one_sent : List Entry
one_sent = entry 1 (codes "a") ∷ []

abbrev first_record : Bytes
first_record = codes "1|a" ++ newline ∷ []

-- An open store that was given one frame to keep.
abbrev begun : FileStore
begun = record {
  prefix = codes "p";
  fsync_messages = true;
  sender_seq = 2;
  target_seq = 1;
  out_stream = record { is_open = true; good = true; place = 4 };
  in_stream = record { is_open = true; good = true; place = 0 };
  out_index = record { seq = 1; value = 0 } ∷ [];
  closed = false;
  disk = record {
    files = λ k.
        if equal k (codes "p.out.log")
        then some first_record
        else if equal k (codes "p.in.log")
        then some []
        else if equal k (codes "p.seqnums")
        then some (codes "2 1")
        else none;
    calls = 7;
  };
}

small_a : IsStorable (entry 1 (codes "a"))
small_a = (omega arith, omega arith, ((λ e. cc), tt))

small_b : IsStorable (entry 2 (codes "b"))
small_b = (omega arith, omega arith, ((λ e. cc), tt))

begun-Mirrors : Mirrors begun one_sent
unfolding log_text record_text to_decimal assign_all equal assign
begun-Mirrors = record {
  es = one_sent;
  storable = (small_a, tt);
  kept = refl;
  on_disk = refl;
  reads = (refl, record { line = small_a.2; rest = []; there = refl }, tt);
  aligned = λ _. refl;
}

begun-stores : (store_outbound calm 2 (codes "b") begun).1 ≡ ok tt
unfolding store_outbound append write_all record_text to_decimal write maybe_fsync fsync_path sync
begun-stores = refl

store_outbound-Mirrors_example :
    Mirrors (store_outbound calm 2 (codes "b") begun).0 (assign 2 (codes "b") one_sent)
store_outbound-Mirrors_example =
    store_outbound-Mirrors 2 (codes "b") small_b one_sent calm begun begun-Mirrors begun-stores

-- A memory store with the same frame.
abbrev in_memory : MemoryStore
in_memory = record new_store { outbound = one_sent }

get_messages-Mirrors_example : get_messages calm 1 0 begun ≡ Memory.get_messages 1 0 in_memory
get_messages-Mirrors_example = get_messages-Mirrors calm 1 0 begun in_memory begun-Mirrors refl

-- What a store leaves that is killed in the middle of the second record.
abbrev cut_short : FileStore
cut_short = (store_outbound (killed 8) 2 (codes "b") begun).0

cut_short-torn : cut_short.disk.files (codes "p.out.log") ≡ some (first_record ++ codes "2|b")
unfolding store_outbound append write_all record_text to_decimal write extend put_file equal
cut_short-torn = refl

cut_short-prefix : cut_short.prefix ≡ begun.prefix
unfolding store_outbound append write_all record_text to_decimal write extend put_file
cut_short-prefix = refl

cut_short-restarts : (index_and_open calm cut_short).1 ≡ ok tt
unfolding store_outbound append write_all record_text to_decimal write extend put_file equal
    rebuild_index read_file scan resize
cut_short-restarts = refl

restart-Mirrors_example :
    Mirrors (index_and_open calm cut_short).0 one_sent
    ⊎ Mirrors (index_and_open calm cut_short).0 (assign 2 (codes "b") one_sent)
restart-Mirrors_example =
    restart-Mirrors (killed 8) calm 2 (codes "b") begun cut_short one_sent small_b begun-Mirrors
      cut_short-prefix refl refl cut_short-restarts

begun-IsDurable : IsDurable begun
unfolding equal parse_seqs all_plain from_chars skip_space
begun-IsDurable = record {
  same = refl;
  sender = (omega arith, omega arith);
  target = (omega arith, omega arith);
}

abbrev some_ops : List Op
some_ops = claim ∷ set_sender 9 ∷ keep_outbound 9 (codes "c") ∷ refreshes ∷ advance 4 ∷ claim ∷ []

run_all-IsDurable_example : IsDurable (run_all (killed 14) some_ops begun)
unfolding AllComplete
run_all-IsDurable_example =
    run_all-IsDurable (killed 14) some_ops begun
      (tt, ((omega arith, omega arith), (tt, (tt, (omega arith, (tt, tt))))))
      (tt, (tt, (tt, (tt, (tt, (tt, tt)))))) begun-IsDurable

load_seqs-persist_seqs_example :
    let r = persist_seqs (killed 5) (codes "p.seqnums") (7, 3) begun.disk in
    (r.1 ≡ ok tt) × ((load_seqs calm (codes "p.seqnums") r.0).1 ≡ ok (7, 3))
    ⊎ Fails r.1
      × ((load_seqs calm (codes "p.seqnums") r.0).1
          ≡ (load_seqs calm (codes "p.seqnums") begun.disk).1)
load_seqs-persist_seqs_example =
    load_seqs-persist_seqs (killed 5) calm (codes "p.seqnums") 7 3 begun.disk (λ k. refl)
      (omega arith) (omega arith) (omega arith) (omega arith)

persist_seqs-done_example : (persist_seqs calm (codes "p.seqnums") (7, 3) begun.disk).1 ≡ ok tt
persist_seqs-done_example =
    persist_seqs-done calm (λ k. refl) (λ k n. ground arith) (codes "p.seqnums") (7, 3) begun.disk

file_store-Contract_example : Contract (file_store (killed 5))
file_store-Contract_example = file_store-Contract (killed 5)

abbrev slashed : SessionId
slashed = record {
  version = fix_4_2;
  sender_comp_id = codes "A/B";
  target_comp_id = codes "T";
  qualifier = [];
}

short_slashed : IsShortId slashed
short_slashed = record {
  sender = (omega arith, (omega arith, (omega arith, (omega arith, tt))));
  target = (omega arith, (omega arith, tt));
  qualifier = (omega arith, tt);
}

-- The same of another version.
abbrev newer : SessionId
newer = record slashed { version = fix_4_4 }

short_newer : IsShortId newer
short_newer = record {
  sender = short_slashed.sender;
  target = short_slashed.target;
  qualifier = short_slashed.qualifier;
}

same_names : make_prefix slashed ≡ make_prefix newer
unfolding make_prefix
same_names = refl

make_prefix-distinct_example :
    (slashed.sender_comp_id ≡ newer.sender_comp_id)
    × (slashed.target_comp_id ≡ newer.target_comp_id)
    × (slashed.qualifier ≡ newer.qualifier)
make_prefix-distinct_example =
    make_prefix-distinct slashed newer short_slashed short_newer same_names

abbrev long_id : Bytes
long_id = codes "A-VERY-LONG-SENDER-COMP-ID-OF-MORE-THAN-32-BYTES"

make_prefix-collides_example :
    make_prefix (record {
      version = fix_4_2;
      sender_comp_id = long_id;
      target_comp_id = codes "T";
      qualifier = [];
    })
    ≡ make_prefix (record {
      version = fix_4_4;
      sender_comp_id = take 32 long_id;
      target_comp_id = fingerprint long_id;
      qualifier = codes "T";
    })
make_prefix-collides_example =
    make_prefix-collides fix_4_2 fix_4_4 long_id (codes "T") (omega arith) (λ e. cc)

-- The fsyncs and the last write of the numbers fail.
close-reports_example :
    (close (killed 0) begun).1
    ≡ (if latched begun.out_stream || latched begun.in_stream then err store_error else ok tt)
close-reports_example = close-reports (killed 0) begun refl
