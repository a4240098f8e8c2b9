-- ===== src/Proxy/Http/Counting.antt =====
-- The counters of an HTTPS listener after a request.
use nas_conn_plus.Base.{ℕ, ◌+◌, ℤ, pos, negsuc, ◌+ℤ◌, ◌≡◌, refl, List, [], ◌∷◌, arith}
use nas_conn_plus.Metrics.{u64}
use nas_conn_plus.Proxy.{ListenerState}
use nas_conn_plus.Proxy.Http.{
  Io, reads, writes, reads_from, raw_reads, raw_writes, fails, count, run_io, run_ios, enter, leave,
  serve_http,
}

abbrev pub positive : ℤ → ℕ
positive (pos n) = n
positive (negsuc n) = 0

-- The bytes read from the body, the bytes written through the response writer, and the failures of a request.
abbrev pub bytes_read : List Io → ℕ
bytes_read [] = 0
bytes_read (reads n ∷ ios) = positive n + bytes_read ios
bytes_read (writes n ∷ ios) = bytes_read ios
bytes_read (reads_from n ∷ ios) = bytes_read ios
bytes_read (raw_reads n ∷ ios) = bytes_read ios
bytes_read (raw_writes n ∷ ios) = bytes_read ios
bytes_read (fails ∷ ios) = bytes_read ios

abbrev pub bytes_written : List Io → ℕ
bytes_written [] = 0
bytes_written (reads n ∷ ios) = bytes_written ios
bytes_written (writes n ∷ ios) = positive n + bytes_written ios
bytes_written (reads_from n ∷ ios) = positive n + bytes_written ios
bytes_written (raw_reads n ∷ ios) = bytes_written ios
bytes_written (raw_writes n ∷ ios) = bytes_written ios
bytes_written (fails ∷ ios) = bytes_written ios

abbrev pub failures : List Io → ℕ
failures [] = 0
failures (reads n ∷ ios) = failures ios
failures (writes n ∷ ios) = failures ios
failures (reads_from n ∷ ios) = failures ios
failures (raw_reads n ∷ ios) = failures ios
failures (raw_writes n ∷ ios) = failures ios
failures (fails ∷ ios) = 1 + failures ios

-- The counters of `st'` are those of `st`, moved on by the steps.
pub record Moved (ios : List Io) (st st' : ListenerState) : Type 0 where
  pub received : u64 st'.bytes_in ≡ u64 (st.bytes_in + bytes_read ios)
  pub sent : u64 st'.bytes_out ≡ u64 (st.bytes_out + bytes_written ios)
  pub failed : u64 st'.error_count ≡ u64 (st.error_count + failures ios)
  pub active : st'.active_conn ≡ st.active_conn
  pub total : st'.total_conn ≡ st.total_conn
  pub socket : st'.ln ≡ st.ln

count-u64 : (n : ℤ) (total : ℕ) → u64 (count n total) ≡ u64 (total + positive n)
unfolding count
count-u64 (pos n) total = omega arith
count-u64 (negsuc n) total = omega arith

run_ios-Moved : (ios : List Io) (st : ListenerState) → Moved ios st (run_ios ios st)
unfolding run_ios run_io
run_ios-Moved [] st = record {
  received = omega arith;
  sent = omega arith;
  failed = omega arith;
  active = refl;
  total = refl;
  socket = refl;
}
run_ios-Moved (reads n ∷ ios) st =
    let ih = run_ios-Moved ios (run_io (reads n) st) in
    record {
      received = ground (arith, ih.received, count-u64 n st.bytes_in);
      sent = ih.sent;
      failed = ih.failed;
      active = ih.active;
      total = ih.total;
      socket = ih.socket;
    }
run_ios-Moved (writes n ∷ ios) st =
    let ih = run_ios-Moved ios (run_io (writes n) st) in
    record {
      received = ih.received;
      sent = ground (arith, ih.sent, count-u64 n st.bytes_out);
      failed = ih.failed;
      active = ih.active;
      total = ih.total;
      socket = ih.socket;
    }
run_ios-Moved (reads_from n ∷ ios) st =
    let ih = run_ios-Moved ios (run_io (reads_from n) st) in
    record {
      received = ih.received;
      sent = ground (arith, ih.sent, count-u64 n st.bytes_out);
      failed = ih.failed;
      active = ih.active;
      total = ih.total;
      socket = ih.socket;
    }
run_ios-Moved (raw_reads n ∷ ios) st =
    let ih = run_ios-Moved ios st in
    record {
      received = ih.received;
      sent = ih.sent;
      failed = ih.failed;
      active = ih.active;
      total = ih.total;
      socket = ih.socket;
    }
run_ios-Moved (raw_writes n ∷ ios) st =
    let ih = run_ios-Moved ios st in
    record {
      received = ih.received;
      sent = ih.sent;
      failed = ih.failed;
      active = ih.active;
      total = ih.total;
      socket = ih.socket;
    }
run_ios-Moved (fails ∷ ios) st =
    let ih = run_ios-Moved ios (run_io fails st) in
    record {
      received = ih.received;
      sent = ih.sent;
      failed = omega (arith, ih.failed);
      active = ih.active;
      total = ih.total;
      socket = ih.socket;
    }

-- A request, whatever is read, written, copied or fails in it, leaves the number of active connections as it was,
-- counts one connection, and adds the bytes read from the body, the bytes of the answer written or copied through
-- the response writer, and the failures to their counters, all modulo 2^64. A read, write or copy that returns a
-- negative count adds nothing, and neither do the bytes that go over a connection taken by `Hijack`.
pub serve_http-counts :
    (ios : List Io) (st : ListenerState)
    → let st' = serve_http ios st in
      (st'.active_conn ≡ st.active_conn)
      × (st'.total_conn ≡ u64 (st.total_conn + 1))
      × (u64 st'.bytes_in ≡ u64 (st.bytes_in + bytes_read ios))
      × (u64 st'.bytes_out ≡ u64 (st.bytes_out + bytes_written ios))
      × (u64 st'.error_count ≡ u64 (st.error_count + failures ios))
unfolding serve_http enter leave ◌+ℤ◌
serve_http-counts ios st =
    let m = run_ios-Moved ios (enter st) in
    (ground (arith, m.active), m.total, m.received, m.sent, m.failed)
