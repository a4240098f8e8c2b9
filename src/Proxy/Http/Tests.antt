-- ===== src/Proxy/Http/Tests.antt =====
-- The theorems on an HTTPS listener, applied.
use nas_conn_plus.Base.{◌+◌, pos, negsuc, codes, itoa, str_eq, ◌≡◌, List, [], ◌∷◌, some, true, get}
use nas_conn_plus.Metrics.{u64}
use nas_conn_plus.Proxy.Tests.{relay_8080}
use nas_conn_plus.Proxy.Listen.{conflict_state}
use nas_conn_plus.Proxy.Http.{
  Net, Request, Io, reads, writes, raw_writes, fails, real_ip, rewrite, serve_http,
}
use nas_conn_plus.Proxy.Http.Counting.{bytes_read, bytes_written, failures, serve_http-counts}
use nas_conn_plus.Proxy.Http.Headers.{rewrite-Trusted}

abbrev net : Net
net = record {
  split_host = λ s. some s;
  is_ip = λ s. true;
  set_url = λ port r. r;
  set_x_forwarded = λ input r. r;
}

-- A client that claims another address.
abbrev request : Request
request = record {
  host = codes "nas.local";
  path = codes "/models";
  remote_addr = codes "192.168.1.7";
  headers = (real_ip, codes "127.0.0.1") ∷ [];
}

rewrite-Trusted_example :
    let sent = (rewrite net relay_8080 request request).headers in
    (get real_ip sent ≡ net.split_host request.remote_addr)
    × (get (codes "X-Forwarded-Proto") sent ≡ some (codes "https"))
    × (get (codes "X-Forwarded-Port") sent ≡ some (itoa relay_8080.port))
    × (get (codes "X-Forwarded-Host") sent ≡ some request.host)
rewrite-Trusted_example = rewrite-Trusted net relay_8080 request request

abbrev ios : List Io
ios = reads (pos 10) ∷ writes (pos 2048) ∷ raw_writes (pos 7) ∷ reads (negsuc 0) ∷ fails ∷ []

serve_http-counts_example :
    let st = conflict_state relay_8080 in
    let st' = serve_http ios st in
    (st'.active_conn ≡ st.active_conn)
    × (st'.total_conn ≡ u64 (st.total_conn + 1))
    × (u64 st'.bytes_in ≡ u64 (st.bytes_in + bytes_read ios))
    × (u64 st'.bytes_out ≡ u64 (st.bytes_out + bytes_written ios))
    × (u64 st'.error_count ≡ u64 (st.error_count + failures ios))
serve_http-counts_example = serve_http-counts ios (conflict_state relay_8080)
