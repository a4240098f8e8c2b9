-- ===== src/Scanner/Prober.antt =====
-- internal/scanner/prober.go: is there plain HTTP behind a port? The clock and the network are
-- functions of the number of the call, so that no two answers need agree; a `Duration` is in
-- nanoseconds.
use nas_conn_plus.Base.{
  ℕ, suc, ◌+◌, ◌≡◌, refl, ℤ, pos, leb_ℤ, eqb_ℤ, int_eq, Str, codes, has_prefix, contains, fields,
  atoi, to_lower, List, [], ◌∷◌, Option, none, some, Bool, true, false, not, ◌&&◌, ◌||◌,
  if◌then◌else◌, ltb, Map, get, put, mem, length,
}
use nas_conn_plus.Metrics.{observe_probe}
use nas_conn_plus.Scanner.{Host, v4_loopback, v6_loopback, Exchange, ProbeEntry, Runtime}

-- `negativeCacheTTL` and `positiveCacheTTL`.
abbrev pub negative_cache_ttl : ℕ
negative_cache_ttl = 15000000000

abbrev pub positive_cache_ttl : ℕ
positive_cache_ttl = 300000000000

-- `strings.Split(resp, "\r\n")[0]`.
first_line : Str → Str
unfolding has_prefix
first_line [] = []
first_line (c ∷ s) =
    let rest = first_line s in if has_prefix (codes "\r\n") (c ∷ s) then [] else c ∷ rest

mentions_tls : Str → Bool
unfolding contains
mentions_tls lower =
    contains (codes "https") lower || (contains (codes "ssl") lower || contains (codes "tls") lower)

-- The status code decides only together with the text.
accept_status : Str → Option ℤ → Bool
unfolding mentions_tls to_lower
accept_status resp none = true
accept_status resp (some status) =
    if (eqb_ℤ status (pos 400) || eqb_ℤ status (pos 497)) && mentions_tls (to_lower resp)
    then false
    else if leb_ℤ (pos 200) status && leb_ℤ status (pos 499)
    then true
    else true

accept_parts : Str → List Str → Bool
unfolding accept_status atoi
accept_parts resp [] = true
accept_parts resp (proto ∷ []) = true
accept_parts resp (proto ∷ status ∷ parts) = accept_status resp (atoi status)

-- From the read on: fewer than four bytes are no answer.
unfoldable pub is_http_reply : Str → Bool
unfolding accept_parts first_line fields has_prefix
is_http_reply resp =
    if ltb (length resp) 4
    then false
    else if not (has_prefix (codes "HTTP/") resp)
    then false
    else accept_parts resp (fields (first_line resp))

-- `isHTTPServiceOnHost`: a port that completes a TLS handshake is no plain HTTP service.
unfoldable pub is_http_service_on_host : Exchange → Bool
unfolding is_http_reply
is_http_service_on_host x =
    if x.tls_ok
    then false
    else if not x.dial_ok
    then false
    else if not x.write_ok
    then false
    else (elim x.reply [ none ↦ false | some resp ↦ is_http_reply resp ])

-- The clock and the network at each call.
pub record Machine : Type 0 where
  pub now : ℕ → ℕ
  pub exchange : ℕ → Host → ℤ → Exchange

abbrev pub tick : Runtime → Runtime
tick rt = record rt { calls = suc rt.calls }

module _ (o : Machine) where
  -- `IsHTTPService`: 127.0.0.1 first, ::1 only if that fails.
  unfoldable pub is_http_service : ℤ → Runtime → Bool × Runtime
  unfolding is_http_service_on_host
  is_http_service port rt =
      if is_http_service_on_host (o.exchange rt.calls v4_loopback port)
      then (true, tick rt)
      else (is_http_service_on_host (o.exchange (suc rt.calls) v6_loopback port), tick (tick rt))

  -- Probe, then store the answer with the time and count it.
  unfoldable pub probe_and_store : ℤ → Runtime → Bool × Runtime
  unfolding is_http_service observe_probe put
  probe_and_store port rt =
      let (is_http, rt') = is_http_service port rt in
      let entry : ProbeEntry = record { is_http = is_http; updated_at = o.now rt'.calls } in
      (
        is_http,
        record rt' {
          probe_cache = put port entry rt'.probe_cache;
          metrics = observe_probe is_http rt'.metrics;
          calls = suc rt'.calls;
        },
      )

  unfoldable pub ttl : ProbeEntry → ℕ
  ttl e = if e.is_http then positive_cache_ttl else negative_cache_ttl

  -- `ProbeHTTP`, called by one goroutine for each port, as `Reconcile` does: no probe of the port is in
  -- flight. `time.Since(t) < ttl` is `now < t + ttl`.
  unfoldable pub probe_http : ℤ → Runtime → Bool × Runtime
  unfolding probe_and_store ttl get
  probe_http port rt = elim (get port rt.probe_cache) [
    | none ↦ probe_and_store port rt
    | some e ↦
        if ltb (o.now rt.calls) (e.updated_at + ttl e)
        then (e.is_http, tick rt)
        else probe_and_store port (tick rt)
  ]

  -- `ProbePorts`: the goroutines take distinct ports, here one after the other; the map that it
  -- returns has an answer for each.
  unfoldable pub probe_ports : List ℤ → Runtime → Map ℤ Bool × Runtime
  unfolding probe_http put
  probe_ports [] rt = ([], rt)
  probe_ports (p ∷ ps) rt =
      let (answer, rt') = probe_http p rt in
      let (out, rt'') = probe_ports ps rt' in (put p answer out, rt'')

-- `CleanProbeCache`.
unfoldable pub clean_probe_cache : List ℤ → Map ℤ ProbeEntry → Map ℤ ProbeEntry
unfolding mem
clean_probe_cache active [] = []
clean_probe_cache active ((p, e) ∷ cache) =
    let rest = clean_probe_cache active cache in if mem p active then (p, e) ∷ rest else rest

unfoldable pub reset_probe_cache : Runtime → Runtime
reset_probe_cache rt = record rt { probe_cache = [] }

reply_tests :
    (is_http_reply (codes "HTTP/1.1 404 Not Found\r\n\r\n") ≡ true)
    × (is_http_reply (
          codes "HTTP/1.0 400 Bad Request\r\n\r\nClient sent an HTTP request to an HTTPS server.\n")
        ≡ false)
    × (is_http_reply (codes "SSH-2.0-OpenSSH\r\n") ≡ false)
unfolding is_http_reply
reply_tests = (refl, refl, refl)
