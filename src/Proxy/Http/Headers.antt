-- ===== src/Proxy/Http/Headers.antt =====
-- The headers that a backend sees.
use nas_conn_plus.Base.{
  Str, codes, itoa, str_beq, str_eq, ◌≡◌, refl, Option, none, some, false, Map, get, put,
  get-put_self, get-put_other, get-delete_self, get-delete_other, ◌∙◌,
}
use nas_conn_plus.Proxy.{Want}
use nas_conn_plus.Proxy.Http.{
  Net, Request, real_ip, rewrite, set_real_ip, normalise_path, set_forwarded,
}

set_real_ip_self : (ip : Option Str) (r : Request) → get real_ip (set_real_ip ip r).headers ≡ ip
unfolding set_real_ip
set_real_ip_self none r = get-delete_self real_ip r.headers
set_real_ip_self (some ip) r = get-put_self real_ip ip r.headers

set_real_ip_other :
    (ip : Option Str) (r : Request) (name : Str)
    → str_beq real_ip name ≡ false
    → get name (set_real_ip ip r).headers ≡ get name r.headers
unfolding set_real_ip
set_real_ip_other none r name h = get-delete_other real_ip name r.headers h
set_real_ip_other (some ip) r name h = get-put_other real_ip name ip r.headers h

module _ (value : Str) (m : Map Str Str) (proto port : Str) where
  abbrev h1 : Map Str Str
  h1 = put (codes "X-Forwarded-Proto") proto m

  abbrev h2 : Map Str Str
  h2 = put (codes "X-Forwarded-Port") port h1

  abbrev h3 : Map Str Str
  h3 = put (codes "X-Forwarded-Host") value h2

  forwarded :
      (get (codes "X-Forwarded-Proto") h3 ≡ some proto)
      × (get (codes "X-Forwarded-Port") h3 ≡ some port)
      × (get (codes "X-Forwarded-Host") h3 ≡ some value)
  unfolding str_beq
  forwarded = (
    get-put_other (codes "X-Forwarded-Host") (codes "X-Forwarded-Proto") value h2 refl
        ∙ get-put_other (codes "X-Forwarded-Port") (codes "X-Forwarded-Proto") port h1 refl
        ∙ get-put_self (codes "X-Forwarded-Proto") proto m,
    get-put_other (codes "X-Forwarded-Host") (codes "X-Forwarded-Port") value h2 refl
        ∙ get-put_self (codes "X-Forwarded-Port") port h1,
    get-put_self (codes "X-Forwarded-Host") value h2,
  )

-- A backend sees the address of the connection as `X-Real-IP`, or no such header if the address cannot be
-- split, the scheme https, the port of the listener, and the host that the request names: whatever the client
-- put in those four headers, and whatever `SetURL` and `SetXForwarded` make of them.
pub rewrite-Trusted :
    (net : Net) (w : Want) (input copy : Request)
    → let sent = (rewrite net w input copy).headers in
      (get real_ip sent ≡ net.split_host input.remote_addr)
      × (get (codes "X-Forwarded-Proto") sent ≡ some (codes "https"))
      × (get (codes "X-Forwarded-Port") sent ≡ some (itoa w.port))
      × (get (codes "X-Forwarded-Host") sent ≡ some input.host)
unfolding rewrite set_real_ip str_beq
rewrite-Trusted net w input copy =
    let sent = net.set_url w.backend copy in
    let named = record sent { path = normalise_path sent.path; host = input.host } in
    let base = net.set_x_forwarded input named in
    let ip = net.split_host input.remote_addr in
    let set = set_forwarded w input base in
    let (proto, port, host) = forwarded input.host base.headers (codes "https") (itoa w.port) in
    (
      set_real_ip_self ip set,
      set_real_ip_other ip set (codes "X-Forwarded-Proto") refl ∙ proto,
      set_real_ip_other ip set (codes "X-Forwarded-Port") refl ∙ port,
      set_real_ip_other ip set (codes "X-Forwarded-Host") refl ∙ host,
    )
