-- ===== src/Cert/Asked.antt =====
-- cert.go: what the manager tells of its state. Each reads fields under the lock.
use nas_conn_plus.Base.{is_empty, Option, none, some, Bool, true, false, not, ◌&&◌}
use nas_conn_plus.Cert.{KeyPair, CertError, AcmeClient, Manager}

-- `Current`.
unfoldable pub current : Manager → Option KeyPair
current m = m.cur

abbrev has_client : Option AcmeClient → Bool
has_client none = false
has_client (some c) = true

-- `ACMEReady`.
unfoldable pub acme_ready : Manager → Bool
acme_ready m = m.acme_enabled && has_client m.acme_mgr

-- `ACMEInitError`.
unfoldable pub acme_init_error : Manager → Option CertError
acme_init_error m = m.acme_init_err

-- `AutoTrustEnabled`.
unfoldable pub auto_trust_enabled : Manager → Bool
auto_trust_enabled m = m.auto_trust

-- `LocalCATrusted`.
unfoldable pub local_ca_trusted : Manager → Bool
local_ca_trusted m = not (is_empty m.trusted_ca)

-- `LocalCATrustError`.
unfoldable pub local_ca_trust_error : Manager → Option CertError
local_ca_trust_error m = m.auto_trust_err
