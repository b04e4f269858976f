-- ===== src/Monitor/Client/Trust.antt =====
-- Whose status `xport monitor` shows: PollTarget of internal/monitor/client.go with a pinned target.
use go_xport.Common.{
  ◌≡◌, refl, false, List, [], ◌∷◌, Option, none, some, Bytes, codes, equal, hex, length, Bool-cases,
  inl, inr,
}
use go_xport.Monitor.Client.{Target, up, Report}
use go_xport.Monitor.Client.Polling.{
  Response, Web, answer_of, request, url_of, over_tls, poll_target,
}
use go_xport.Peers.{accepted}
use go_xport.Peers.Config.{TlsConfig}
use go_xport.Peers.Trust.{new_client_config-Shows}
use go_xport.Peers.Pinned.{Pins}
use go_xport.Wire.Stream.{hash_size}

-- What packages `net/http` and `crypto/tls` document: a request over TLS is answered only if the
-- callback has let in the certificates that the server presents.
pub record IsChecked (web : Web) (presented : Bytes → List Bytes) : Type 0 where
  pub checked :
      (url : Bytes) (cfg : TlsConfig) (resp : Response)
      → web.send url (some cfg) ≡ some resp
      → cfg.verify_peer (presented url) ≡ accepted

-- A status comes from an answer.
request-up :
    (web : Web) (url : Bytes) (cfg : Option TlsConfig) (st : Report)
    → request web url cfg ≡ up st
    → (resp : Response) × (web.send url cfg ≡ some resp)
unfolding request answer_of
request-up web url cfg st h = elim (Bool-cases (web.is_url url)) [
  | inl e ↦ answered (web.send url cfg) refl (rw e at h)
  | inr e ↦ absurd (cc (rw e at h))
]
  where
    answered :
        (o : Option Response)
        → web.send url cfg ≡ o
        → answer_of web o ≡ up st
        → (resp : Response) × (web.send url cfg ≡ some resp)
    answered none e h = absurd (cc)
    answered (some resp) e h = (resp, e)

module _ (sum256 : Bytes → Bytes) (length-sum256 : (b : Bytes) → length (sum256 b) ≡ hash_size)
    (load_key_pair : Bytes → Bytes → Option Bytes) (cert_file key_file : Bytes) where
  over_tls-up :
      (web : Web) (url : Bytes) (o : Option TlsConfig) (st : Report)
      → over_tls sum256 load_key_pair cert_file key_file web url o ≡ up st
      → (cfg : TlsConfig) × (o ≡ some cfg)
        × (resp : Response) × (web.send url (some cfg) ≡ some resp)
  over_tls-up web url none st h = absurd (cc)
  over_tls-up web url (some cfg) st h =
      let (resp, sent) = request-up web url (some cfg) st h in (cfg, refl, resp, sent)

  -- If polling a target with a fingerprint gives a status, the server at its https URL has presented
  -- certificates of which the first has that fingerprint, once the text is normalised. A request
  -- over TLS is answered only if the configured callback lets the server in, and a digest has 32
  -- bytes.
  pub poll_target-Pins :
      (web : Web) (presented : Bytes → List Bytes) (t : Target) (st : Report)
      → IsChecked web presented
      → equal t.fingerprint [] ≡ false
      → (poll_target sum256 load_key_pair cert_file key_file web t).answer ≡ up st
      → (der : Bytes) × (rest : List Bytes) × (presented (url_of (codes "https") t) ≡ der ∷ rest)
        × Pins (t.fingerprint ∷ []) (hex (sum256 der))
  unfolding poll_target
  poll_target-Pins web presented t st law pinned h =
      let url = url_of (codes "https") t in
      let (cfg, made, resp, sent) = over_tls-up web url _ st (rw pinned at h) in
      new_client_config-Shows sum256 length-sum256 load_key_pair cert_file key_file
        (t.fingerprint ∷ []) (presented url) cfg made (law.checked url cfg resp sent)
