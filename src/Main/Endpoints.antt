-- ===== src/Main/Endpoints.antt =====
-- The endpoints that main/home-node.c registers, and which handler a URI then reaches.
use gate_lock_home_node.Base.{
  ℕ, ◌≤◌, ◌≡◌, refl, ap, ◌∙◌, Option, none, some, List, [], ◌∷◌, arith, length, cstr, codes,
  same_text, get_elem?, if◌then◌else◌,
}
use gate_lock_home_node.Http.Types.{Bank, Server, UriRecord, method_get, max_uri_length}
use gate_lock_home_node.Http.Routes.{find_uri}
use gate_lock_home_node.Http.Routes.Table.{
  table, IsBlank, registered, register_uri-registered, registered-find,
}
use gate_lock_home_node.Node.Types.{NodeEnv}
use gate_lock_home_node.Node.Request.{
  Handler, gate_close_handler, gate_open_handler, log_handler, ota_update_handler, handler_id,
  register_endpoints, register,
}
use gate_lock_home_node.Main.App.{request_config}

-- The routing that the endpoints promise: the handler of a URI, if it has one.
abbrev pub route : List ℕ → Option ℕ
route u =
    if same_text (codes "/close-gate") u
    then some (handler_id gate_close_handler)
    else if same_text (codes "/open-gate") u
    then some (handler_id gate_open_handler)
    else if same_text (codes "/get-log") u
    then some (handler_id log_handler)
    else if same_text (codes "/ota-update") u
    then some (handler_id ota_update_handler)
    else none

abbrev pub callback_of : Option UriRecord → Option ℕ
callback_of none = none
callback_of (some r) = some r.callback

-- A table in which no URI was ever registered.
pub record FreshTable (records : List UriRecord) : Type 0 where
  pub b0 : UriRecord
  pub b1 : UriRecord
  pub b2 : UriRecord
  pub b3 : UriRecord
  pub b4 : UriRecord
  pub five : records ≡ b0 ∷ b1 ∷ b2 ∷ b3 ∷ b4 ∷ []
  pub blank0 : IsBlank b0
  pub blank1 : IsBlank b1
  pub blank2 : IsBlank b2
  pub blank3 : IsBlank b3

module _ {S : Type 0} (env : NodeEnv) (bank : Bank S) where
  register_lem :
      (uri : List ℕ) (h : Handler) (s : Server S) (old : UriRecord)
      → length (cstr uri) ≤ max_uri_length
      → get_elem? s.uri_record s.uri_count ≡ some old
      → register env bank (some uri) h (some s)
        ≡ some (registered env.httpd bank uri method_get (handler_id h) old s)
  register_lem uri h s old short free =
      rw
        (
          register_uri-registered env.httpd bank uri method_get (handler_id h) s old short free,
          register,
        )
        refl

endpoints_short :
    (length (cstr (codes "/close-gate")) ≤ max_uri_length)
    × (length (cstr (codes "/open-gate")) ≤ max_uri_length)
    × (length (cstr (codes "/get-log")) ≤ max_uri_length)
    × (length (cstr (codes "/ota-update")) ≤ max_uri_length)
unfolding cstr
endpoints_short = omega arith

module _ {S : Type 0} (env : NodeEnv) (bank : Bank S) (s : Server S)
    (f : FreshTable s.uri_record) where
  abbrev s0 : Server S
  s0 = record s { uri_record = f.b0 ∷ f.b1 ∷ f.b2 ∷ f.b3 ∷ f.b4 ∷ []; uri_count = 0 }

  abbrev s1 : Server S
  s1 = registered env.httpd bank (codes "/close-gate") method_get 0 f.b0 s0

  abbrev s2 : Server S
  s2 = registered env.httpd bank (codes "/open-gate") method_get 1 f.b1 s1

  abbrev s3 : Server S
  s3 = registered env.httpd bank (codes "/get-log") method_get 2 f.b2 s2

  abbrev pub with_endpoints : Server S
  with_endpoints = registered env.httpd bank (codes "/ota-update") method_get 3 f.b3 s3

  s0_lem : s.uri_count ≡ 0 → s ≡ s0
  s0_lem h = λ i. record s { uri_record = f.five i; uri_count = h i }

  pub register_endpoints-registered :
      s.uri_count ≡ 0 → register_endpoints env bank request_config s ≡ some with_endpoints
  register_endpoints-registered h =
      let (close, open_gate, log, update) = endpoints_short in
      let next =
        λ (uri : List ℕ) (k : Handler) (o : Option (Server S)). register env bank (some uri) k o in
      ap (register_endpoints env bank request_config) (s0_lem h)
      ∙ ap
          (λ (o : Option (Server S)).
            next (codes "/ota-update") ota_update_handler
              (next (codes "/get-log") log_handler (next (codes "/open-gate") gate_open_handler o)))
          (register_lem env bank (codes "/close-gate") gate_close_handler s0 f.b0 close refl)
      ∙ ap
          (λ (o : Option (Server S)).
            next (codes "/ota-update") ota_update_handler (next (codes "/get-log") log_handler o))
          (register_lem env bank (codes "/open-gate") gate_open_handler s1 f.b1 open_gate refl)
      ∙ ap (next (codes "/ota-update") ota_update_handler)
          (register_lem env bank (codes "/get-log") log_handler s2 f.b2 log refl)
      ∙ register_lem env bank (codes "/ota-update") ota_update_handler s3 f.b3 update refl

  pub with_endpoints-route :
      (u : List ℕ) → callback_of (find_uri u (table with_endpoints)) ≡ route u
  unfolding find_uri
  with_endpoints-route u = ground (
    arith,
    registered-find env.httpd bank (codes "/close-gate") method_get 0 s0 f.b0 u refl f.blank0,
    registered-find env.httpd bank (codes "/open-gate") method_get 1 s1 f.b1 u refl f.blank1,
    registered-find env.httpd bank (codes "/get-log") method_get 2 s2 f.b2 u refl f.blank2,
    registered-find env.httpd bank (codes "/ota-update") method_get 3 s3 f.b3 u refl f.blank3,
  )
