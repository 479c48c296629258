-- ===== src/Http/Routes/Table.antt =====
-- The table of URIs of components/http-server/http_server.c, and the requests that it routes.
use gate_lock_home_node.Base.{
  ℕ, zero, suc, ◌+◌, ◌≤◌, ◌≡◌, ◌≢◌, ◌↔◌, refl, ap, ◌∙◌, Bool, false, Option, none, some, List, [],
  ◌∷◌, ◌++◌, arith, EspErr, length, take, drop, set, get_elem?, cstr, cstr_no_nul, same_text, elem,
  if◌then◌else◌, le→ltb_false, strcmp,
}
use native.Mathlib.Numerals.{add-one}
use gate_lock_home_node.Http.Types.{
  Httpd, Bank, Server, UriRecord, Method, max_uri_length, register_uri_handler,
}
use gate_lock_home_node.Http.Routes.{
  find_uri, http_server_register_uri, handle_found, master_request_handler, null_write,
}

-- The records that are in use.
abbrev pub table : {S : Type 0} → Server S → List UriRecord
table s = take s.uri_count s.uri_record

-- A record that was never written: its array is all NULs.
abbrev pub IsBlank : UriRecord → Type 0
IsBlank r = (n : ℕ) → cstr (drop n r.uri) ≡ []

abbrev pub or_else : Option UriRecord → Option UriRecord → Option UriRecord
or_else none b = b
or_else (some a) b = some a

take-set :
    (xs : List UriRecord) (n : ℕ) (old v : UriRecord)
    → get_elem? xs n ≡ some old
    → take (suc n) (set xs n v) ≡ take n xs ++ v ∷ []
take-set [] n old v h = cc
take-set (x ∷ xs) zero old v h = refl
take-set (x ∷ xs) (suc n) old v h = ap (◌∷◌ x) (take-set xs n old v h)

find_uri-append :
    (u : List ℕ) (xs ys : List UriRecord)
    → find_uri u (xs ++ ys) ≡ or_else (find_uri u xs) (find_uri u ys)
unfolding find_uri
find_uri-append u [] ys = refl
find_uri-append u (x ∷ xs) ys = ground (arith, find_uri-append u xs ys)

cstr-append : (t rest : List ℕ) → elem 0 t ≡ false → cstr rest ≡ [] → cstr (t ++ rest) ≡ t
unfolding cstr
cstr-append [] rest h e = e
cstr-append (c ∷ t) rest h e = ground (arith, cstr-append t rest)

same_text-cong : (a b u : List ℕ) → cstr a ≡ cstr b → same_text a u ≡ same_text b u
unfolding same_text strcmp
same_text-cong a b u e = rw (same_text, e)

get_elem?_past : (xs : List UriRecord) (n : ℕ) → length xs ≤ n → get_elem? xs n ≡ none
get_elem?_past [] n h = refl
get_elem?_past (x ∷ xs) zero h = absurd (omega arith)
get_elem?_past (x ∷ xs) (suc n) h = get_elem?_past xs n (omega arith)

module _ {S : Type 0} (env : Httpd) (bank : Bank S) where
  -- The record that a registration writes.
  abbrev pub written : List ℕ → Method → ℕ → UriRecord → UriRecord
  written uri method cb old = record {
    uri = cstr uri ++ drop (length (cstr uri)) old.uri;
    callback = cb;
    method = method;
  }

  -- The server after a registration that finds a record.
  abbrev pub registered : List ℕ → Method → ℕ → UriRecord → Server S → Server S
  registered uri method cb old s = record s {
    uri_record = set s.uri_record s.uri_count (written uri method cb old);
    uri_count = s.uri_count + 1;
    calls = register_uri_handler (written uri method cb old).uri ∷ s.calls;
  }

  pub register_uri-registered :
      (uri : List ℕ) (method : Method) (cb : ℕ) (s : Server S) (old : UriRecord)
      → length (cstr uri) ≤ max_uri_length
      → get_elem? s.uri_record s.uri_count ≡ some old
      → http_server_register_uri env bank (some uri) method (some cb) s
        ≡ some (
          env.answer s.calls (register_uri_handler (written uri method cb old).uri),
          registered uri method cb old s,
        )
  unfolding http_server_register_uri
  register_uri-registered uri method cb s old short free =
      rw (le→ltb_false max_uri_length (length (cstr uri)) short, free) refl

  pub registered-find :
      (uri : List ℕ) (method : Method) (cb : ℕ) (s : Server S) (old : UriRecord) (u : List ℕ)
      → get_elem? s.uri_record s.uri_count ≡ some old
      → IsBlank old
      → find_uri u (table (registered uri method cb old s))
        ≡ or_else
            (find_uri u (table s))
            (if same_text uri u then some (written uri method cb old) else none)
  unfolding find_uri
  registered-find uri method cb s old u free blank =
      ap (λ (n : ℕ). find_uri u (take n (set s.uri_record s.uri_count new))) (add-one s.uri_count)
      ∙ ap (find_uri u) (take-set s.uri_record s.uri_count old new free)
      ∙ find_uri-append u (table s) (new ∷ [])
      ∙ ap (λ (b : Bool). or_else (find_uri u (table s)) (if b then some new else none))
          (same_text-cong new.uri uri u
            (cstr-append (cstr uri) (drop (length (cstr uri)) old.uri) (cstr_no_nul uri) (blank _)))
    where
      new : UriRecord
      new = written uri method cb old

  -- Registering a URI of at most 15 bytes, while the table's next record exists and is blank,
  -- returns, and from then on a request's URI is routed to the record it was routed to before, or,
  -- if it was not known, to the new record if it is the registered text.
  pub register_uri-find :
      (uri : List ℕ) (method : Method) (cb : ℕ) (s : Server S) (old : UriRecord) (u : List ℕ)
      → length (cstr uri) ≤ max_uri_length
      → get_elem? s.uri_record s.uri_count ≡ some old
      → IsBlank old
      → (e : EspErr) × (t : Server S) × (http_server_register_uri env bank
            (some uri)
            method
            (some cb)
            s
          ≡ some (e, t))
        × (find_uri u (table t)
            ≡ or_else
                (find_uri u (table s))
                (if same_text uri u then some (written uri method cb old) else none))
  register_uri-find uri method cb s old u short free blank = (
    env.answer s.calls (register_uri_handler (written uri method cb old).uri),
    registered uri method cb old s,
    register_uri-registered uri method cb s old short free,
    registered-find uri method cb s old u free blank,
  )

  -- If the table is full (as many URIs were counted as it has records), the registration of a URI
  -- of at most 15 bytes with a callback is a write past the table.
  pub register_uri-full :
      (uri : List ℕ) (method : Method) (cb : ℕ) (s : Server S)
      → length (cstr uri) ≤ max_uri_length
      → length s.uri_record ≤ s.uri_count
      → http_server_register_uri env bank (some uri) method (some cb) s ≡ none
  unfolding http_server_register_uri
  register_uri-full uri method cb s short full =
      rw
        (
          le→ltb_false max_uri_length (length (cstr uri)) short,
          get_elem?_past s.uri_record s.uri_count full,
        )
        refl

  handle_found-null_iff :
      (req : ℕ) (o : Option UriRecord) (s : Server S)
      → (handle_found env bank req o s ≡ null_write)
        ↔ ((o ≢ none) × ((bank.alloc s.async_bank).0 ≡ none))
  unfolding handle_found
  handle_found-null_iff req none s = (λ h. absurd (ground arith), λ h. absurd (h.0 refl))
  handle_found-null_iff req (some r) s = (λ h. (λ e. cc, ground arith), λ h. ground (arith, h.1))

  -- The handler writes through NULL exactly if the request's URI is registered and the pool of
  -- slots is empty.
  pub master_request_handler-null_iff :
      (req : ℕ) (s : Server S)
      → (master_request_handler env bank req s ≡ null_write)
        ↔ ((find_uri (env.uri_of req) (table s) ≢ none) × ((bank.alloc s.async_bank).0 ≡ none))
  unfolding master_request_handler
  master_request_handler-null_iff req s =
      handle_found-null_iff req (find_uri (env.uri_of req) (table s)) s
