-- ===== src/Examples/Server.antt =====
-- The theorems on components/http-server/http_server.c, applied to a server with one open request.
use gate_lock_home_node.Base.{
  ℕ, zero, suc, EspErr, pos, same_text, strcmp, ◌≡◌, ◌≢◌, ◌↔◌, ◌≤◌, refl, false, Option, none, some,
  List, [], ◌∷◌, ◌++◌, arith, elem, esp_ok, replicate, length, codes, cstr, drop,
}
use gate_lock_home_node.Http.Types.{
  Httpd, Server, UriRecord, resp_set_status, resp_set_type, resp_set_hdr, resp_send, status,
  method_get, max_uri_length,
}
use gate_lock_home_node.Http.Async.{
  http_server_send_chunked_response, server_task, start_response, send_allocated, send_data,
  http_async_data_worker,
}
use gate_lock_home_node.Http.Async.Messages.{wire}
use gate_lock_home_node.Http.Async.Pools.{PoolsInv, TakesWork, send_chunked-PoolsInv}
use gate_lock_home_node.Http.Async.Delivery.{pending, handed_over, send_chunked-pending}
use gate_lock_home_node.Http.Async.History.{
  Event, sends, serves, run, run-PoolsInv, drain, rounds, history_delivered, history_frees,
}
use gate_lock_home_node.Http.Routes.{
  http_server_register_uri, find_uri, master_request_handler, null_write,
}
use gate_lock_home_node.Http.Routes.Table.{
  table, written, register_uri-find, register_uri-full, master_request_handler-null_iff,
}
use gate_lock_home_node.Http.Respond.{status_text, message, http_server_send_status_error}
use gate_lock_home_node.Http.Respond.Issued.{Issued, send_status_error-Issued}
use gate_lock_home_node.Examples.Pool.{pool, pool-BankLaws}

-- Every call succeeds.
abbrev pub httpd : Httpd
httpd = record {
  answer = λ cs c. esp_ok;
  uri_of = λ r. codes "/open";
  async_copy = λ r. r;
  to_sockfd = λ r. r;
  new_handle = 1;
}

pub httpd-TakesWork : TakesWork httpd
httpd-TakesWork cs w = refl

abbrev pub blank : UriRecord
blank = record { uri = replicate 16 0; callback = 0; method = method_get }

-- Slot 0 holds the request 7.
abbrev pub server : Server (List ℕ)
server = record {
  server_handle = some 1;
  uri_record = blank ∷ blank ∷ blank ∷ blank ∷ blank ∷ [];
  uri_count = 0;
  chunk_objs = λ c. record { len = 0; text = [] };
  chunk_bank = [];
  async_objs = λ i. record { req = 7; response_started = false };
  async_bank = 0 ∷ [];
  job_objs = λ j. record { slot = 0; chunk = 0 };
  job_bank = [];
  works = [];
  calls = [];
}

pub server-PoolsInv : PoolsInv pool server
server-PoolsInv = record {
  job_held = λ j. refl;
  chunk_held = λ c. refl;
  jobs_distinct = tt;
  chunks_distinct = tt;
  text_fits = λ c. refl;
}

abbrev events : List Event
events = sends 0 (some (codes "hi")) ∷ serves ∷ sends 0 (some (codes "you")) ∷ sends 0 none ∷ []

events-rounds : rounds (run httpd pool server events).works ≤ 3
unfolding server_task http_server_send_chunked_response send_allocated send_data
    http_async_data_worker start_response
events-rounds = omega arith

history_delivered_example :
    wire (drain httpd pool 3 (run httpd pool server events)).calls
    ≡ (7, some (codes "hi")) ∷ (7, some (codes "you")) ∷ (7, none) ∷ []
unfolding server_task http_server_send_chunked_response send_allocated send_data
    http_async_data_worker start_response cstr
history_delivered_example =
    history_delivered httpd pool pool-BankLaws httpd-TakesWork events server 3 server-PoolsInv
      events-rounds

history_frees_example :
    let t = drain httpd pool 3 (run httpd pool server events) in
    (elem 0 t.chunk_bank ≡ false) × (elem 0 t.job_bank ≡ false)
history_frees_example =
    history_frees httpd pool pool-BankLaws httpd-TakesWork events server 3 0 server-PoolsInv
      events-rounds

-- A server in which one job waits.
abbrev waiting : Server (List ℕ)
waiting = (http_server_send_chunked_response httpd pool 0 (some (codes "hi")) server).1

waiting-PoolsInv : PoolsInv pool waiting
waiting-PoolsInv =
    send_chunked-PoolsInv httpd pool pool-BankLaws httpd-TakesWork 0 (some (codes "hi")) server
      server-PoolsInv

run-PoolsInv_example : PoolsInv pool (run httpd pool server events)
run-PoolsInv_example =
    run-PoolsInv httpd pool pool-BankLaws httpd-TakesWork events server server-PoolsInv

send_chunked-pending_example :
    pending (http_server_send_chunked_response httpd pool 0 (some (codes "you")) waiting).1
    ≡ pending waiting ++ handed_over httpd pool 0 (some (codes "you")) waiting
send_chunked-pending_example =
    send_chunked-pending httpd pool pool-BankLaws httpd-TakesWork 0 (some (codes "you")) waiting
      waiting-PoolsInv

nuls-nil : (k n : ℕ) → cstr (drop n (replicate k 0)) ≡ []
unfolding cstr
nuls-nil zero zero = refl
nuls-nil zero (suc n) = refl
nuls-nil (suc k) zero = refl
nuls-nil (suc k) (suc n) = nuls-nil k n

open_fits : length (cstr (codes "/open")) ≤ max_uri_length
unfolding cstr
open_fits = omega arith

register_uri-find_example :
    (e : EspErr) × (t : Server (List ℕ)) × (http_server_register_uri httpd pool
        (some (codes "/open"))
        method_get
        (some 1)
        server
      ≡ some (e, t))
    × (find_uri (codes "/open") (table t)
        ≡ some (written httpd pool (codes "/open") method_get 1 blank))
unfolding find_uri cstr same_text strcmp
register_uri-find_example =
    register_uri-find httpd pool (codes "/open") method_get 1 server blank (codes "/open") open_fits
      refl (nuls-nil 16)

abbrev full : Server (List ℕ)
full = record server { uri_count = 5 }

register_uri-full_example :
    http_server_register_uri httpd pool (some (codes "/open")) method_get (some 1) full ≡ none
register_uri-full_example =
    register_uri-full httpd pool (codes "/open") method_get 1 full open_fits (omega arith)

-- The request of a URI that is not registered.
master_request_handler-null_iff_example :
    (master_request_handler httpd pool 7 server ≡ null_write)
    ↔ ((find_uri (codes "/open") [] ≢ none) × (◌≡◌ {A = Option ℕ} (some 1) none))
master_request_handler-null_iff_example = master_request_handler-null_iff httpd pool 7 server

send_status_error-Issued_example :
    let (r, t) = http_server_send_status_error httpd (some 7) (pos 503) none server in
    Issued httpd
      (resp_set_status 7 (status "503 Service Unavailable")
        ∷ resp_set_type 7 "text/plain"
        ∷ resp_set_hdr 7 "Cache-Control" "no-cache"
        ∷ resp_send 7 (codes "An error occurred")
        ∷ [])
      []
      r
      t.calls
unfolding status_text message
send_status_error-Issued_example = send_status_error-Issued httpd 7 (pos 503) none server
