-- ===== src/Http/Types.antt =====
-- components/http-server/http_server.c and http_server.h: the data of the server, the calls that
-- it makes on esp_http_server, and the two external parts that it stands on.
use gate_lock_home_node.Base.{
  ℕ, Bool, Option, List, EspErr, ℤ, ◌≡◌, none, some, if◌then◌else◌, ◌==◌, ◌||◌, false,
}
use Prim.Native.String.{String}

abbrev pub max_uris : ℕ
max_uris = 5

abbrev pub max_uri_length : ℕ
max_uri_length = 15

abbrev pub log_chunk_size : ℕ
log_chunk_size = 256

abbrev pub log_chunk_pool : ℕ
log_chunk_pool = 4

abbrev pub max_async_requests : ℕ
max_async_requests = 4

abbrev pub send_job_pool : ℕ
send_job_pool = 4

-- An object of a pool is known by its place in the pool's array, a request by a number that stands
-- for its `httpd_req_t *`.
pub record Slot : Type 0 where
  pub req : ℕ
  pub response_started : Bool

-- `text` is the array `data`.
pub record Chunk : Type 0 where
  pub len : ℕ
  pub text : List ℕ

pub record SendJob : Type 0 where
  pub slot : ℕ
  pub chunk : ℕ

pub data Method : Type 0 where
  method_get method_post : Method

-- `callback` is a `request_callback`.
pub record UriRecord : Type 0 where
  pub uri : List ℕ
  pub callback : ℕ
  pub method : Method

-- The functions that the server hands to `httpd_queue_work`, each with its argument.
pub data Work : Type 0 where
  async_data_worker async_close_worker async_finalize_worker : ℕ → Work

-- A status line: a literal, or the text that `snprintf` makes of "%d Error".
pub data Status : Type 0 where
  status : String → Status
  code_error : ℤ → Status

-- The calls on esp_http_server, by their arguments. A chunk of `none` ends the response.
pub data Call : Type 0 where
  resp_set_status : ℕ → Status → Call
  resp_set_type : ℕ → String → Call
  resp_set_hdr : ℕ → String → String → Call
  resp_send_chunk : ℕ → Option (List ℕ) → Call
  resp_send : ℕ → List ℕ → Call
  async_handler_begin : ℕ → Call
  async_handler_complete : ℕ → Call
  trigger_close : ℕ → Call
  queue_work : Work → Call
  register_uri_handler : List ℕ → Call
  start : ℕ → ℕ → Call
  stop : Call
  create_mutex : Call

-- What esp_http_server answers. The result of a call may depend on every call made before it, the
-- newest first; `uri_of` is the field `uri` of a request, `async_copy` the copy that
-- `httpd_req_async_handler_begin` makes (it is taken to succeed: the source does not test its result,
-- and where it fails uses a pointer that nothing has set), `to_sockfd` the socket of a request, and `new_handle` the
-- handle that a successful `httpd_start` stores.
pub record Httpd : Type 0 where
  pub answer : List Call → Call → EspErr
  pub uri_of : ℕ → List ℕ
  pub async_copy : ℕ → ℕ
  pub to_sockfd : ℕ → ℕ
  pub new_handle : ℕ

-- bank_pool.h, which is not part of the repository: a pool of blocks, each known by its place in
-- the array that was registered. `held` says which blocks are handed out.
pub record Bank (S : Type 0) : Type 0 where
  pub register_pool : ℕ → S
  pub alloc : S → Option ℕ × S
  pub free : S → ℕ → S
  pub held : S → ℕ → Bool

-- What the server relies on: a block that is handed out was free, a failed allocation changes
-- nothing, and freeing a block frees that block.
pub record BankLaws {S : Type 0} (bank : Bank S) : Type 0 where
  pub alloc_fresh : (b : S) (i : ℕ) → (bank.alloc b).0 ≡ some i → bank.held b i ≡ false
  pub alloc_held :
      (b : S) (i j : ℕ)
      → (bank.alloc b).0 ≡ some i
      → bank.held (bank.alloc b).1 j ≡ (j == i || bank.held b j)
  pub alloc_none :
      (b : S) (j : ℕ) → (bank.alloc b).0 ≡ none → bank.held (bank.alloc b).1 j ≡ bank.held b j
  pub free_held :
      (b : S) (i j : ℕ) → bank.held (bank.free b i) j ≡ (if j == i then false else bank.held b j)

-- The static data of http_server.c, the works that esp_http_server has taken and not yet run
-- (oldest first), and the calls made so far (newest first).
pub record Server (S : Type 0) : Type 0 where
  pub server_handle : Option ℕ
  pub uri_record : List UriRecord
  pub uri_count : ℕ
  pub chunk_objs : ℕ → Chunk
  pub chunk_bank : S
  pub async_objs : ℕ → Slot
  pub async_bank : S
  pub job_objs : ℕ → SendJob
  pub job_bank : S
  pub works : List Work
  pub calls : List Call
