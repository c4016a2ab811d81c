-- ===== src/Web.antt =====
-- The HTTP side: `serveRefresh`, `HandleIndex` and the routes of main.go.
pub mod Answers
pub mod Index
mod Tests
use Prim.Native.String.{String}
use text.Mathlib.Text.{◌==◌ as str_eq}
use zdash.Prelude.{
  ℕ, Bool, true, false, ◌||◌, List, [], ◌∷◌, ◌++◌, Option, none, some, if◌then◌else◌, Bytes, codes,
}
use zdash.Text.{cut}
use zdash.Refresh.{Refresher, Start, answer, join, launch, get}

pub record Response : Type 0 where
  pub status : ℕ
  pub headers : List (String × String)
  pub body : Bytes

-- `http.Error`
pub http_error : String → ℕ → Response
http_error msg code = record {
  status = code;
  headers =
      ("Content-Type", "text/plain; charset=utf-8") ∷ ("X-Content-Type-Options", "nosniff") ∷ [];
  body = codes msg ++ (b'\n' ∷ []);
}

-- What a request comes to: a response, or a wait for a fetch.
pub data Served : Type 0 where
  replied : Response → Served
  waits : (call : ℕ) → Served

-- the tail of `serveRefresh`, behind `cache.get`
unfoldable pub json_response : Bytes → ℕ → Response
json_response body status = record {
  status = status;
  headers = ("Content-Type", "application/json") ∷ ("Cache-Control", "no-store") ∷ [];
  body = body;
}

served : Refresher × Start → Refresher × Served
unfolding json_response
served (r, answer body status) = (r, replied (json_response body status))
served (r, join call) = (r, waits call)
served (r, launch call gen) = (r, waits call)

-- `serveRefresh`, up to a wait
unfoldable pub serve_refresh : String → ℕ → Refresher → String → ℕ → Refresher × Served
unfolding served http_error
serve_refresh method now r key call =
    if str_eq method "GET" || str_eq method "HEAD"
    then served (get now r key call)
    else (r, replied (http_error "Method not allowed" 405))

-- `bytes.Replace(data, old, new, 1)` for a non-empty `old`: with nothing to replace, the bytes of an
-- empty slice appended to nil are nil, which is `none`.
replace_first : Option (Bytes × Bytes) → Bytes → Bytes → Option Bytes
replace_first none [] new = none
replace_first none (c ∷ data_text) new = some (c ∷ data_text)
replace_first (some (before, after)) data_text new = some (before ++ (new ++ after))

-- `indexPage`, at what the embedded file system gives and the linked version
unfoldable pub index_page : Option Bytes → Bytes → Option Bytes
unfolding replace_first
index_page none version = none
index_page (some page) version = replace_first (cut page (codes "__ZDASH_VERSION__")) page version

pub html_response : Bytes → Response
html_response page = record {
  status = 200;
  headers = ("Content-Type", "text/html; charset=utf-8") ∷ [];
  body = page;
}

index_response : Option Bytes → Response
unfolding http_error html_response
index_response none = http_error "Internal Server Error: missing embedded resources" 500
index_response (some page) = html_response page

-- `HandleIndex`
unfoldable pub handle_index : Option Bytes → Bytes → Response
unfolding index_response index_page
handle_index file version = index_response (index_page file version)

pub data Handler : Type 0 where
  index : Handler
  api : (key : String) → Handler

-- The patterns of `main`, the handlers' keys of `HandleZPoolAPI`, `HandleARCAPI`, `HandleSysInfoAPI`
-- and `HandleSmartAPI` included: "GET /" takes every path that no other pattern takes, and a GET
-- pattern takes HEAD, too; `none` is the mux's own 405.
unfoldable pub route : String → String → Option Handler
route method path =
    if str_eq method "GET" || str_eq method "HEAD"
    then (if str_eq path "/api/zpool"
        then some (api "zpool")
        else if str_eq path "/api/arc"
        then some (api "arc")
        else if str_eq path "/api/sysinfo"
        then some (api "sysinfo")
        else if str_eq path "/api/smart"
        then some (api "smart")
        else some index)
    else none
