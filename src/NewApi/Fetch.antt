-- ===== src/NewApi/Fetch.antt =====
-- `fetch_logs` of runner/newapi.py: the pages of a log, asked for one by one until all are read.
pub mod Laws
pub mod Snapshot
use yonwork_benchmark.Json.{Json, Fields, Items, get, is_truthy}
use yonwork_benchmark.Prelude.{
  ℕ, suc, Option, none, some, List, [], ◌∷◌, ◌++◌, Bool, true, false, ◌==◌, leb, is_empty, length,
  if◌then◌else◌, ◌&&◌, not,
}

-- `transport` is a `TransportError`, the others are the `NewApiError`s in the order of the source.
pub data FetchError : Type 0 where
  transport not_object unsuccessful no_items bad_item no_total total_changed cut_short : FetchError

pub data Fetched : Type 0 where
  fetched : List Fields → Fetched
  failed : FetchError → Fetched

-- What one response gives: its items and its `total`, or the first test that it does not pass.
pub data Page : Type 0 where
  page : List Fields → ℕ → Page
  bad_page : FetchError → Page

-- `none` where an item is no object.
unfoldable pub objects : Items → Option (List Fields)
objects Items.nil = some []
objects (Items.cons (Json.obj f) rest) = elim (objects rest) [
  | none ↦ none
  | some fs ↦ some (f ∷ fs)
]
objects (Items.cons _ rest) = none

unfoldable pub read_total : List Fields → Json → Page
read_total batch (Json.num total) = page batch total
read_total batch _ = bad_page FetchError.no_total

unfoldable pub read_items : Json → Json → Page
unfolding objects read_total
read_items (Json.arr items) total = elim (objects items) [
  | none ↦ bad_page FetchError.bad_item
  | some batch ↦ read_total batch total
]
read_items _ total = bad_page FetchError.no_items

unfoldable pub read_data : Json → Page
unfolding read_items get
read_data (Json.obj d) = read_items (get "items" d) (get "total" d)
read_data _ = bad_page FetchError.no_items

-- The response to one request; `none` where the request or the parsing of its body raises.
unfoldable pub read_page : Option Json → Page
unfolding read_data get is_truthy
read_page none = bad_page FetchError.transport
read_page (some (Json.obj payload)) =
    if is_truthy (get "success" payload)
    then read_data (get "data" payload)
    else bad_page FetchError.unsuccessful
read_page (some _) = bad_page FetchError.not_object

-- `expected_total is not None and total != expected_total`
unfoldable pub has_changed : Option ℕ → ℕ → Bool
has_changed none total = false
has_changed (some expected) total = not (total == expected)

-- What follows a page: the loop goes on, or ends.
pub data Next : Type 0 where
  again : List Fields → ℕ → Next
  stop : Fetched → Next

unfoldable pub turn_page : Option ℕ → List Fields → Page → Next
unfolding has_changed
turn_page expected items (bad_page e) = stop (failed e)
turn_page expected items (page batch total) =
    if has_changed expected total
    then stop (failed FetchError.total_changed)
    else if is_empty batch && not (leb total (length (items ++ batch)))
    then stop (failed FetchError.cut_short)
    else if leb total (length (items ++ batch))
    then stop (fetched (items ++ batch))
    else again (items ++ batch) total

-- The loop, for at most `fuel` pages; `reply p` is what the gateway answers when page `p` is asked
-- for. `none` is a loop that is not over.
unfoldable pub fetch_from : (ℕ → Option Json) → ℕ → ℕ → Option ℕ → List Fields → Option Fetched
unfolding turn_page read_page
fetch_from reply ℕ.zero p expected items = none
fetch_from reply (suc fuel) p expected items =
    elim (turn_page expected items (read_page (reply p))) [
      | stop result ↦ some result
      | again more total ↦ fetch_from reply fuel (suc p) (some total) more
    ]

-- The total that the first page announces, 0 if that page is bad.
unfoldable pub first_total : Page → ℕ
first_total (page batch total) = total
first_total (bad_page e) = 0

unfoldable pub fetch_logs : (ℕ → Option Json) → Option Fetched
unfolding fetch_from first_total read_page
fetch_logs reply = fetch_from reply (suc (first_total (read_page (reply 1)))) 1 none []
