-- ===== src/Store/Listing.antt =====
-- `list_executions` of src/harel/engine/store/dict.py, with its cursors.
use harel.Prelude.{
  ℕ, suc, ◌-◌, String, Bool, true, false, not, ◌&&◌, ◌==◌, Option, none, some, List, map, keep, any,
  sorted, take, drop, length, is_some, if◌then◌else◌, show, ◌^^◌,
}
use harel.Prelude.Int.{ℤ, pos, negsuc, ◌+ℤ◌, ltb_ℤ}
use harel.Execution.{ExecutionSummary, Status, summary_of}
use harel.Store.{Memory}
use harel.Store.Pending.{text_leb}

abbrev pub same_status : Status → Status → Bool
same_status Status.pending Status.pending = true
same_status Status.running Status.running = true
same_status Status.done Status.done = true
same_status Status.cancelled Status.cancelled = true
same_status Status.suspended Status.suspended = true
same_status Status.cancelling Status.cancelling = true
same_status Status.failed Status.failed = true
same_status _ _ = false

pub record Query : Type 0 where
  pub status : Option (List Status)
  pub definition_id : Option String
  pub roots_only : Bool

unfoldable pub query_matches : Query → ExecutionSummary → Bool
query_matches q s =
    (elim q.status [ none ↦ true | some ss ↦ any (same_status s.status) ss ])
    && ((elim q.definition_id [ none ↦ true | some d ↦ s.definition_id == d ])
        && not (q.roots_only && is_some s.parent_id))

-- The summaries asked for, in the order of their ids.
unfoldable pub listed : Memory → Query → List ExecutionSummary
listed m q =
    sorted (λ (a : ExecutionSummary). λ (b : ExecutionSummary). text_leb a.id b.id)
      (keep (query_matches q) (map (λ (e : String × ℕ). summary_of (m.heap (e.1))) m.store.by_id))

pub record ExecutionPage : Type 0 where
  pub items : List ExecutionSummary
  pub next_cursor : Option String

-- What the cursors take from Python's library. `b64encode` and `b64decode`: `base64.urlsafe_b64encode`
-- and `urlsafe_b64decode` between texts, over `encode()` and `decode()`; `int_of`: `int` of a text.
-- `none`: ValueError.
pub record Codec : Type 0 where
  pub b64encode : String → String
  pub b64decode : String → Option String
  pub int_of : String → Option ℤ

-- `str(offset)`
abbrev pub show_int : ℤ → String
show_int (pos n) = show n
show_int (negsuc n) = "-" ^^ show (suc n)

unfoldable pub encode_offset : Codec → ℤ → String
encode_offset c offset = c.b64encode (show_int offset)

abbrev pub or_start : Option ℤ → ℤ
or_start none = pos 0
or_start (some n) = n

unfoldable pub decode_offset : Codec → Option String → ℤ
decode_offset c none = pos 0
decode_offset c (some cursor) =
    if cursor == ""
    then pos 0
    else or_start (elim (c.b64decode cursor) [ none ↦ none | some s ↦ c.int_of s ])

-- Where an index of a slice stands in a list of this length; a negative one counts from the end.
abbrev pub slice_index : ℕ → ℤ → ℕ
slice_index len (pos n) = n
slice_index len (negsuc n) = len - suc n

-- `xs[i:j]`
abbrev pub slice : ℤ → ℤ → List ExecutionSummary → List ExecutionSummary
slice i j xs =
    let from = slice_index (length xs) i in take (slice_index (length xs) j - from) (drop from xs)

unfoldable pub list_executions : Codec → Memory → Query → ℕ → Option String → ExecutionPage
list_executions c m q limit cursor =
    let summaries = listed m q in
    let off = decode_offset c cursor in
    let next = off +ℤ pos limit in
    record {
      items = slice off next summaries;
      next_cursor =
          if ltb_ℤ next (pos (length summaries)) then some (encode_offset c next) else none;
    }
