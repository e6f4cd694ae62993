-- ===== src/Store/Pages.antt =====
-- The pages of the in-memory store's listing, read one after another.
use harel.Prelude.{
  ℕ, zero, suc, ◌+◌, ◌-◌, ◌≤◌, ◌<◌, String, ◌≡◌, refl, sym, ap, ◌∙◌, ◌↔◌, false, ltb, Option, none,
  some, List, ◌++◌, ◌==◌, eq_iff, arith, drop, take, length, length-drop, take-drop, drop-drop,
  take_all, Bool-cases, inl, inr, In, show,
}
use harel.Prelude.Int.{pos, ◌+ℤ◌, ltb_ℤ}
use harel.Execution.{ExecutionSummary}
use harel.Store.{Memory}
use harel.Store.Listing.{Query, listed, Codec, encode_offset, decode_offset, slice, list_executions}
use harel.Store.Listed.{IsStored, IsAsked, IsById, listed-IsAsked, listed-IsById}

unfoldable pub join_pages :
    List ExecutionSummary
    → Option String
    → Option (List ExecutionSummary)
    → Option (List ExecutionSummary)
join_pages items none rest = some items
join_pages items (some c) none = none
join_pages items (some c) (some more) = some (items ++ more)

-- All pages from a cursor on, of at most this many.
unfoldable pub read_pages :
    Codec → Memory → Query → ℕ → ℕ → Option String → Option (List ExecutionSummary)
read_pages c m q limit zero cursor = none
read_pages c m q limit (suc n) cursor =
    let page = list_executions c m q limit cursor in
    join_pages page.items page.next_cursor (read_pages c m q limit n page.next_cursor)

add_pos : (a b : ℕ) → pos a +ℤ pos b ≡ pos (a + b)
unfolding ◌+ℤ◌
add_pos a b = ground arith

ltb_pos : (a b : ℕ) → ltb_ℤ (pos a) (pos b) ≡ ltb a b
ltb_pos a b = ground arith

slice_pos :
    (a b : ℕ) (xs : List ExecutionSummary) → slice (pos a) (pos (a + b)) xs ≡ take b (drop a xs)
slice_pos a b xs = let e : a + b - a ≡ b = omega arith in rw e refl

module _ (c : Codec) (decodes : (s : String) → c.b64decode (c.b64encode s) ≡ some s)
    (not_blank : (s : String) → c.b64encode s ≡ "" → s ≡ "")
    (reads : (n : ℕ) → c.int_of (show n) ≡ some (pos n)) (reads_nothing : c.int_of "" ≡ none) where
  -- The cursor of an offset is not the blank one, which stands for the start.
  cursor_shown : (n : ℕ) → (encode_offset c (pos n) == "") ≡ false
  unfolding encode_offset
  cursor_shown n = elim (Bool-cases (c.b64encode (show n) == "")) [
    | inr e ↦ e
    | inl e ↦
        let blank = not_blank (show n) ((eq_iff (c.b64encode (show n)) "").0 e) in
        absurd (cc (reads n, reads_nothing, blank))
  ]

  decode-encode : (n : ℕ) → decode_offset c (some (encode_offset c (pos n))) ≡ pos n
  unfolding decode_offset encode_offset
  decode-encode n = rw (cursor_shown n, decodes (show n), reads n) refl

  module _ (m : Memory) (q : Query) (limit : ℕ) (positive : 1 ≤ limit) where
    last_page :
        (n k : ℕ) (cursor : Option String)
        → decode_offset c cursor ≡ pos k
        → ltb (k + limit) (length (listed m q)) ≡ false
        → read_pages c m q limit (suc n) cursor ≡ some (drop k (listed m q))
    unfolding read_pages list_executions join_pages
    last_page n k cursor d h =
        rw (d, add_pos, ltb_pos, slice_pos, h)
          (ap some
            (take_all limit (drop k (listed m q)) (ground (arith, h, length-drop k (listed m q)))))

    pages_from :
        (n k : ℕ) (cursor : Option String)
        → decode_offset c cursor ≡ pos k
        → length (listed m q) - k < n
        → read_pages c m q limit n cursor ≡ some (drop k (listed m q))
    unfolding read_pages list_executions join_pages
    pages_from zero k cursor d h = absurd (omega arith)
    pages_from (suc n) k cursor d h = elim (Bool-cases (ltb (k + limit) (length (listed m q)))) [
      | inr e ↦ last_page n k cursor d e
      | inl e ↦
          let rest =
            pages_from n (k + limit) (some (encode_offset c (pos (k + limit))))
              (decode-encode (k + limit)) (ground (arith, h, e, positive)) in
          rw (d, add_pos, ltb_pos, slice_pos, e, rest)
            (ap some (
              ap (λ (l : List ExecutionSummary). take limit (drop k (listed m q)) ++ l)
                (sym (drop-drop k limit (listed m q)))
              ∙ take-drop limit (drop k (listed m q))))
    ]

    -- Reading the pages of a listing one after another, from no cursor and then each from the cursor of the
    -- page before, ends and gives a list in the order of the ids that has just the summaries of the stored executions with an
    -- allowed status, the definition asked for, and no parent where only roots are asked for. The limit
    -- is positive, and the pages read may be one more than the summaries. Base64 decodes what it encodes
    -- and makes nothing of nothing only; `int` reads what `str` writes of a number, and refuses a blank.
    pub read_pages_all :
        (n : ℕ)
        → length (listed m q) < n
        → (items : List ExecutionSummary) × (read_pages c m q limit n none ≡ some items)
          × IsById items
          × ((s : ExecutionSummary) → In s items ↔ (IsStored m s × IsAsked q s))
    unfolding decode_offset
    read_pages_all n h = (
      listed m q,
      pages_from n 0 none refl (ground (arith, h)),
      listed-IsById m q,
      listed-IsAsked m q,
    )
