-- ===== src/Grid/DataSource/Pages.antt =====
-- What the pages hold.
use dat.Prelude.{
  ℕ, zero, suc, Bool, true, false, ◌+◌, ◌-◌, ◌≤◌, ◌<◌, List, [], ◌∷◌, ◌++◌, Text, Option, some,
  none, leb, ltb, length, take, drop, concat, get_elem?, if◌then◌else◌, ◌≡◌, refl, sym, ap, ◌∙◌,
  arith, Bool-cases, inl, inr,
}
use mathlib.Core.Path.{subst}
use dat.Prelude.Results.{Result, ok}
use dat.Prelude.Slices.{get_elem?-take, get_elem?-drop_add}
use dat.Grid.DataSource.{
  LruCache, GridDataSource, ExecutePage, page_rows, page_start, select_all_sql, in_page, in_row,
  cell_at, page_for, fetch, serve, first_batch,
}

page_start-le : (row : ℕ) → (page_start row ≤ row) × (row < page_start row + page_rows)
page_start-le row = (omega arith, omega arith)

get_elem?-part {ℓ} :
    {A : Type ℓ} (xs ys : List A) (i : ℕ)
    → get_elem? xs i ≡ (if ltb i (length xs) then get_elem? (xs ++ ys) i else none)
get_elem?-part [] ys i = let none_below : ltb i 0 ≡ false = ground arith in rw none_below refl
get_elem?-part (x ∷ xs) ys zero =
    let first : ltb 0 (length (x ∷ xs)) ≡ true = ground arith in rw first refl
get_elem?-part (x ∷ xs) ys (suc i) =
    let same : ltb (suc i) (length (x ∷ xs)) ≡ ltb i (length xs) = ground arith in
    get_elem?-part xs ys i ∙ ap (λ b. if b then get_elem? (xs ++ ys) i else none) (sym same)

module _ {Cell : Type 0} where
  in_row-if :
      (b : Bool) (row : Option (List Cell)) (ix : ℕ)
      → in_row (if b then row else none) ix ≡ (if b then in_row row ix else none)
  in_row-if true row ix = refl
  in_row-if false row ix = refl

module _ {Cell : Type 0} (rows : List (List Cell)) where
  -- The page that begins at `start`.
  abbrev pub page : ℕ → List (List Cell)
  page start = take page_rows (drop start rows)

  -- A row of the table, read out of its page.
  in_page-page :
      (row ix : ℕ)
      → in_page (some (page (page_start row))) (row - page_start row) ix
        ≡ in_page (some rows) row ix
  in_page-page row ix =
      let (le, lt) = page_start-le row in
      ap (λ r. in_row r ix)
        (get_elem?-take (drop (page_start row) rows) page_rows (row - page_start row) (omega arith)
          ∙ get_elem?-drop_add rows (page_start row) (row - page_start row) row (omega arith))

  module _ {E : Type 0} (lru : LruCache (List (List Cell))) (empty_result : E)
      (execute_page : ExecutePage E (List (List Cell))) (table : Text) where
    -- The engine serves the table: the batches of a page that begins within it are the rows of the
    -- page, however they are cut, and there is one at least (`window_batches`).
    abbrev pub Serves : Type 0
    Serves =
        (start : ℕ)
        → start < length rows
        → (first : List (List Cell)) × (more : List (List (List Cell))) × (execute_page
              (select_all_sql table) start page_rows
            ≡ ok (first ∷ more))
          × (first ++ concat more ≡ page start)

    abbrev pub first_of : Result E (List (List (List Cell))) → List (List Cell)
    first_of (ok (batch ∷ _)) = batch
    first_of _ = []

    -- The first of the engine's batches of the page, and no row behind the table.
    abbrev pub first_part : ℕ → List (List Cell)
    first_part start =
        if leb (length rows) start
        then []
        else first_of (execute_page (select_all_sql table) start page_rows)

    first_part-page :
        (start : ℕ) → Serves → (rest : List (List Cell)) × (first_part start ++ rest ≡ page start)
    first_part-page start s = elim (Bool-cases (leb (length rows) start)) [
      | inl t ↦ rw t (page start, refl)
      | inr f ↦
          let (first, more, e, whole) = s start (ground arith) in
          rw f (concat more, ap (λ r. first_of r ++ concat more) e ∙ whole)
    ]

    -- The data source is on the table, and each cached page is the first batch of the table's.
    pub record IsValid (ds : GridDataSource lru.Cache) : Type 0 where
      pub on_table : ds.table_name ≡ table
      pub counted : ds.row_count ≡ length rows
      pub cached :
          (start : ℕ) (batch : List (List Cell))
          → (lru.get ds.cache start).0 ≡ some batch
          → batch ≡ first_part start

    put-IsValid :
        (ds : GridDataSource lru.Cache) (start : ℕ)
        → IsValid ds
        → IsValid (record ds { cache = lru.put ds.cache start (first_part start) })
    put-IsValid ds start i = record {
      on_table = i.on_table;
      counted = i.counted;
      cached = λ j batch e. elim (lru.get-put_other ds.cache start j (first_part start) batch e) [
        | inl (same, is) ↦ sym is ∙ ap first_part same
        | inr old ↦ i.cached j batch old
      ];
    }

    get-IsValid :
        (ds : GridDataSource lru.Cache) (start : ℕ)
        → IsValid ds
        → IsValid (record ds { cache = (lru.get ds.cache start).1 })
    get-IsValid ds start i = record {
      on_table = i.on_table;
      counted = i.counted;
      cached = λ j batch e. i.cached j batch (sym (lru.get-get ds.cache start j) ∙ e);
    }

    -- A call that returned the first batch of the page, and left it in the cache.
    pub record Serving (start : ℕ) (out : Result E (List (List Cell)) × GridDataSource lru.Cache)
        : Type 0 where
      pub returned : out.0 ≡ ok (first_part start)
      pub valid : IsValid out.1
      pub in_cache : (lru.get out.1.cache start).0 ≡ some (first_part start)

    put-Serving :
        (ds : GridDataSource lru.Cache) (start : ℕ)
        → IsValid ds
        → Serving start
            (ok (first_part start), record ds { cache = lru.put ds.cache start (first_part start) })
    put-Serving ds start i = record {
      returned = refl;
      valid = put-IsValid ds start i;
      in_cache = lru.get-put ds.cache start (first_part start);
    }

    fetch-Serving :
        (ds : GridDataSource lru.Cache) (start : ℕ)
        → Serves
        → IsValid ds
        → Serving start (fetch lru empty_result execute_page ds start)
    fetch-Serving ds start s i = elim (Bool-cases (leb (length rows) start)) [
      | inl t ↦
          let beyond : leb ds.row_count start ≡ true = ap (λ n. leb n start) i.counted ∙ t in
          let none_left : first_part start ≡ [] = rw t refl in
          rw beyond (
            subst (λ b. Serving start (ok b, record ds { cache = lru.put ds.cache start b }))
              none_left (put-Serving ds start i))
      | inr f ↦
          let within : leb ds.row_count start ≡ false = ap (λ n. leb n start) i.counted ∙ f in
          let (first, more, e, _) = s start (ground arith) in
          let is_first : first_part start ≡ first = rw f (ap first_of e) in
          rw within (
            subst (λ r. Serving start (first_batch lru empty_result execute_page ds start r))
              (sym (ap (λ t. execute_page (select_all_sql t) start page_rows) i.on_table ∙ e))
              (subst (λ b. Serving start (ok b, record ds { cache = lru.put ds.cache start b }))
                is_first (put-Serving ds start i)))
    ]

    page_for-Serving :
        (ds : GridDataSource lru.Cache) (row : ℕ)
        → Serves
        → IsValid ds
        → Serving (page_start row) (page_for lru empty_result execute_page ds row)
    unfolding page_for
    page_for-Serving ds row s i = by_entry (lru.get ds.cache start).0 refl
      where
        start : ℕ
        start = page_start row

        by_entry :
            (o : Option (List (List Cell)))
            → (lru.get ds.cache start).0 ≡ o
            → Serving start
                (serve lru empty_result execute_page ds start (o, (lru.get ds.cache start).1))
        by_entry none e =
            fetch-Serving (record ds { cache = (lru.get ds.cache start).1 }) start s
              (get-IsValid ds start i)
        by_entry (some batch) e = record {
          returned = ap ok (i.cached start batch e);
          valid = get-IsValid ds start i;
          in_cache = lru.get-get ds.cache start start ∙ e ∙ ap some (i.cached start batch e);
        }

    -- A row of the page, read out of its first batch.
    in_page-first_part :
        (row ix : ℕ)
        → Serves
        → in_page (some (first_part (page_start row))) (row - page_start row) ix ≡ (
            if ltb (row - page_start row) (length (first_part (page_start row)))
            then in_page (some rows) row ix
            else none)
    in_page-first_part row ix s =
        let start = page_start row in
        let (rest, e) = first_part-page start s in
        let b = ltb (row - start) (length (first_part start)) in
        ap (λ r. in_row r ix) (get_elem?-part (first_part start) rest (row - start))
        ∙ in_row-if b (get_elem? (first_part start ++ rest) (row - start)) ix
        ∙ ap (λ l. if b then in_page (some l) (row - start) ix else none) e
        ∙ ap (λ c. if b then c else none) (in_page-page row ix)

    -- Where the engine serves the table and each cached page is the first batch of the table's: for
    -- every row there is an answer, the first batch of the page of that row, with which the page
    -- begins, and the cached pages are as they were said to be. A cell of a row of that page is then
    -- read as it stands in the table where the row is in the first batch; behind that batch every
    -- cell is read as none, also where the table has the row.
    pub page_for_lem :
        (ds : GridDataSource lru.Cache) (row r ix : ℕ)
        → Serves
        → IsValid ds
        → page_start r ≡ page_start row
        → let out = page_for lru empty_result execute_page ds row in
          let batch = first_part (page_start row) in
          (out.0 ≡ ok batch)
          × ((rest : List (List Cell)) × (batch ++ rest ≡ page (page_start row)))
          × IsValid out.1
          × ((cell_at lru out.1 r ix).0
              ≡ (if ltb (r - page_start r) (length batch) then in_page (some rows) r ix else none))
    page_for_lem ds row r ix s i e =
        let k = page_for-Serving ds row s i in
        (
          k.returned,
          first_part-page (page_start row) s,
          k.valid,
          ap (λ b. in_page b (r - page_start r) ix)
                (ap (λ j. (lru.get (page_for lru empty_result execute_page ds row).1.cache j).0) e
                  ∙ k.in_cache
                  ∙ ap (λ j. some (first_part j)) (sym e))
              ∙ in_page-first_part r ix s
              ∙ ap
                  (λ j.
                    if ltb (r - page_start r) (length (first_part j))
                    then in_page (some rows) r ix
                    else none)
                  e,
        )
