-- ===== src/Engine/Query/Results.antt =====
-- The sets of results of workloads/no_sql_db/wasm-src/dbquery.c: pages of 63 rows in a list, a cursor that
-- writes and one that reads. Page `k` is the one that is allocated after `k` others, so that the next page
-- of `k` is `k + 1`; `none` stands for NULL. Whether the memory pool gives a page is an argument.
pub mod Rows
pub mod Fetch
use wasm_cloud_computing_ben.Prelude.{
  ℕ, zero, suc, ◌+◌, ◌-◌, Bool, true, false, if◌then◌else◌, ltb, leb, ◌==◌, ◌&&◌, Option, none,
  some, List, [], ◌∷◌,
}
use wasm_cloud_computing_ben.Prelude.Int.{ℤ, pos, neg}

abbrev pub query_resultset_pagesize : ℕ
query_resultset_pagesize = 63

-- The page that is written is the last one, if there is any.
pub record ResultSet : Type 0 where
  pub rows : ℕ → ℕ → ℕ
  pub page_count : ℕ
  pub write_pidx : ℕ
  pub read_page : Option ℕ
  pub read_pidx : ℕ
  pub res_count : ℕ

unfoldable pub empty_resultset : ResultSet
empty_resultset = record {
  rows = λ k i. 0;
  page_count = 0;
  write_pidx = query_resultset_pagesize;
  read_page = none;
  read_pidx = 0;
  res_count = 0;
}

-- The Boolean arguments are whether the set and its memory pool can be allocated.
unfoldable pub create_resultset : Bool → Bool → Option ResultSet
create_resultset made_set made_pool =
    if made_set then (if made_pool then some empty_resultset else none) else none

unfoldable pub rewind_resultset : ResultSet → ResultSet
rewind_resultset set = record set {
  read_page = if set.page_count == 0 then none else some 0;
  read_pidx = 0;
}

-- The new page; the first one is also where reading begins.
unfoldable pub add_page : ResultSet → ResultSet
add_page set = record set {
  rows = λ k i. if k == set.page_count then 0 else set.rows k i;
  page_count = set.page_count + 1;
  write_pidx = 0;
  read_page = if set.page_count == 0 then some 0 else set.read_page;
}

unfoldable pub write_row : ResultSet → ℕ → ResultSet
write_row set offset = record set {
  rows = λ k i. if k == set.page_count - 1 && i == set.write_pidx then offset else set.rows k i;
  write_pidx = set.write_pidx + 1;
  res_count = set.res_count + 1;
}

unfoldable pub append_resultset : Bool → ResultSet → ℕ → ℤ × ResultSet
append_resultset has_page set offset =
    if leb query_resultset_pagesize set.write_pidx
    then (if has_page then (pos 0, write_row (add_page set) offset) else (neg 1, set))
    else (pos 0, write_row set offset)

-- The read cursor behind a row that is not 0.
unfoldable pub next_row : ResultSet → ℕ → ResultSet
next_row set k =
    if leb query_resultset_pagesize (set.read_pidx + 1)
    then record set {
      read_page = if ltb (k + 1) set.page_count then some (k + 1) else none;
      read_pidx = 0;
    }
    else record set { read_pidx = set.read_pidx + 1 }

-- The fetch from the page at which the read cursor stands.
unfoldable pub fetch_page : ResultSet → Option ℕ → ℕ × ResultSet
fetch_page set none = (0, set)
fetch_page set (some k) =
    let offset = set.rows k set.read_pidx in
    if offset == 0
    then (0, record set { read_page = none; read_pidx = set.read_pidx + 1 })
    else (offset, next_row set k)

unfoldable pub fetch_resultset : ResultSet → ℕ × ResultSet
fetch_resultset set = fetch_page set set.read_page

-- The loop `while((offset = fetch_resultset(db, set)))`: the offsets that it sees; `none` is a lack of fuel.
unfoldable pub fetch_loop : ℕ → ResultSet → Option (List ℕ)
fetch_loop zero set = none
fetch_loop (suc fuel) set =
    let (offset, set') = fetch_resultset set in
    let rest : Option (List ℕ) = elim (fetch_loop fuel set') [
      | none ↦ none
      | some offsets ↦ some (offset ∷ offsets)
    ] in
    if offset == 0 then some [] else rest
