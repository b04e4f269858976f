-- ===== src/Monitor/Client/Table.antt =====
-- The rows of RenderTable in internal/monitor/client.go, in front of their layout by `fmt.Printf`.
use go_xport.Common.{ℕ, List, [], ◌∷◌, ◌++◌, Bytes, codes, to_upper}
use go_xport.Monitor.Client.{PollError, Answer, down, up, PollResult, Shown, format_bytes}

-- `strings.Join(parts, "; ")`
unfoldable pub join : List Bytes → Bytes
join [] = []
join (part ∷ []) = part
join (part ∷ more ∷ parts) = part ++ (codes "; " ++ join (more ∷ parts))

-- A row; one of a node that is down has "-" in the cells between.
pub data Row : Type 0 where
  down_row : Bytes → PollError → Row
  node_row : Bytes → Bytes → Bytes → ℕ → Shown → ℕ → ℕ → ℕ → ℕ → ℕ → Bytes → Row

abbrev pub row_of : Bytes → Answer → Row
row_of address (down e) = down_row address e
row_of address (up st) =
    node_row st.node_id st.role (to_upper st.state) st.files_total (format_bytes st.bytes_total)
      st.errors_total st.waiting_files st.failed_files st.last_ok_seconds st.free_percent
      (join st.active_issues)

unfoldable pub render_table : List PollResult → List Row
render_table [] = []
render_table (res ∷ results) = row_of res.target.address res.answer ∷ render_table results
