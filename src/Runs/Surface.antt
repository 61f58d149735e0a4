-- ===== src/Runs/Surface.antt =====
-- The HTTP surface at concrete states.
use go_smsc_simulator.Common.{ap, ◌≤◌, ◌≡◌, ◌≢◌, refl, arith, List, [], ◌∷◌, length, All, codes}
use mathlib.Core.List.{Perm}
use mathlib.Core.List.Perm
use go_smsc_simulator.Recorder.{RecordedPdu, new, snapshot}
use go_smsc_simulator.Recorder.Snapshot.{append_all}
use go_smsc_simulator.Smsc.Binds.{BindInfo}
use go_smsc_simulator.Smsc.Create.{new_virtual_smsc}
use go_smsc_simulator.Smsc.Views.{view_of_bind, view, views}
use go_smsc_simulator.Smsc.Views.Order.{Ascending, views_exact}
use go_smsc_simulator.Observability.{
  page_limit, parse_uint, Query, written, smsc, pdus, bind_views, clock, filter_of, serve_http,
}
use go_smsc_simulator.Observability.Pages.{all_filter, fetch, concat}
use go_smsc_simulator.Observability.Paging.{fetch_exact}
use go_smsc_simulator.Observability.Own.{path_of, serve_http-own}
use go_smsc_simulator.Runs.Configs.{carrier}
use go_smsc_simulator.Runs.Clocks.{first_kept}

-- Texts for the page size and the index: "7", "0", "+12", "1001", "x" and none.
page_limits :
    page_limit (codes "7")
      ∷ page_limit (codes "0")
      ∷ page_limit (codes "+12")
      ∷ page_limit (codes "1001")
      ∷ page_limit (codes "x")
      ∷ page_limit []
      ∷ []
    ≡ 7 ∷ 1000 ∷ 12 ∷ 1000 ∷ 1000 ∷ 1000 ∷ []
unfolding page_limit
page_limits = refl

since_texts :
    parse_uint (codes "42")
      ∷ parse_uint (codes "-1")
      ∷ parse_uint (codes "18446744073709551616")
      ∷ []
    ≡ 42 ∷ 0 ∷ 0 ∷ []
unfolding parse_uint
since_texts = refl

abbrev second_bind : BindInfo
second_bind = record { id = 2; system_id = codes "b"; bind_type = codes "transceiver" }

abbrev first_bind : BindInfo
first_bind = record { id = 1; system_id = codes "a"; bind_type = codes "transmitter" }

views_exact_example :
    (views (second_bind ∷ first_bind ∷ []) ≡ views (first_bind ∷ second_bind ∷ []))
    × Ascending (views (second_bind ∷ first_bind ∷ []))
    × Perm
        (views (second_bind ∷ first_bind ∷ []))
        (view_of_bind second_bind ∷ view_of_bind first_bind ∷ [])
views_exact_example =
    views_exact (second_bind ∷ first_bind ∷ []) (first_bind ∷ second_bind ∷ [])
      ((λ e. absurd (omega arith), tt), (tt, tt)) (Perm.swap _ _ [])

-- Three records in a journal that holds two, fetched one by one.
abbrev three_kept : List RecordedPdu
three_kept = first_kept ∷ first_kept ∷ first_kept ∷ []

fetch_exact_example :
    (concat (fetch 3 (append_all (new 2) three_kept) [] [] (codes "1") 0)
      ≡ snapshot (append_all (new 2) three_kept) (all_filter [] [] 0))
    × All
        (λ (page : List RecordedPdu). length page ≤ 1000)
        (fetch 3 (append_all (new 2) three_kept) [] [] (codes "1") 0)
fetch_exact_example = fetch_exact 3 2 three_kept [] [] (codes "1") 0 (omega arith) (omega arith)

abbrev no_query : Query
no_query = record { source_addr = []; dest_addr = []; since = []; limit = [] }

named : length (codes "slow") ≢ 0
named e = absurd (omega arith)

delete_get : codes "DELETE" ≢ codes "GET"
delete_get e = absurd (omega (arith, ap length e))

delete_head : codes "DELETE" ≢ codes "HEAD"
delete_head e = absurd (omega (arith, ap length e))

serve_http-own_example :
    (serve_http
        (codes "GET")
        (path_of (codes "slow") [])
        no_query
        (new_virtual_smsc (carrier 2775) ∷ [])
      ≡ written (smsc (view (new_virtual_smsc (carrier 2775)))))
    × (serve_http
          (codes "GET")
          (path_of (codes "slow") (codes "received-pdus" ∷ []))
          no_query
          (new_virtual_smsc (carrier 2775) ∷ [])
        ≡ written (pdus (snapshot (new_virtual_smsc (carrier 2775)).recorder (filter_of no_query))))
    × (serve_http
          (codes "GET")
          (path_of (codes "slow") (codes "binds" ∷ []))
          no_query
          (new_virtual_smsc (carrier 2775) ∷ [])
        ≡ written (bind_views (views (new_virtual_smsc (carrier 2775)).binds)))
    × (serve_http
          (codes "GET")
          (path_of (codes "slow") (codes "logical-clock" ∷ []))
          no_query
          (new_virtual_smsc (carrier 2775) ∷ [])
        ≡ written (clock (new_virtual_smsc (carrier 2775)).logical_clock))
    × ((serve_http
          (codes "DELETE")
          (path_of (codes "slow") [])
          no_query
          (new_virtual_smsc (carrier 2775) ∷ [])).status
        ≡ 405)
unfolding new_virtual_smsc
serve_http-own_example =
    serve_http-own no_query (new_virtual_smsc (carrier 2775) ∷ []) 0
      (new_virtual_smsc (carrier 2775)) (codes "DELETE") (tt, tt) refl named delete_get delete_head
