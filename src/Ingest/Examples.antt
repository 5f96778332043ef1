-- ===== src/Ingest/Examples.antt =====
-- Witnesses and tests of the ingest, over a cache that evicts at once.
use hkgov_rethink.Prelude.{
  Text, ◌++◌, map, err, leb, if◌then◌else◌, arith, ◌≡◌, refl, List, [], ◌∷◌, none, some, text, All,
  ok, inr, get, decimal,
}
use hkgov_rethink.Common.Sources.{hkp}
use hkgov_rethink.Common.Model.{NormalizedRecord, str, property, daily, DatasetMeta}
use hkgov_rethink.Store.Ids.{DatasetId, DatasetLineage, csv, id_key}
use hkgov_rethink.Store.Cache.{Cache, IsCache}
use hkgov_rethink.Store.Memory.{MemoryStore, RegisteredMeta, meta, lineage, get_page}
use hkgov_rethink.Store.Lineage.{content_hash}
use hkgov_rethink.Ingest.{Fetched, sanitize_records, refresh_once, fetch_once}
use hkgov_rethink.Ingest.Caps.{IsCapped}
use hkgov_rethink.Ingest.Refresh.{refresh_lem}
use hkgov_rethink.Ingest.Limited.{read_text_limited, read_text_limited_lem, over_cap, broken_read}

abbrev nothing : Cache (Unit {0})
nothing = record { lookup = λ d m. none; store = λ d e m. m }

nothing-IsCache : IsCache nothing
nothing-IsCache = record {
  lookup_stored = λ d e m. inr refl;
  lookup_other = λ d d' e m ne. inr refl;
}

abbrev deals : DatasetId
deals = record { source = hkp; dataset = text "transactions" }

abbrev two : List NormalizedRecord
two =
    record {
      source = hkp;
      dataset = text "transactions";
      record_id = text "a";
      fields = (text "price", str (text "1")) ∷ [];
      fetched_at = 5;
    }
    ∷ record {
      source = hkp;
      dataset = text "transactions";
      record_id = text "b";
      fields = [];
      fetched_at = 5;
    }
    ∷ []

abbrev fetched : Fetched
fetched = record { upstream_url = none; upstream_format = csv; outcome = ok two }

abbrev registered : RegisteredMeta
registered = record {
  title = text "Deals";
  description = none;
  refresh_interval_secs = 3600;
  category = property;
  tags = [];
  cadence = daily;
  last_record_count = 0;
  last_refreshed_at = none;
}

abbrev cold : MemoryStore (Unit {0})
cold = record { records = tt; registry = (deals, registered) ∷ []; lineage = [] }

refresh_lem_example :
    let s = refresh_once (λ x. x) decimal nothing 7 8 deals fetched cold in
    (fetch_once (λ x. x) decimal nothing 7 8 deals fetched cold ≡ (s, ok 2))
    × ((x : DatasetMeta) × (meta nothing deals s ≡ some x)
        × (x.record_count ≡ 2)
        × (x.last_refreshed_at ≡ some 8))
    × ((l : DatasetLineage) × (lineage nothing deals s ≡ some l)
        × (l.record_count_at_fetch ≡ 2)
        × (l.content_sha256 ≡ content_hash (λ x. x) decimal (sanitize_records two)))
    × All IsCapped (get_page nothing deals 0 10 s).records
unfolding get
refresh_lem_example =
    refresh_lem (λ x. x) decimal nothing nothing-IsCache 7 8 deals fetched cold two registered 0 10
      refl refl

abbrev as_is : Text → Text
as_is s = s

-- Two chunks of three bytes and a broken one, under a cap of eight bytes.
read_text_limited_lem_example :
    (read_text_limited as_is (text "hkma") 8 (map ok (text "abc" ∷ text "def" ∷ []))
      ≡ (if leb 6 8 then ok (text "abcdef") else err (over_cap (text "hkma") 8)))
    × (read_text_limited as_is
          (text "hkma")
          8
          (map ok (text "abc" ∷ text "def" ∷ []) ++ err (text "reset") ∷ [])
        ≡ (if leb 6 8
            then err (broken_read (text "hkma") (text "reset"))
            else err (over_cap (text "hkma") 8)))
read_text_limited_lem_example =
    read_text_limited_lem as_is (text "hkma") 8 (text "abc" ∷ text "def" ∷ []) (text "reset") []
      (ground (arith))
