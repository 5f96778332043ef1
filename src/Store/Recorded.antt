-- ===== src/Store/Recorded.antt =====
-- `LineageStore` of crates/store/src/lineage.rs: the latest lineage of each dataset.
use hkgov_rethink.Prelude.{
  ◌≡◌, Bool, true, List, [], ◌∷◌, Option, none, some, Map, get, insert, values, sort_by, Ordering,
  text_cmp, then_with, same, get-insert, refl, ap, ◌∙◌, if◌then◌else◌,
}
use hkgov_rethink.Common.Sources.{DataSource, as_str, source_key}
use hkgov_rethink.Store.Ids.{DatasetId, DatasetLineage, id_key}

pub record LineageStore : Type 0 where
  pub inner : Map DatasetId DatasetLineage

abbrev pub dataset_of : DatasetLineage → DatasetId
dataset_of l = record { source = l.source; dataset = l.dataset }

unfoldable pub record_lineage : LineageStore → DatasetLineage → LineageStore
record_lineage s l = record { inner = insert (dataset_of l) l s.inner }

unfoldable pub find : LineageStore → DatasetId → Option DatasetLineage
find s id = get id s.inner

-- By the name of the source, then the dataset.
abbrev pub by_name : DatasetLineage → DatasetLineage → Ordering
by_name a b =
    then_with (text_cmp (as_str a.source) (as_str b.source)) (text_cmp a.dataset b.dataset)

-- `source.is_none_or(|s| s == id.source)`
abbrev pub is_from : Option DataSource → DataSource → Bool
is_from none d = true
is_from (some s) d = same s d

unfoldable pub entries_from : Option DataSource → Map DatasetId DatasetLineage → List DatasetLineage
entries_from source [] = []
entries_from source ((id, l) ∷ m) =
    let rest = entries_from source m in if is_from source id.source then l ∷ rest else rest

unfoldable pub list : LineageStore → Option DataSource → List DatasetLineage
unfolding entries_from
list s source = sort_by by_name (entries_from source s.inner)

unfoldable pub snapshot : LineageStore → List DatasetLineage
snapshot s = sort_by by_name (values s.inner)

unfoldable pub record_all : List DatasetLineage → LineageStore → LineageStore
unfolding record_lineage
record_all [] s = s
record_all (l ∷ ls) s = record_all ls (record_lineage s l)

-- What was there is cleared first.
unfoldable pub restore : LineageStore → List DatasetLineage → LineageStore
unfolding record_all
restore s snapshot = record_all snapshot (record { inner = [] })

-- The lineages that a snapshot holds for a dataset: the last one counts.
unfoldable pub last_for :
    DatasetId → List DatasetLineage → Option DatasetLineage → Option DatasetLineage
last_for id [] found = found
last_for id (l ∷ ls) found = last_for id ls (if same id (dataset_of l) then some l else found)

find-record_all :
    (id : DatasetId) (ls : List DatasetLineage) (s : LineageStore)
    → find (record_all ls s) id ≡ last_for id ls (find s id)
unfolding find record_all last_for
find-record_all id [] s = refl
find-record_all id (l ∷ ls) s =
    find-record_all id ls (record_lineage s l)
    ∙ ap (last_for id ls) (get-insert (dataset_of l) id l s.inner)

-- A restored store answers from the snapshot alone.
pub find-restore :
    (id : DatasetId) (ls : List DatasetLineage) (s : LineageStore)
    → find (restore s ls) id ≡ last_for id ls none
unfolding restore find get
find-restore id ls s = find-record_all id ls (record { inner = [] })
