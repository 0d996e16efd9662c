-- ===== src/Cleanup/Workers.antt =====
-- The deletion of the workers' bare-metal instances:
-- infra/netris/roles/force-destroy-caas/files/delete_worker_bmis.py. The service and the hub are a
-- state behind their calls, which are given; an output that cannot be read ends the process.
pub mod Gone
pub mod Tests
use osac_test_infra.Prelude.{
  ℕ, zero, suc, Bool, true, false, not, Option, none, some, List, [], ◌∷◌, ◌++◌, ◌&&◌,
  if◌then◌else◌, is_empty, any, map,
}
use osac_test_infra.Prelude.Search.{bytes_eq}
use osac_test_infra.Text.{Text, sorted_set}

-- A resource of the hub: its identifier, empty without the label, and whether it is on a worker.
pub record HubItem : Type 0 where
  pub bmi_id : Text
  pub is_worker : Bool

pub record ApiItem : Type 0 where
  pub id : Text
  pub deleting : Bool

-- `hub_bmis` and `api_bmis`, whether there are other clusters, a deletion and whether it failed, five
-- seconds of sleep, and whether the deadline has passed.
pub record Service (S : Type 0) : Type 0 where
  pub hub_bmis : S → Option (List HubItem)
  pub api_bmis : S → Option (List ApiItem)
  pub other_clusters : S → Option Bool
  pub delete : Text → S → S × Bool
  pub sleep : S → S
  pub is_overdue : S → Bool

abbrev pub is_in : Text → List Text → Bool
is_in key keys = any (bytes_eq key) keys

abbrev pub hub_ids : List HubItem → List Text
hub_ids items = map (λ i. i.bmi_id) items

abbrev pub api_ids : List ApiItem → List Text
api_ids items = map (λ i. i.id) items

-- The identifiers of the workers; a worker without one ends the process.
unfoldable pub worker_ids : List HubItem → Option (List Text)
worker_ids [] = some []
worker_ids (i ∷ items) =
    let rest = worker_ids items in
    if not i.is_worker
    then rest
    else if is_empty i.bmi_id
    then none
    else elim rest [ none ↦ none | some keys ↦ some (i.bmi_id ∷ keys) ]

unfoldable pub pending_ids : List ApiItem → List Text
pending_ids [] = []
pending_ids (i ∷ items) = let rest = pending_ids items in if i.deleting then i.id ∷ rest else rest

-- left - right, and left & right
unfoldable pub without : List Text → List Text → List Text
unfolding bytes_eq
without keys [] = []
without keys (key ∷ others) =
    let rest = without keys others in if is_in key keys then rest else key ∷ rest

unfoldable pub common : List Text → List Text → List Text
unfolding bytes_eq
common keys [] = []
common keys (key ∷ others) =
    let rest = common keys others in if is_in key keys then key ∷ rest else rest

unfoldable pub ambiguous : Bool → List Text → List Text → List Text → List Text
unfolding without
ambiguous other_clusters api pending targets =
    without targets (if other_clusters then pending else without pending api)

-- What is left: the state, the deletions asked for, and how it ended; `none` while the loop goes on.
abbrev pub Run : Type 0 → Type 0
Run S = S × List Text × Option Bool

module _ {S : Type 0} (service : Service S) where
  -- A failed deletion is one only if the record is still there.
  abbrev pub is_refused : Text → Bool → Option (List ApiItem) → Bool
  is_refused key false items = false
  is_refused key true none = true
  is_refused key true (some items) = is_in key (api_ids items)

  unfoldable pub delete_each : List Text → S → S × List Text × Bool
  delete_each [] s = (s, [], true)
  delete_each (key ∷ keys) s =
      let (s', has_failed) = service.delete key s in
      let (last, made, goes_on) = delete_each keys s' in
      if is_refused key has_failed (service.api_bmis s')
      then (s', key ∷ [], false)
      else (last, key ∷ made, goes_on)

  abbrev pub none_left : List Text → List ApiItem → List HubItem → Bool
  none_left targets api hub =
      is_empty (common (api_ids api) targets) && is_empty (common (hub_ids hub) targets)

  -- The loop, for some rounds.
  unfoldable pub wait_rounds : ℕ → List Text → S → S × Option Bool
  unfolding common
  wait_rounds zero targets s = (s, none)
  wait_rounds (suc rounds) targets s =
      let later = wait_rounds rounds targets (service.sleep s) in
      elim (service.api_bmis s) [
        | none ↦ (s, some false)
        | some api ↦ elim (service.hub_bmis s) [
          | none ↦ (s, some false)
          | some hub ↦
              if none_left targets api hub
              then (s, some true)
              else if service.is_overdue s
              then (s, some false)
              else later
        ]
      ]

  abbrev pub then_wait : ℕ → List Text → S × List Text × Bool → Run S
  then_wait rounds targets (s, made, false) = (s, made, some false)
  then_wait rounds targets (s, made, true) =
      let (s', ended) = wait_rounds rounds targets s in (s', made, ended)

  unfoldable pub delete_targets : ℕ → List Text → List ApiItem → S → Run S
  unfolding delete_each wait_rounds common sorted_set
  delete_targets rounds targets api s =
      if is_empty targets
      then (s, [], some true)
      else then_wait rounds targets (delete_each (sorted_set (common targets (api_ids api))) s)

  -- The script, whose loop is run for some rounds.
  unfoldable pub delete_workers : ℕ → S → Run S
  unfolding delete_targets worker_ids pending_ids ambiguous
  delete_workers rounds s = elim (service.hub_bmis s) [
    | none ↦ (s, [], some false)
    | some hub ↦ elim (worker_ids hub) [
      | none ↦ (s, [], some false)
      | some workers ↦ elim (service.api_bmis s) [
        | none ↦ (s, [], some false)
        | some api ↦ elim (service.other_clusters s) [
          | none ↦ (s, [], some false)
          | some others ↦
              if not (is_empty (ambiguous others (api_ids api) (pending_ids api) workers))
              then (s, [], some false)
              else delete_targets rounds (if others then workers else workers ++ pending_ids api)
                  api s
        ]
      ]
    ]
  ]
