-- ===== src/Cleanup/Workers/Tests.antt =====
-- The deletion of the workers' instances run against a small service.
use osac_test_infra.Prelude.{ℕ, zero, suc, true, false, some, List, [], ◌∷◌, ◌≡◌, refl, All, codes}
use osac_test_infra.Cleanup.Workers.{HubItem, ApiItem, Service, delete_workers}
use osac_test_infra.Cleanup.Workers.Gone.{IsGone, delete_workers-IsGone}

-- Two steps after the deletion is asked for, both records are gone.
abbrev hub_at : ℕ → List HubItem
hub_at zero = record { bmi_id = codes "w1"; is_worker = true } ∷ []
hub_at (suc zero) = record { bmi_id = codes "w1"; is_worker = true } ∷ []
hub_at (suc (suc s)) = []

abbrev api_at : ℕ → List ApiItem
api_at zero =
    record { id = codes "w1"; deleting = false } ∷ record { id = codes "w2"; deleting = true } ∷ []
api_at (suc s) = []

abbrev service : Service ℕ
service = record {
  hub_bmis = λ s. some (hub_at s);
  api_bmis = λ s. some (api_at s);
  other_clusters = λ s. some false;
  delete = λ key s. (suc s, false);
  sleep = λ s. suc s;
  is_overdue = λ s. false;
}

asked_for : (delete_workers service 3 0).1 ≡ codes "w1" ∷ codes "w2" ∷ []
unfolding delete_workers
asked_for = refl

ends_well : (delete_workers service 3 0).2 ≡ some true
unfolding delete_workers
ends_well = refl

delete_workers-IsGone_example :
    All (IsGone service ((delete_workers service 3 0).0)) ((delete_workers service 3 0).1)
delete_workers-IsGone_example = delete_workers-IsGone service 3 0 ends_well
