-- ===== src/Cleanup/Tests.antt =====
-- Runs of the clean-up against a small controller, and its theorems at concrete values.
use osac_test_infra.Prelude.{
  ℕ, zero, suc, true, false, none, some, List, [], ◌∷◌, ◌≡◌, refl, All, any, codes, map,
}
use osac_test_infra.Text.{Text}
use osac_test_infra.Cleanup.{
  Kind, server_cluster, vpc, nat, vnet, Item, Netris, hits_vnet, is_nat_of, nat_orders, names_given,
  clean_up, orphan_names,
}
use osac_test_infra.Cleanup.Scope.{IsScoped, clean_up-IsScoped, clean_up-clean}

abbrev named : Text → Text → Item
named name vpc_name = record {
  id = some 7;
  name = name;
  vpc_id = none;
  vpc_name = vpc_name;
  is_system = false;
  is_default = false;
}

-- The NAT rule is there until something has been deleted.
abbrev listed : Kind → ℕ → List Item
listed server_cluster s = named (codes "order-a1") (codes "Default") ∷ []
listed vpc s = named (codes "order-a1") [] ∷ named (codes "Default") [] ∷ []
listed nat zero = named (codes "order-a1-snat") [] ∷ []
listed nat (suc s) = []
listed vnet s = named (codes "order-a12-net") (codes "other") ∷ []

abbrev controller : Netris ℕ
controller = record {
  get_list = λ kind s. some (listed kind s);
  delete = λ kind id s. (suc s, codes "204");
  active_orders = λ s. some [];
}

abbrev force : List Text
force = codes "order-a1" ∷ []

made :
    map (λ r. r.1.name) (clean_up controller force [] 0).1
    ≡ codes "order-a1-snat" ∷ codes "order-a1" ∷ codes "order-a12-net" ∷ codes "order-a1" ∷ []
unfolding clean_up
made = refl

ends_well : (clean_up controller force [] 0).2 ≡ true
unfolding clean_up
ends_well = refl

clean_up-IsScoped_example : All (IsScoped (names_given force)) ((clean_up controller force [] 0).1)
clean_up-IsScoped_example = clean_up-IsScoped controller force [] 0

clean_up-clean_example :
    (nats : List Item) × (controller.get_list nat (clean_up controller force [] 0).0 ≡ some nats)
    × (any (is_nat_of (nat_orders (names_given force) [])) nats ≡ false)
clean_up-clean_example = clean_up-clean controller force [] 0 ends_well

-- A V-Net of order-a12 is taken for one of order-a1, in whose name it begins.
longer_name_is_hit : hits_vnet force [] (named (codes "order-a12-net") (codes "other")) ≡ true
unfolding hits_vnet
longer_name_is_hit = refl

-- A targeted cluster in the default VPC makes each V-Net there a target, though the VPC itself stays.
default_vpc_is_hit :
    hits_vnet
      (orphan_names force (named (codes "order-a1") (codes "Default") ∷ []) [])
      []
      (named (codes "lab-net") (codes "Default"))
    ≡ true
unfolding hits_vnet orphan_names
default_vpc_is_hit = refl
