-- ===== src/Cleanup/Scope.antt =====
-- What netris_orphan_cleanup.py deletes, and what is left after it.
use osac_test_infra.Prelude.{
  Bool, true, false, not, Option, none, some, List, [], ◌∷◌, ◌≡◌, refl, ◌&&◌, All, All-append,
  Bool-cases, inl, inr, is_empty, any, codes, ◌||◌, both_true, neither, if◌then◌else◌,
}
use osac_test_infra.Prelude.Search.{bytes_eq, starts_with}
use osac_test_infra.Text.{Text}
use osac_test_infra.Cleanup.{
  is_order_name, is_protected, Kind, server_cluster, vpc, nat, vnet, Item, Netris, Run,
  should_delete, is_target_vpc, select, orphan_names, orphan_vpc_ids, nat_orders, is_nat_of,
  hits_nat, hits_vnet, is_done, missing_is_done, prepend, then_run, delete_each, with_list,
  check_rest, delete_vpcs, delete_vnets, delete_targets, is_free, is_order_pattern, names_given,
  clean_listed, clean_up,
}

-- A server cluster is named by a targeted order, and so is a VPC, which is no system or default one.
unfoldable pub IsScoped : List Text → Kind × Item → Type 0
IsScoped force (server_cluster, item) =
    (starts_with (codes "order-") item.name ≡ true) × (any (bytes_eq item.name) force ≡ true)
IsScoped force (vpc, item) =
    (starts_with (codes "order-") item.name ≡ true)
    × (any (bytes_eq item.name) force ≡ true)
    × (item.is_system ≡ false)
    × (item.is_default ≡ false)
IsScoped force (nat, item) = Unit
IsScoped force (vnet, item) = Unit

AreScoped : List Text → List (Kind × Item) → Type 0
AreScoped force requests = All (IsScoped force) requests

is_false : (b : Bool) → not b ≡ true → b ≡ false
is_false true h = absurd (cc)
is_false false h = refl

target_cluster :
    (force : List Text) (item : Item)
    → should_delete force item.name ≡ true
    → IsScoped force (server_cluster, item)
unfolding IsScoped should_delete is_order_name
target_cluster force item h =
    both_true (starts_with (codes "order-") item.name) (any (bytes_eq item.name) force) h

target_vpc :
    (force : List Text) (item : Item) → is_target_vpc force item ≡ true → IsScoped force (vpc, item)
unfolding IsScoped should_delete is_order_name is_protected
target_vpc force item h =
    let named = starts_with (codes "order-") item.name && any (bytes_eq item.name) force in
    let reserved = any (bytes_eq item.name) (codes "Default" ∷ codes "ocp-sno" ∷ []) in
    let (d, p) = both_true named (not (item.is_system || (item.is_default || reserved))) h in
    let (a, b) =
      both_true (starts_with (codes "order-") item.name) (any (bytes_eq item.name) force) d in
    let (c, r) =
      neither item.is_system (item.is_default || reserved)
        (is_false (item.is_system || (item.is_default || reserved)) p) in
    (a, b, c, (neither item.is_default reserved r).0)

All-select :
    (hit : Item → Bool) (P : Item → Type 0)
    → ((i : Item) → hit i ≡ true → P i)
    → (items : List Item) → All P (select hit items)
unfolding select
All-select hit P h [] = tt
All-select hit P h (item ∷ items) = elim (Bool-cases (hit item)) [
  | inl e ↦ rw e (h item e, All-select hit P h items)
  | inr e ↦ rw e (All-select hit P h items)
]

module _ {S : Type 0} (netris : Netris S) (force : List Text) where
  then_run-AreScoped :
      (r : Run S) (f : S → Run S)
      → AreScoped force (r.1)
      → ((s : S) → AreScoped force ((f s).1))
      → AreScoped force ((then_run r f).1)
  unfolding AreScoped
  then_run-AreScoped (s, made, true) f a h = All-append (IsScoped force) made ((f s).1) a (h s)
  then_run-AreScoped (s, made, false) f a h = a

  delete_each-AreScoped :
      (kind : Kind) (items : List Item) (s : S)
      → All (λ i. IsScoped force (kind, i)) items
      → AreScoped force ((delete_each netris kind items s).1)
  unfolding delete_each AreScoped
  delete_each-AreScoped kind [] s a = tt
  delete_each-AreScoped kind (item ∷ items) s (h, a) =
      let (s', code) = netris.delete kind item.id s in
      elim (Bool-cases (is_done (missing_is_done kind) (netris.delete kind item.id s).1)) [
        | inl e ↦ rw e (h, delete_each-AreScoped kind items (netris.delete kind item.id s).0 a)
        | inr e ↦ rw e (h, tt)
      ]

  with_list-AreScoped :
      (o : Option (List Item)) (s : S) (f : List Item → Run S)
      → ((items : List Item) → AreScoped force ((f items).1))
      → AreScoped force ((with_list netris o s f).1)
  unfolding AreScoped
  with_list-AreScoped none s f h = tt
  with_list-AreScoped (some items) s f h = h items

  anything : (items : List Item) → All {A = Item} (λ i. Unit {0}) items
  anything [] = tt
  anything (item ∷ items) = (tt, anything items)

  delete_targets-AreScoped :
      (orphan : Text) (clusters vpcs nats : List Item) (s : S)
      → AreScoped force ((delete_targets netris force orphan clusters vpcs nats s).1)
  unfolding delete_targets IsScoped AreScoped
  delete_targets-AreScoped orphan clusters vpcs nats s =
      let targets = select (λ c. should_delete force c.name) clusters in
      let target_vpcs = select (is_target_vpc force) vpcs in
      let names = orphan_names force targets target_vpcs in
      let numbers = orphan_vpc_ids targets target_vpcs in
      let orders = nat_orders force orphan in
      let check = λ (t : S). check_rest netris orders t in
      let vpcs_gone = λ (t : S). then_run (delete_vpcs netris force t) check in
      let vnets_gone = λ (t : S). then_run (delete_vnets netris names numbers t) vpcs_gone in
      let clusters_gone =
        λ (t : S). then_run (delete_each netris server_cluster targets t) vnets_gone in
      let hit_nats = select (hits_nat orders names numbers) nats in
      then_run-AreScoped (delete_each netris nat hit_nats s) clusters_gone
        (delete_each-AreScoped nat hit_nats s (anything hit_nats))
        (λ t.
          then_run-AreScoped (delete_each netris server_cluster targets t) vnets_gone
            (delete_each-AreScoped server_cluster targets t (
              All-select (λ c. should_delete force c.name) (λ i. IsScoped force (server_cluster, i))
                (target_cluster force) clusters))
            (λ u.
              then_run-AreScoped (delete_vnets netris names numbers u) vpcs_gone
                (with_list-AreScoped (netris.get_list vnet u) u
                  (λ vnets. delete_each netris vnet (select (hits_vnet names numbers) vnets) u)
                  (λ vnets.
                    delete_each-AreScoped vnet (select (hits_vnet names numbers) vnets) u
                      (anything (select (hits_vnet names numbers) vnets))))
                (λ v.
                  then_run-AreScoped (delete_vpcs netris force v) check
                    (with_list-AreScoped (netris.get_list vpc v) v
                      (λ later. delete_each netris vpc (select (is_target_vpc force) later) v)
                      (λ later. delete_each-AreScoped vpc (select (is_target_vpc force) later) v (
                        All-select (is_target_vpc force) (λ i. IsScoped force (vpc, i))
                          (target_vpc force) later)))
                    (λ w.
                      with_list-AreScoped (netris.get_list nat w) w
                        (λ left. (w, [], not (any (is_nat_of orders) left))) (λ left. tt)))))

  clean_listed-AreScoped :
      (orphan : Text) (s : S) → AreScoped force ((clean_listed netris force orphan s).1)
  unfolding AreScoped clean_listed
  clean_listed-AreScoped orphan s =
      let last = λ (clusters vpcs nats : List Item).
        if is_free netris orphan (netris.active_orders s)
        then delete_targets netris force orphan clusters vpcs nats s
        else (s, [], false) in
      let third = λ (clusters vpcs : List Item).
        with_list netris (netris.get_list nat s) s (last clusters vpcs) in
      let second =
        λ (clusters : List Item). with_list netris (netris.get_list vpc s) s (third clusters) in
      with_list-AreScoped (netris.get_list server_cluster s) s second (λ clusters.
        with_list-AreScoped (netris.get_list vpc s) s (third clusters) (λ vpcs.
          with_list-AreScoped (netris.get_list nat s) s (last clusters vpcs) (λ nats.
            elim (Bool-cases (is_free netris orphan (netris.active_orders s))) [
              | inl e ↦ rw e (delete_targets-AreScoped orphan clusters vpcs nats s)
              | inr e ↦ rw e tt
            ])))

module _ {S : Type 0} (netris : Netris S) where
  -- Whatever the controller answers, each server cluster that is asked to be deleted is named by a
  -- targeted order, and so is each VPC, none of which is a system or default one.
  pub clean_up-IsScoped :
      (force : List Text) (orphan : Text) (s : S)
      → All (IsScoped (names_given force)) ((clean_up netris force orphan s).1)
  unfolding clean_up AreScoped
  clean_up-IsScoped force orphan s =
      elim (Bool-cases (not (is_empty orphan) && not (is_order_pattern orphan))) [
        | inl e ↦ rw e tt
        | inr e ↦ elim (Bool-cases (is_empty (names_given force) && is_empty orphan)) [
          | inl f ↦ rw e (rw f tt)
          | inr f ↦ rw e (rw f (clean_listed-AreScoped netris (names_given force) orphan s))
        ]
      ]

  -- A run that goes on leaves no NAT of the orders.
  unfoldable pub IsClean : List Text → Run S → Type 0
  IsClean orders (s, made, true) =
      (nats : List Item) × (netris.get_list nat s ≡ some nats)
      × (any (is_nat_of orders) nats ≡ false)
  IsClean orders (s, made, false) = Unit

  prepend-IsClean :
      (orders : List Text) (made : List (Kind × Item)) (r : Run S)
      → IsClean orders r
      → IsClean orders (prepend made r)
  unfolding IsClean
  prepend-IsClean orders made (s, more, true) c = c
  prepend-IsClean orders made (s, more, false) c = tt

  then_run-IsClean :
      (orders : List Text) (r : Run S) (f : S → Run S)
      → ((s : S) → IsClean orders (f s))
      → IsClean orders (then_run r f)
  unfolding IsClean
  then_run-IsClean orders (s, made, true) f h = prepend-IsClean orders made (f s) (h s)
  then_run-IsClean orders (s, made, false) f h = tt

  check_rest-IsClean :
      (orders : List Text) (s : S) (o : Option (List Item))
      → netris.get_list nat s ≡ o
      → IsClean orders (with_list netris o s (λ nats. (s, [], not (any (is_nat_of orders) nats))))
  unfolding IsClean
  check_rest-IsClean orders s none e = tt
  check_rest-IsClean orders s (some nats) e = elim (Bool-cases (any (is_nat_of orders) nats)) [
    | inl a ↦ rw a tt
    | inr a ↦ rw a (nats, e, a)
  ]

  with_list-IsClean :
      (orders : List Text) (o : Option (List Item)) (s : S) (f : List Item → Run S)
      → ((items : List Item) → IsClean orders (f items))
      → IsClean orders (with_list netris o s f)
  unfolding IsClean
  with_list-IsClean orders none s f h = tt
  with_list-IsClean orders (some items) s f h = h items

  delete_targets-IsClean :
      (force : List Text) (orphan : Text) (clusters vpcs nats : List Item) (s : S)
      → IsClean (nat_orders force orphan) (delete_targets netris force orphan clusters vpcs nats s)
  unfolding delete_targets
  delete_targets-IsClean force orphan clusters vpcs nats s =
      let targets = select (λ c. should_delete force c.name) clusters in
      let target_vpcs = select (is_target_vpc force) vpcs in
      let names = orphan_names force targets target_vpcs in
      let numbers = orphan_vpc_ids targets target_vpcs in
      let orders = nat_orders force orphan in
      let check = λ (t : S). check_rest netris orders t in
      let vpcs_gone = λ (t : S). then_run (delete_vpcs netris force t) check in
      let vnets_gone = λ (t : S). then_run (delete_vnets netris names numbers t) vpcs_gone in
      let clusters_gone =
        λ (t : S). then_run (delete_each netris server_cluster targets t) vnets_gone in
      then_run-IsClean orders
        (delete_each netris nat (select (hits_nat orders names numbers) nats) s) clusters_gone
        (λ t. then_run-IsClean orders (delete_each netris server_cluster targets t) vnets_gone (λ u.
          then_run-IsClean orders (delete_vnets netris names numbers u) vpcs_gone (λ v.
            then_run-IsClean orders (delete_vpcs netris force v) check
              (λ w. check_rest-IsClean orders w (netris.get_list nat w) refl))))

  clean_listed-IsClean :
      (force : List Text) (orphan : Text) (s : S)
      → IsClean (nat_orders force orphan) (clean_listed netris force orphan s)
  unfolding clean_listed IsClean
  clean_listed-IsClean force orphan s =
      let orders = nat_orders force orphan in
      let last = λ (clusters vpcs nats : List Item).
        if is_free netris orphan (netris.active_orders s)
        then delete_targets netris force orphan clusters vpcs nats s
        else (s, [], false) in
      let third = λ (clusters vpcs : List Item).
        with_list netris (netris.get_list nat s) s (last clusters vpcs) in
      let second =
        λ (clusters : List Item). with_list netris (netris.get_list vpc s) s (third clusters) in
      with_list-IsClean orders (netris.get_list server_cluster s) s second (λ clusters.
        with_list-IsClean orders (netris.get_list vpc s) s (third clusters) (λ vpcs.
          with_list-IsClean orders (netris.get_list nat s) s (last clusters vpcs) (λ nats.
            elim (Bool-cases (is_free netris orphan (netris.active_orders s))) [
              | inl e ↦ rw e (delete_targets-IsClean force orphan clusters vpcs nats s)
              | inr e ↦ rw e tt
            ])))

  IsClean-going :
      (orders : List Text) (r : Run S)
      → r.2 ≡ true
      → IsClean orders r
      → (nats : List Item) × (netris.get_list nat r.0 ≡ some nats)
        × (any (is_nat_of orders) nats ≡ false)
  unfolding IsClean
  IsClean-going orders (s, made, true) e c = c
  IsClean-going orders (s, made, false) e c = absurd (cc)

  -- A run that ends well leaves a controller that answers, and none of whose NAT rules is named for a
  -- targeted order or the orphan one.
  pub clean_up-clean :
      (force : List Text) (orphan : Text) (s : S)
      → (clean_up netris force orphan s).2 ≡ true
      → (nats : List Item) × (netris.get_list nat (clean_up netris force orphan s).0 ≡ some nats)
        × (any (is_nat_of (nat_orders (names_given force) orphan)) nats ≡ false)
  unfolding clean_up IsClean
  clean_up-clean force orphan s h =
      IsClean-going (nat_orders (names_given force) orphan) (clean_up netris force orphan s) h
        (elim (Bool-cases (not (is_empty orphan) && not (is_order_pattern orphan))) [
          | inl e ↦ rw e tt
          | inr e ↦ elim (Bool-cases (is_empty (names_given force) && is_empty orphan)) [
            | inl f ↦ rw e (rw f tt)
            | inr f ↦ rw e (rw f (clean_listed-IsClean (names_given force) orphan s))
          ]
        ])
