-- ===== src/Cleanup.antt =====
-- The clean-up of a lab after orders that are gone:
-- infra/netris/roles/force-destroy-caas/files/netris_orphan_cleanup.py. The controller is a state
-- behind two calls, which are given; a text that is missing is empty.
pub mod Scope
pub mod Workers
mod Tests
use osac_test_infra.Prelude.{
  ℕ, Bool, true, false, not, Option, none, some, List, [], ◌∷◌, ◌++◌, ◌&&◌, ◌||◌, ◌==◌, leb,
  if◌then◌else◌, codes, is_empty, any, all, drop, map,
}
use osac_test_infra.Prelude.Search.{bytes_eq, starts_with, contains}
use osac_test_infra.Text.{Text}

pub data Kind : Type 0 where
  server_cluster : Kind
  vpc : Kind
  nat : Kind
  vnet : Kind

-- An object of the controller, with the identifier and the name of its VPC.
pub record Item : Type 0 where
  pub id : Option ℕ
  pub name : Text
  pub vpc_id : Option ℕ
  pub vpc_name : Text
  pub is_system : Bool
  pub is_default : Bool

-- get_list, whose failure ends the process, and `curl("DELETE", …)` with its status; and the names of
-- the cluster orders and hosted clusters, `none` after a failed command.
pub record Netris (S : Type 0) : Type 0 where
  pub get_list : Kind → S → Option (List Item)
  pub delete : Kind → Option ℕ → S → S × Text
  pub active_orders : S → Option (List Text)

abbrev pub is_name_char : ℕ → Bool
is_name_char c = leb 97 c && leb c 122 || leb 48 c && leb c 57

-- is_order_name
unfoldable pub is_order_name : Text → Bool
unfolding starts_with
is_order_name name = starts_with (codes "order-") name

-- re.fullmatch(r"order-[a-z0-9]+", …)
unfoldable pub is_order_pattern : Text → Bool
unfolding is_order_name
is_order_pattern name =
    let rest = drop 6 name in is_order_name name && (not (is_empty rest) && all is_name_char rest)

abbrev pub is_in : Text → List Text → Bool
is_in name names = any (bytes_eq name) names

-- should_delete
unfoldable pub should_delete : List Text → Text → Bool
unfolding is_order_name bytes_eq
should_delete force name = is_order_name name && is_in name force

-- A VPC that stays in any case.
unfoldable pub is_protected : Item → Bool
unfolding bytes_eq
is_protected v =
    v.is_system || (v.is_default || is_in v.name (codes "Default" ∷ codes "ocp-sno" ∷ []))

abbrev pub is_target_vpc : List Text → Item → Bool
is_target_vpc force v = should_delete force v.name && not (is_protected v)

unfoldable pub select : (Item → Bool) → List Item → List Item
select hit [] = []
select hit (item ∷ items) = let rest = select hit items in if hit item then item ∷ rest else rest

abbrev pub ids : List (Option ℕ) → List ℕ
ids [] = []
ids (none ∷ options) = ids options
ids (some n ∷ options) = n ∷ ids options

abbrev pub names_given : List Text → List Text
names_given [] = []
names_given (t ∷ texts) = let rest = names_given texts in if is_empty t then rest else t ∷ rest

abbrev pub has_id : Option ℕ → List ℕ → Bool
has_id none numbers = false
has_id (some n) numbers = any (λ m. n == m) numbers

-- orphan_names, orphan_vpc_ids and nat_orders, from the targets.
unfoldable pub orphan_names : List Text → List Item → List Item → List Text
orphan_names force clusters vpcs =
    map (λ c. c.name) clusters
    ++ (map (λ v. v.name) vpcs ++ (force ++ names_given (map (λ c. c.vpc_name) clusters)))

unfoldable pub orphan_vpc_ids : List Item → List Item → List ℕ
orphan_vpc_ids clusters vpcs = ids (map (λ v. v.id) vpcs) ++ ids (map (λ c. c.vpc_id) clusters)

abbrev pub nat_orders : List Text → Text → List Text
nat_orders force orphan = if is_empty orphan then force else force ++ orphan ∷ []

unfoldable pub is_nat_of : List Text → Item → Bool
unfolding starts_with
is_nat_of orders n = any (λ order. starts_with (order ++ codes "-") n.name) orders

unfoldable pub hits_nat : List Text → List Text → List ℕ → Item → Bool
unfolding is_nat_of bytes_eq
hits_nat orders names numbers n =
    is_nat_of orders n || (has_id n.vpc_id numbers || is_in n.vpc_name names)

unfoldable pub hits_vnet : List Text → List ℕ → Item → Bool
unfolding contains bytes_eq
hits_vnet names numbers v =
    any (λ o. not (is_empty o) && contains o v.name) names
    || (has_id v.vpc_id numbers || is_in v.vpc_name names)

-- code.startswith("2"), or 404 where that counts as done.
unfoldable pub is_done : Bool → Text → Bool
unfolding starts_with bytes_eq
is_done missing_is_done code =
    starts_with (codes "2") code || missing_is_done && bytes_eq code (codes "404")

abbrev pub missing_is_done : Kind → Bool
missing_is_done server_cluster = false
missing_is_done vpc = false
missing_is_done nat = true
missing_is_done vnet = true

-- What a part of the run leaves: the state, the requests made, and whether the process goes on.
abbrev pub Run : Type 0 → Type 0
Run S = S × List (Kind × Item) × Bool

module _ {S : Type 0} where
  abbrev pub prepend : List (Kind × Item) → Run S → Run S
  prepend made (s, more, goes_on) = (s, made ++ more, goes_on)

  abbrev pub then_run : Run S → (S → Run S) → Run S
  then_run (s, made, true) f = prepend made (f s)
  then_run (s, made, false) f = (s, made, false)

module _ {S : Type 0} (netris : Netris S) where
  -- A loop over the targets; the first status that is not accepted ends the process.
  unfoldable pub delete_each : Kind → List Item → S → Run S
  unfolding is_done
  delete_each kind [] s = (s, [], true)
  delete_each kind (item ∷ items) s =
      let (s', code) = netris.delete kind item.id s in
      let rest = prepend ((kind, item) ∷ []) (delete_each kind items s') in
      if is_done (missing_is_done kind) code then rest else (s', (kind, item) ∷ [], false)

  abbrev pub with_list : Option (List Item) → S → (List Item → Run S) → Run S
  with_list none s f = (s, [], false)
  with_list (some items) s f = f items

  -- The check after the loops.
  abbrev pub check_rest : List Text → S → Run S
  check_rest orders s =
      with_list (netris.get_list nat s) s (λ nats. (s, [], not (any (is_nat_of orders) nats)))

  abbrev pub delete_vpcs : List Text → S → Run S
  delete_vpcs force s =
      with_list (netris.get_list vpc s) s
        (λ vpcs. delete_each vpc (select (is_target_vpc force) vpcs) s)

  abbrev pub delete_vnets : List Text → List ℕ → S → Run S
  delete_vnets names numbers s =
      with_list (netris.get_list vnet s) s
        (λ vnets. delete_each vnet (select (hits_vnet names numbers) vnets) s)

  -- The loops, from the lists that were read first.
  unfoldable pub delete_targets : List Text → Text → List Item → List Item → List Item → S → Run S
  unfolding delete_each select orphan_names orphan_vpc_ids hits_nat hits_vnet should_delete
      is_protected
  delete_targets force orphan clusters vpcs nats s =
      let targets = select (λ c. should_delete force c.name) clusters in
      let target_vpcs = select (is_target_vpc force) vpcs in
      let names = orphan_names force targets target_vpcs in
      let numbers = orphan_vpc_ids targets target_vpcs in
      let orders = nat_orders force orphan in
      then_run (delete_each nat (select (hits_nat orders names numbers) nats) s) (λ s.
        then_run (delete_each server_cluster targets s) (λ s.
          then_run (delete_vnets names numbers s)
            (λ s. then_run (delete_vpcs force s) (λ s. check_rest orders s))))

  -- Whether the order whose NAT is to go is still active; `none` after a failed command.
  abbrev pub is_free : Text → Option (List Text) → Bool
  is_free orphan none = is_empty orphan
  is_free orphan (some active) = is_empty orphan || not (is_in orphan active)

  -- The lists, in the order in which they are read, and the loops.
  unfoldable pub clean_listed : List Text → Text → S → Run S
  unfolding delete_targets bytes_eq
  clean_listed force orphan s = with_list (netris.get_list server_cluster s) s (λ clusters.
      with_list (netris.get_list vpc s) s (λ vpcs. with_list (netris.get_list nat s) s (λ nats.
        if is_free orphan (netris.active_orders s)
        then delete_targets force orphan clusters vpcs nats s
        else (s, [], false))))

  -- The script, from its arguments on.
  unfoldable pub clean_up : List Text → Text → S → Run S
  unfolding clean_listed is_order_pattern
  clean_up force orphan s =
      let given = names_given force in
      if not (is_empty orphan) && not (is_order_pattern orphan)
      then (s, [], false)
      else if is_empty given && is_empty orphan
      then (s, [], false)
      else clean_listed given orphan s
