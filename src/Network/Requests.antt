-- ===== src/Network/Requests.antt =====
-- module.go: what the other modules and the HTTP handlers ask of the service, one request after another.
use marstack_cloud.Common.{
  String, List, [], ◌∷◌, World, Gives-bind_any, Gives-when, Gives-pure-Any, Gives-raise,
  Gives-attempt-Any, Maintains, Any-Fact,
}
use marstack_cloud.Fault.{Error, Result, ok, err}
use marstack_cloud.Network.Rows.{
  Network, Nic, Tables, CreateParams, Env, network_by_name, slices_except, nics_on_node,
  list_networks,
}
use marstack_cloud.Network.Service.{
  create, remove, ensure_default_for, default_with, create_default, free_default_cidr,
  free_of_supernet, or_error,
}
use marstack_cloud.Network.Leases.{ensure_slice, allocate, release, node_view, views_of}
use marstack_cloud.Network.Stating.{Gives-query, Gives-selected, Gives-translated, Maintains-get}

pub data Request : Type 0 where
  create_network : CreateParams → Request
  delete_network_in : String → String → Request
  default_network : String → Request
  slice_for : String → String → Request
  allocate_address : String → String → String → Request
  release_address : String → Request
  view_of_node : String → Request

-- What a request leaves of the tables, whether it succeeds or fails.
unfoldable pub handle : Env → Request → World Tables → World Tables
handle env (create_network params) w = (create env params w).1
handle env (delete_network_in id project_id) w = (remove env id project_id w).1
handle env (default_network project_id) w = (ensure_default_for env project_id w).1
handle env (slice_for network_id node_id) w = (ensure_slice env network_id node_id w).1
handle env (allocate_address instance_id network_id node_id) w =
    (allocate env instance_id network_id node_id w).1
handle env (release_address instance_id) w = (release env instance_id w).1
handle env (view_of_node node_id) w = (node_view env node_id w).1

unfoldable pub handle_all : Env → List Request → World Tables → World Tables
handle_all env [] w = w
handle_all env (r ∷ rs) w = handle_all env rs (handle env r w)

-- The operations that are made of others keep what the others keep.
module _ (P : Tables → Type 0) (env : Env)
    (creates : (params : CreateParams) → Maintains P (create env params))
    (slices : (network_id node_id : String)
      → Maintains P (ensure_slice env network_id node_id)) where
  Maintains-or_error : (f : Error → Error) (r : Result _) → Maintains P (or_error f r)
  Maintains-or_error f (ok p) = Gives-pure-Any p
  Maintains-or_error f (err e) = Gives-raise (f e)

  Maintains-free : Maintains P (free_default_cidr env)
  unfolding free_default_cidr free_of_supernet list_networks
  Maintains-free =
      Gives-bind_any _ _ (Gives-translated P env _ (Gives-query P env _ _ (λ t p. tt))) (λ ns.
        Gives-bind_any _ _ (Maintains-or_error _ _) (λ preferred.
          Gives-when _ _ _ (λ _. Gives-pure-Any _)
            (λ _. Gives-bind_any _ _ (Maintains-or_error _ _) (λ supernet.
              Gives-bind_any _ _ (Maintains-or_error _ _) (λ free. Gives-pure-Any _)))))

  Maintains-default_with :
      (project_id : String) (r : Result Network) → Maintains P (default_with env project_id r)
  unfolding default_with create_default
  Maintains-default_with project_id (ok n) = Gives-pure-Any n
  Maintains-default_with project_id (err e) =
      Gives-when _ _ _ (λ _. Gives-bind_any _ _ Maintains-free (λ cidr. creates _))
        (λ _. Gives-raise _)

  pub Maintains-default : (project_id : String) → Maintains P (ensure_default_for env project_id)
  unfolding ensure_default_for network_by_name
  Maintains-default project_id =
      Gives-bind_any _ _ (Gives-attempt-Any _ (Gives-selected P env _ _ (λ t p. Any-Fact _)))
        (λ r. Maintains-default_with project_id r)

  Maintains-views :
      (node_id : String) (nics : List Nic) (order : List String)
      → Maintains P (views_of env node_id nics order)
  unfolding views_of slices_except
  Maintains-views node_id nics [] = Gives-pure-Any []
  Maintains-views node_id nics (n ∷ order) = Gives-bind_any _ _ (Maintains-get P env n) (λ _.
      Gives-bind_any _ _ (slices n node_id) (λ s.
        Gives-bind_any _ _ (Gives-translated P env _ (Gives-query P env _ _ (λ t p. tt))) (λ peers.
          Gives-bind_any _ _ (Maintains-views node_id nics order) (λ rest. Gives-pure-Any _))))

  pub Maintains-node_view : (node_id : String) → Maintains P (node_view env node_id)
  unfolding node_view nics_on_node
  Maintains-node_view node_id =
      Gives-bind_any _ _ (Gives-translated P env _ (Gives-query P env _ _ (λ t p. tt)))
        (λ nics. Maintains-views node_id nics _)
