-- ===== src/Smi/Resources.antt =====
-- The resources of smi-sdk-go that the control plane reads, with the fields that it reads.
use osm_edge.Base.{
  ℕ, String, Option, List, nat_comparable, string_comparable, option_comparable, list_comparable,
  pair_comparable,
}

pub record IdentityBindingSubject : Type 0 where
  pub kind : String
  pub name : String
  pub namespace : String

pub record TrafficTargetRule : Type 0 where
  pub kind : String
  pub name : String
  pub matches : List String

pub record TrafficTarget : Type 0 where
  pub namespace : String
  pub name : String
  pub destination : IdentityBindingSubject
  pub sources : List IdentityBindingSubject
  pub rules : List TrafficTargetRule

pub record HttpMatch : Type 0 where
  pub name : String
  pub path_regex : String
  pub methods : List String
  pub headers : Option (List (String × String))

-- `Spec.Matches` is a slice that may be nil.
pub record HttpRouteGroup : Type 0 where
  pub namespace : String
  pub name : String
  pub matches : Option (List HttpMatch)

pub record TcpRoute : Type 0 where
  pub namespace : String
  pub name : String
  pub ports : List ℕ

-- Weights of a split are not negative.
pub record TrafficSplitBackend : Type 0 where
  pub service : String
  pub weight : ℕ

-- Of the matches the code reads the names.
pub record TrafficSplit : Type 0 where
  pub namespace : String
  pub name : String
  pub service : String
  pub backends : List TrafficSplitBackend
  pub match_names : List String

abbrev pub service_account_kind : String
service_account_kind = "ServiceAccount"

abbrev pub http_route_group_kind : String
http_route_group_kind = "HTTPRouteGroup"

abbrev pub tcp_route_kind : String
tcp_route_kind = "TCPRoute"
