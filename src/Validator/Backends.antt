-- ===== src/Validator/Backends.antt =====
-- The validators of ingress backends and access controls (pkg/validator/validators.go). The object is
-- given decoded; the decoder of JSON, of another package, answers its error otherwise.
use osm_edge.SetLibrary.{SetLibrary}
use osm_edge.Service.{MeshService}
use osm_edge.Policy.Resources.{
  BackendSpec, SourceSpec, TlsSpec, IngressBackend, AccessControl, kind_service,
  kind_authenticated_principal, kind_ip_range,
}
use osm_edge.Policy.Client.{Client, get_ingress_backend_policy, get_access_control_policy}
use osm_edge.Policy.Conflicts.{
  set_key, detect_ingress_backend_conflicts, detect_access_control_conflicts,
}
use osm_edge.Catalog.Egress.{Externals}
use osm_edge.Base.{
  ◌%◌, ◌^◌, String, Bool, false, not, ◌&&◌, ◌||◌, Option, none, some, List, [], ◌∷◌, ◌==◌,
  nat_comparable, bool_comparable, string_comparable, option_comparable, list_comparable,
  pair_comparable, if◌then◌else◌, any, elem, sprintf, decimal,
}

-- `strings.ToLower` and the like are fields of the record of the other packages' functions.
pub data Decoded (A : Type 0) : Type 0 where
  decoded : A → Decoded A
  undecodable : String → Decoded A

pub data Admission : Type 0 where
  allowed : Admission
  denied : String → Admission

-- `return nil, err` on the first error.
abbrev pub admit_unless : Option String → Admission
admit_unless none = allowed
admit_unless (some reason) = denied reason

abbrev pub or_next : Option String → Option String → Option String
or_next none next = next
or_next (some reason) next = some reason

-- The service by which the validators look for existing policies: it has no namespace.
abbrev pub fake_mesh_svc : BackendSpec → MeshService
fake_mesh_svc b = record {
  namespace = "";
  name = b.name;
  port = 0;
  target_port = b.port.number % 2 ^ 16;
  protocol = b.port.protocol;
  service_import_uid = "";
}

abbrev pub has_authenticated_source : List SourceSpec → Bool
has_authenticated_source sources = any (λ s. s.kind == kind_authenticated_principal) sources

abbrev pub skips_validation : Option TlsSpec → Bool
skips_validation none = false
skips_validation (some tls) = tls.skip_client_cert_validation

-- The switch over the kind of a source.
unfoldable pub source_error : Externals → SourceSpec → Option String
source_error x s =
    if s.kind == kind_service
    then if s.name == ""
      then some (sprintf ("'source.name' not specified for source kind " ∷ kind_service ∷ []))
      else if s.namespace == ""
      then some (sprintf ("'source.namespace' not specified for source kind " ∷ kind_service ∷ []))
      else none
    else if s.kind == kind_authenticated_principal
    then if s.name == ""
      then some (
          sprintf
            ("'source.name' not specified for source kind " ∷ kind_authenticated_principal ∷ []))
      else none
    else if s.kind == kind_ip_range
    then if x.parses_cidr s.name
      then none
      else some (
          sprintf (
            "Invalid 'source.name' value specified for IPRange. Expected CIDR notation 'a.b.c.d/x', got '"
            ∷ s.name ∷ "'" ∷ []))
    else some (
        sprintf (
          "Invalid 'source.kind' value specified. Must be one of: " ∷ kind_service ∷ ", "
          ∷ kind_authenticated_principal ∷ ", " ∷ kind_ip_range ∷ []))

unfoldable pub first_source_error : Externals → List SourceSpec → Option String
unfolding source_error
first_source_error x [] = none
first_source_error x (s ∷ rest) = or_next (source_error x s) (first_source_error x rest)

-- An existing policy that matches a backend: its namespace and name, which stand for its pointer, and
-- the text that reports the conflicts with it.
pub record Conflict : Type 0 where
  pub key : String × String
  pub report : String

abbrev lines : List String → String
lines [] = ""
lines (e ∷ es) = sprintf (e ∷ "\n" ∷ lines es ∷ [])

abbrev pub report : String → String → String → String → List String → String
report kind namespace name other conflicts = sprintf (
    "[+] "
    ∷ kind
    ∷ " "
    ∷ namespace
    ∷ "/"
    ∷ name
    ∷ " conflicts with "
    ∷ namespace
    ∷ "/"
    ∷ other
    ∷ ":\n"
    ∷ lines conflicts
    ∷ "\n"
    ∷ [])

-- The end of the loop: an error, or the text of the conflicts.
pub data Checked : Type 0 where
  rejected : String → Checked
  conflicts : String → Checked

abbrev pub duplicate_backend : BackendSpec → String
duplicate_backend b = sprintf (
    "Duplicate backends detected with service name: "
    ∷ b.name
    ∷ " and port: "
    ∷ decimal b.port.number
    ∷ [])

-- The end of a round: an error, or what the next round sees of the conflicts.
pub data Round : Type 0 where
  stops : String → Round
  goes_on : List (String × String) → String → Round

abbrev pub check : Option String → List (String × String) → String → Round
check none seen text = goes_on seen text
check (some reason) seen text = stops reason

-- A policy that was seen before ends the round, without the check after it.
abbrev pub check_conflict :
    Option Conflict → Option String → List (String × String) → String → Round
check_conflict none error seen text = check error seen text
check_conflict (some c) error seen text =
    if elem c.key seen
    then goes_on seen text
    else check error (c.key ∷ seen) (sprintf (text ∷ c.report ∷ []))

abbrev pub after_round : Round → (List (String × String) → String → Checked) → Checked
after_round (stops reason) next = rejected reason
after_round (goes_on seen text) next = next seen text

module _ (S : SetLibrary) (conflict_of : BackendSpec → Option Conflict)
    (error_of : BackendSpec → Option String) where
  abbrev pub backend_round : Bool → BackendSpec → List (String × String) → String → Round
  backend_round is_new b seen text =
      if not is_new
      then stops (duplicate_backend b)
      else check_conflict (conflict_of b) (error_of b) seen text

  -- The loop over the backends. `seen` are the conflicting policies, `text` is what is reported.
  unfoldable pub check_backends :
      S.keys.Carrier → List (String × String) → String → List BackendSpec → Checked
  check_backends backends seen text [] = conflicts text
  check_backends backends seen text (b ∷ bs) =
      let added = S.keys.add backends (set_key b) in
      after_round (backend_round added.1 b seen text)
        (λ seen' text'. check_backends added.0 seen' text' bs)

-- What follows the loop over the backends.
abbrev pub after_backends : Externals → List SourceSpec → Checked → Admission
after_backends x sources (rejected reason) = denied reason
after_backends x sources (conflicts text) =
    if not (text == "")
    then denied (sprintf ("duplicate backends detected\n" ∷ text ∷ []))
    else admit_unless (first_source_error x sources)

-- The switch over the protocol.
abbrev pub ingress_error : Externals → IngressBackend → BackendSpec → Option String
ingress_error x ib b =
    let protocol = x.to_lower b.port.protocol in
    if (protocol == "http") || (protocol == "https")
    then none
    else if protocol == "grpc"
    then if skips_validation b.tls && not (has_authenticated_source ib.sources)
      then some
          "HTTPS ingress with client certificate validation enabled must specify at least one 'AuthenticatedPrincipal` source"
      else none
    else some (
        sprintf (
          "Expected 'port.protocol' to be 'http', 'https' or 'grpc', got: " ∷ b.port.protocol ∷ []))

abbrev pub access_control_error : AccessControl → BackendSpec → Option String
access_control_error acl b =
    if skips_validation b.tls && not (has_authenticated_source acl.sources)
    then some
        "HTTPS acl with client certificate validation enabled must specify at least one 'AuthenticatedPrincipal` source"
    else none

module _ (S : SetLibrary) (c : Client) where
  abbrev pub ingress_conflict_with : IngressBackend → Option IngressBackend → Option Conflict
  ingress_conflict_with ib none = none
  ingress_conflict_with ib (some p) =
      if p.name == ib.name
      then none
      else some (record {
        key = (p.namespace, p.name);
        report =
            report "IngressBackend" ib.namespace ib.name p.name
              (detect_ingress_backend_conflicts S.keys ib p);
      })

  abbrev pub ingress_conflict : IngressBackend → BackendSpec → Option Conflict
  ingress_conflict ib b = ingress_conflict_with ib (get_ingress_backend_policy c (fake_mesh_svc b))

  unfoldable pub ingress_backend_validator : Externals → Decoded IngressBackend → Admission
  unfolding check_backends first_source_error
  ingress_backend_validator x (undecodable reason) = denied reason
  ingress_backend_validator x (decoded ib) =
      after_backends x ib.sources (
        check_backends S (ingress_conflict ib) (ingress_error x ib) S.keys.new_set [] ""
          ib.backends)

  abbrev pub access_control_conflict_with : AccessControl → Option AccessControl → Option Conflict
  access_control_conflict_with acl none = none
  access_control_conflict_with acl (some p) =
      if p.name == acl.name
      then none
      else some (record {
        key = (p.namespace, p.name);
        report =
            report "AccessControlBackend" acl.namespace acl.name p.name
              (detect_access_control_conflicts S.keys acl p);
      })

  abbrev pub access_control_conflict : AccessControl → BackendSpec → Option Conflict
  access_control_conflict acl b =
      access_control_conflict_with acl (get_access_control_policy c (fake_mesh_svc b))

  unfoldable pub access_control_validator : Externals → Decoded AccessControl → Admission
  unfolding check_backends first_source_error
  access_control_validator x (undecodable reason) = denied reason
  access_control_validator x (decoded acl) = after_backends x acl.sources (
      check_backends S (access_control_conflict acl) (access_control_error acl) S.keys.new_set [] ""
        acl.backends)
