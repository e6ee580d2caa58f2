-- ===== src/Lib.antt =====
-- The control plane of osm-edge: how the mesh catalog turns the resources of the Service Mesh
-- Interface and the policy resources of the cluster into the inbound, outbound and egress policies
-- of a proxy, which resources it admits, how it issues certificates, and when it updates proxies.
--
-- The parts and their files:
-- - Base: lists, texts, numbers, the interface `Comparable` for Go's equality, the interface `MapSet`
--   of the set library with its documented laws, and `Run`, a call that may panic.
-- - Identity: pkg/identity/types.go. `ToK8sServiceAccount` is `to_k8s_service_account`, which panics
--   where the code's index is out of range.
-- - Service: pkg/service/types.go and service.go, the services and the names made from them.
-- - K8s.Hostname: pkg/k8s/util.go, the hostnames of a service and the reading of a hostname.
-- - Policy.Resources: pkg/apis/policy/v1alpha1. Policy.Client: pkg/policy/client.go, the queries over
--   what the informers hold. Policy.Conflicts: pkg/policy/conflicts.go.
-- - Smi: pkg/smi/client.go over the resources in Smi.Resources.
-- - TrafficPolicy: pkg/trafficpolicy. Types holds the structs, Equality the deep equality of routes,
--   Rules the routes and rules and their merges, Hostnames the merge of inbound policies.
-- - SetLibrary: the sets that the rest is parametrised by, and their instance by lists.
-- - Catalog: pkg/catalog, the record of the controllers that it calls and the queries over its
--   providers. Targets follows the traffic targets (traffictarget.go, retry.go, endpoint.go); Routes,
--   Inbound build the inbound policy (inbound_traffic_policies.go), and Routes.Reference names the
--   routes without its maps; Clusters, Outbound the outbound one (outbound_traffic_policies.go);
--   Egress, EgressPolicy the egress one (egress.go); Sources holds the loops that Ingress (ingress.go)
--   and AccessControl (access_control.go) share, and a result there is the status updates that the
--   call makes and its error, nil or policy; Export (multi_cluster.go) builds the policy of an
--   exported service, Plugins (plugin.go) lists the plugins.
-- - Multicluster: pkg/multicluster over the resources of pkg/apis/multicluster/v1alpha1: the traffic
--   policies of services, exports and ingress controllers; Imports has the queries over imported
--   services (service_import.go).
-- - Config: pkg/apis/config/v1alpha2/mesh_config.go, the mesh configuration and Go's comparison of its
--   structs.
-- - Messaging: pkg/messaging with pkg/announcements and pkg/k8s/events. Events says which message
--   updates which proxies; Broker is the machine of the work queue and of the dispatcher, whose two
--   timers are armed, fired or drained; Batches is the specification of the dispatcher without
--   timers, Begun and Endings follow its batch to its end; Windows, Times, Refinement and Latency
--   compare the broker with it.
-- - Validator: pkg/validator/validators.go. Backends has the validators of ingress backends and access
--   controls, References those of the other resources.
-- - Ticker: pkg/ticker/ticker.go, the watcher of the mesh configuration and the ticker routines.
-- - WorkerPool: pkg/workerpool/workerpool.go, the workers and their channel of jobs.
-- - Certificate: pkg/certificate, the manager with its two issuers and its cache (manager.go) as a
--   state that each call passes on, and the options of an issue (options.go). The certificate authority
--   is a function in the record of an issuer; the time and the noise are arguments. Calls
--   orders the calls of the goroutines in sequences, Rotation is about checkAndRotate and
--   ReleaseCertificate.
-- - Tests: a small mesh and the theorems at it.
--
-- A function of the source has its name here in lower case with underscores; the rounds of its
-- loops are helpers by clauses beside it. Every loop is over a slice and is structural recursion,
-- so there is no fuel. The goroutines of the broker, the ticker and the worker pool are machines
-- over a list of inputs, each input one turn of one goroutine, so every order of turns is a list; a
-- turn that is not ready is passed over, and a receive or a send that waits for ever is `blocked`
-- or stays `waiting`. Timers are those of Go before 1.23, whose channel keeps a value that was not
-- received. A call that may panic is a `Run`; an error is `none`. The catalog is a record of the
-- answers of its controllers: of the informers' caches it holds the lists and lookups, of the
-- Kubernetes and the multicluster controllers the functions that are called. A Go map is an
-- association list; where Go's order of a map or of a set is not specified, the model has one order
-- and the statements do not depend on it.
--
-- Third-party code is a parameter: the set library by `MapSet`, with lists as the instance at which
-- the model runs, and the functions of the record `Catalog.Egress.Externals` (lower case, equality
-- that ignores case, the test for an IP range, the hash of a structure, the version of the SMI
-- specs), the decoder of the admitted objects by its result, `time.ParseDuration` and Envoy's table
-- of status codes by arguments. The pub-subs are the lists of what was published. Ports are natural
-- numbers; where the source converts to 16 bits, `to_uint16_slice`, the remainder is written out.
-- Weights are not negative.
--
-- Not modelled: the sidecar drivers, the injector and the commands, which are glue to the platform;
-- logging and metrics. The rules of a policy are values: where the merge of inbound policies by their
-- hosts shares the pointer of a rule between policies, a later change of the one is not seen in the
-- other.
pub mod Base
pub mod Identity
pub mod Service
pub mod K8s
pub mod Policy
pub mod SetLibrary
pub mod TrafficPolicy
pub mod Smi
pub mod Catalog
pub mod Certificate
pub mod Config
pub mod Messaging
pub mod Multicluster
pub mod Validator
pub mod Ticker
pub mod WorkerPool
mod Tests
