-- ===== src/K8s.antt =====
-- pkg/k8s/util.go: the hostnames of a service and the service of a hostname.
pub mod Hostname
