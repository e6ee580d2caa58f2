-- ===== src/Tests.antt =====
-- Runs of the modelled operations at concrete inputs, and the theorems at them.
mod Samples
mod Names
mod Policies
mod Routes
mod Catalog
mod Certificates
mod Ingress
mod Messaging
mod Validator
mod Multicluster
mod WorkerPool
